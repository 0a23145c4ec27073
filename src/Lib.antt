-- ===== src/Lib.antt =====
-- Esloq: the firmware of a door lock that a phone opens over Bluetooth (firmware/avr/src), with the
-- sides of the phone and of the server in its protocol.
--
-- A server seals a ticket with the lock's master key; the phone hands it over, and from then on its
-- requests are sealed with the session key that the ticket carries. The program is a main loop that
-- runs a state machine (`fsm_process`), reads one packet of the Bluetooth module from the UART
-- (`ble_process_packet`), calls the handler that BGLib names for it, and serves the two buttons.
--
-- Which file models what:
--   Nonce      main.c: is_greater_than, is_valid_..._nonce, increment_array
--   Crypto     crypto.c; avrnacl is the parameter `SecretBox`, and `IsSecretBox` states what NaCl
--              documents
--   Mcu        the registers, as numbers, and a record of what dc_motor.c writes to the motor's port
--   Timer      timer.c
--   Motor      dc_motor.c, motor_control.c, requests.c
--   Uart       uart.c: the receive buffer, its interrupt, uart_rx and uart_tx
--   Lock       main.c and button.c. Lock.State has the globals as the record `Machine`; Lock.Monad
--              passes it on. Lock.Send, Lock.Respond, Lock.Ticket, Lock.Request, Lock.Advert,
--              Lock.Handlers, Lock.Fsm and Lock.Loop have the functions, each under the name it has
--              in the source, and Lock.Board the set-up of pins and peripherals; Lock.Stubs has
--              the messages of stubs.c, whose handlers are empty. BGLib (cmd_def.c) is the parameter
--              `BgLib`. Lock.Reset has the life of a lock over resets and losses of power
--              outside the write of the EEPROM, and Lock.Steady the rules by which every function
--              keeps the invariant of the globals.
--              Lock.Protocol is the abstract protocol (the number of the last ticket and the
--              session, with steps that know no buffers, packets or pins); Lock.Quiet has the rules
--              for the actions that take no message.
--   Wrappers   android/EsloqApp/app/src/main/jni/crypto_nacl_jni.c and
--              webserver/esloq/lib/nacl_module/naclmodule.c, the same encryption on the other sides
--   Phone      android/EsloqApp/app/src/main/java/com/esloq/esloqapp: Cryptography.java,
--              util/Tools.java, and the messages of lock/BluetoothService.java; Phone.Controller has
--              the orders and what is heard of the answers, in lock/LockControllerImpl.java
--   Server     `getlockticket` of webserver/esloq/views.py; Server.Access has the accesses on locks:
--              permissions.py, and the requests of urls.py that write accesses or give tickets;
--              Server.Logs has those that write and delete logs. Django and its REST framework are the
--              parameters `Objects` and `LogObjects`.
--   Exchange   lock, phone and server together: Login and Order from encryption to answer, Start
--              and Session with the state that phone and server keep, Orders a whole session,
--              Door the orders to lock and unlock, Race two requests for a ticket at once. The phone
--              reads the values that the lock's commands have written (Phone.Notified), the last two
--              of them sent on acknowledgements of the Bluetooth module (Lock.Handlers.Acks)
--   Spi        spi.c and the state names of strings.c, which are compiled only with PRINTS
--   Base       what the others share; Tests has runs on concrete inputs.
--
-- An access outside an object is the result `out_of_bounds`, a reset by the watchdog `soft_reset`.
-- There is no fuel: a loop that waits for the hardware recurses on the list of what it finds at each
-- turn, and is `waiting` where that list ends.
-- Bytes that an interrupt stores, timer counts and pins that are read are such inputs. Interrupts
-- fall between the turns of a loop; only `take_byte_interrupted` puts one inside a statement.
-- A turn of the main loop that accesses an object out of bounds is undefined, and has no successor
-- in Lock.Reset. Lock.Handlers.Overrun, Lock.Loop.Overflow and Nonce.Increment are about messages and
-- nonces that lead there. The write of the 24 bytes of the EEPROM is one step; power may be lost
-- before or after it, but a loss inside it is not covered.
--
-- Not modelled: a loss of power inside the write of the EEPROM; the texts of error messages in
-- strings.c, and the calls that print (PRINTS is 0); delays; BGLib and NaCl, which are other
-- projects; of the app, what is not named above; of the server, accounts, the names of locks, the
-- requests that only read, and the check of Firebase tokens.
pub mod Base
pub mod Nonce
pub mod Crypto
pub mod Mcu
pub mod Timer
pub mod Motor
pub mod Uart
pub mod Lock
pub mod Exchange
pub mod Phone
pub mod Server
pub mod Spi
pub mod Wrappers
pub mod Tests
