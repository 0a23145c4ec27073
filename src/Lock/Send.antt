-- ===== src/Lock/Send.antt =====
-- Sending: `ble_send_packet` of firmware/avr/src/main.c, which BGLib calls for each command.
pub mod Frame
pub mod Delivery
use esloq.Base.{ℕ, ◌%◌, ◌^◌, List, ◌∷◌, Outcome, ok, halted, soft_reset, length}
use esloq.Uart.{Window, TxStatus, sent, timed_out, uart_tx, Uart}
use esloq.Lock.State.{Machine, Command, BgLib}
use esloq.Lock.Monad.{M, ◌>>=◌, ◌>>◌}

-- `UART_TIMEOUT`
abbrev pub uart_timeout : ℕ
uart_timeout = 100

-- `soft_reset`: the watchdog resets the microcontroller out of the endless loop.
abbrev pub reset_mcu : {A : Type 0} → M A
reset_mcu m = (m, halted soft_reset)

-- The result of `uart_tx`: the new state of the UART on a return.
unfoldable pub after_tx :
    Machine → Outcome (TxStatus × List Window × Uart) → Machine × Outcome (Unit {0})
after_tx m (halted s) = (m, halted s)
after_tx m (ok (sent, ws, u)) = (record m { uart = u }, ok tt)
after_tx m (ok (timed_out, ws, u)) = (record m { uart = u }, halted soft_reset)

-- `len2` is a `uint16` here and a `uint8_t` in `uart_tx`.
unfoldable pub ble_send_packet : List Window → ℕ → List ℕ → ℕ → List ℕ → M (Unit {0})
unfolding after_tx
ble_send_packet ws len1 data1 len2 data2 m =
    after_tx m (uart_tx len1 data1 (len2 % 2 ^ 8) data2 uart_timeout ws m.uart)

-- A macro of cmd_def.h: `ble_send_message` hands the packet to `bglib_output`, which `main` sets to
-- `ble_send_packet`.
unfoldable pub ble_cmd : BgLib → List Window → Command → M (Unit {0})
ble_cmd bg ws c m =
    ble_send_packet ws (length (bg.data1 c)) (bg.data1 c) (length (bg.data2 c)) (bg.data2 c)
      (record m { commands = c ∷ m.commands })
