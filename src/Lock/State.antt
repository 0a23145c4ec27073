-- ===== src/Lock/State.antt =====
-- The globals of firmware/avr/src/main.c, crypto.c and button.c, the commands and messages that
-- are exchanged with the Bluetooth module, and what BGLib (cmd_def.c) does for them, which is a
-- parameter.
use esloq.Base.{ℕ, List, Option}
use esloq.Uart.{Uart}
use esloq.Lock.Stubs.{StubMessage}

-- `enum states`
pub data State : Type 0 where
  reset ble_boot_w ble_boot system_address_get_w system_address_get adv_param_set_w : State
  adv_param_set adv_data_set_w adv_data_set adv_sr_data_set_w adv_sr_data_set : State
  advertising_w advertising adv_sleep_w adv_sleep connected ticket request_w request : State
  disconnected : State

pub State-discrete : Discrete State
State-discrete = hlevel

-- `TICKET_LEN` and `MAX_MESSAGE_LEN`: 24 nonce, 16 auth, 32 key.
abbrev pub ticket_len : ℕ
ticket_len = 72

-- 24 nonce, 16 auth, 1 request or response
abbrev pub request_len : ℕ
request_len = 41

abbrev pub response_len : ℕ
response_len = 41

-- `struct msg_buffer`
pub record MsgBuffer : Type 0 where
  pub len : ℕ
  pub bytes : List ℕ

-- `struct attributes_write_buffer`
pub record AttributesWriteBuffer : Type 0 where
  pub section_sent : ℕ
  pub bytes : List ℕ

-- attributes.h
abbrev pub lock_transmit : ℕ
lock_transmit = 17

abbrev pub lock_receive : ℕ
lock_receive = 21

-- responses.h
abbrev pub ticket_rcv_success : ℕ
ticket_rcv_success = 4

abbrev pub ticket_rcv_success_low_bat : ℕ
ticket_rcv_success_low_bat = 6

abbrev pub invalid_request : ℕ
invalid_request = 255

-- requests.h
abbrev pub rotate_ccw : ℕ
rotate_ccw = 0

abbrev pub rotate_cw : ℕ
rotate_cw = 1

-- The bit pattern of -1 in the `int8_t` of button.c.
abbrev pub no_request : ℕ
no_request = 255

-- The calls of BGLib that main.c makes, with their arguments; the length of an array goes before it.
pub data Command : Type 0 where
  system_address_get : Command
  gap_set_adv_parameters : ℕ → ℕ → ℕ → Command
  gap_set_adv_data : ℕ → ℕ → List ℕ → Command
  gap_set_mode : ℕ → ℕ → Command
  attributes_write : ℕ → ℕ → ℕ → List ℕ → Command

-- The messages whose handlers main.c defines, with the fields that it reads; `stub` holds all
-- others, whose handlers are in stubs.c.
pub data Message : Type 0 where
  rsp_system_address_get : List ℕ → Message
  rsp_gap_set_adv_parameters : ℕ → Message
  rsp_gap_set_adv_data : ℕ → Message
  rsp_gap_set_mode : ℕ → Message
  rsp_attributes_write : ℕ → Message
  evt_system_boot : Message
  evt_connection_status : ℕ → Message
  evt_connection_disconnected : Message
  evt_hardware_io_port_status : Message
  evt_attributes_value : ℕ → ℕ → List ℕ → Message
  stub : StubMessage → Message

-- BGLib: the two parts of the packet of a command, and the message that a header announces, read
-- from the payload; `none` is the null pointer of `ble_get_msg_hdr`.
pub record BgLib : Type 0 where
  pub data1 : Command → List ℕ
  pub data2 : Command → List ℕ
  pub get_msg_hdr : List ℕ → Option (List ℕ → Message)

pub record Machine : Type 0 where
  pub state : State
  pub msg_buf : MsgBuffer
  pub system_address : List ℕ
  pub att_write_buffer : AttributesWriteBuffer
  pub session_nonce : List ℕ
  pub session_key : List ℕ
  pub master_nonce_eeprom : List ℕ
  pub master_key_eeprom : List ℕ
  pub request : ℕ
  pub uart : Uart
  -- No variable of the program: the commands given to BGLib so far, the latest first.
  pub commands : List Command
