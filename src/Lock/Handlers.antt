-- ===== src/Lock/Handlers.antt =====
-- The response and event handlers of firmware/avr/src/main.c.
pub mod Buffer
pub mod Writes
pub mod Session
pub mod Steady
pub mod Quiet
pub mod Acks
pub mod Overrun
use esloq.Base.{
  ℕ, ◌+◌, ◌%◌, List, Bool, Outcome, ok, in_bounds, ◌==◌, ◌&&◌, not, if◌then◌else◌, slice, copy_into,
  bit_and,
}
use esloq.Uart.{Window}
use esloq.Lock.State.{
  State, Machine, MsgBuffer, BgLib, Message, rsp_system_address_get, rsp_gap_set_adv_parameters,
  rsp_gap_set_adv_data, rsp_gap_set_mode, rsp_attributes_write, evt_system_boot,
  evt_connection_status, evt_connection_disconnected, evt_hardware_io_port_status,
  evt_attributes_value, stub, ticket_len, request_len, lock_receive,
}
use esloq.Lock.Stubs.{StubMessage}
use esloq.Lock.Monad.{M, ◌>>=◌, ◌>>◌, pure, lift, get, modify}
use esloq.Lock.Respond.{write_section}

abbrev pub set_state : State → M (Unit {0})
set_state state' = modify (λ m. record m { state = state' })

-- Six bytes of the message's address are copied.
pub ble_rsp_system_address_get : List ℕ → M (Unit {0})
ble_rsp_system_address_get addr = do
  set_state State.system_address_get
  six ← lift (in_bounds (slice addr 0 6))
  modify (λ m. record m { system_address = six })

-- The state after the response to `gap_set_adv_data`, which is given twice.
pub after_adv_data : State → State
after_adv_data State.adv_data_set_w = State.adv_data_set
after_adv_data State.adv_sr_data_set_w = State.adv_sr_data_set
after_adv_data state = state

pub ble_rsp_gap_set_adv_data : M (Unit {0})
unfolding after_adv_data
ble_rsp_gap_set_adv_data = modify (λ m. record m { state = after_adv_data m.state })

abbrev pub next_section : Machine → Machine
next_section m = record m {
  att_write_buffer = record {
    section_sent = (m.att_write_buffer.section_sent + 1) % 256;
    bytes = m.att_write_buffer.bytes;
  };
}

unfoldable pub ble_rsp_attributes_write : BgLib → List Window → ℕ → M (Unit {0})
ble_rsp_attributes_write bg ws result m =
    if result == 0
    then (if m.att_write_buffer.section_sent == 0
        then (write_section bg ws 20 20 >> modify next_section) m
        else if m.att_write_buffer.section_sent == 1
        then (write_section bg ws 40 1 >> modify next_section) m
        else pure tt m)
    else pure tt m

unfoldable pub ble_evt_connection_status : ℕ → M (Unit {0})
ble_evt_connection_status flags =
    if bit_and flags 5 == 0 then pure tt else set_state State.connected

abbrev is_connected : State → Bool
is_connected State.connected = Bool.true
is_connected _ = Bool.false

abbrev is_request_w : State → Bool
is_request_w State.request_w = Bool.true
is_request_w _ = Bool.false

-- The state once `len` bytes of a message are there.
unfoldable pub after_value : State → ℕ → State
after_value state len =
    if is_connected state && len == ticket_len
    then State.ticket
    else if is_request_w state && len == request_len
    then State.request
    else state

-- `packet_len` and `msg_buf.len` are `uint8_t`; the copy is not bounded by the buffer's 72 bytes.
unfoldable pub ble_evt_attributes_value : ℕ → ℕ → List ℕ → M (Unit {0})
unfolding after_value
ble_evt_attributes_value handle packet_len value m =
    if handle == lock_receive
    then (do
      bytes ← lift (in_bounds (slice value 0 packet_len))
      s ← get
      filled ← lift (in_bounds (copy_into s.msg_buf.bytes s.msg_buf.len bytes))
      let len' = (s.msg_buf.len + packet_len) % 256
      modify (λ s'. record s' {
        msg_buf = record { len = len'; bytes = filled };
        state = after_value s'.state len';
      }))
        m
    else (m, ok tt)

-- Every handler of stubs.c has an empty body.
stub_handler : StubMessage → M (Unit {0})
stub_handler message = pure tt

-- `msg->handler(data)`. The handlers of stubs.c and `ble_evt_hardware_io_port_status` do nothing.
unfoldable pub handle : BgLib → List Window → Message → M (Unit {0})
unfolding stub_handler
handle bg ws (rsp_system_address_get addr) = ble_rsp_system_address_get addr
handle bg ws (rsp_gap_set_adv_parameters result) = set_state State.adv_param_set
handle bg ws (rsp_gap_set_adv_data result) = ble_rsp_gap_set_adv_data
handle bg ws (rsp_gap_set_mode result) = set_state State.advertising
handle bg ws (rsp_attributes_write result) = ble_rsp_attributes_write bg ws result
handle bg ws evt_system_boot = set_state State.ble_boot
handle bg ws (evt_connection_status flags) = ble_evt_connection_status flags
handle bg ws evt_connection_disconnected = set_state State.disconnected
handle bg ws evt_hardware_io_port_status = pure tt
handle bg ws (evt_attributes_value attribute len value) =
    ble_evt_attributes_value attribute len value
handle bg ws (stub message) = stub_handler message
