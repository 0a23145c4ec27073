-- ===== src/Lock/Fsm.antt =====
-- `fsm_process` of firmware/avr/src/main.c.
pub mod Graph
pub mod Steady
use esloq.Base.{ℕ, List, Bool, true, false, Outcome, ◌==◌, if◌then◌else◌}
use esloq.Crypto.{SecretBox}
use esloq.Motor.{Rotation}
use esloq.Uart.{Window}
use esloq.Lock.State.{State, Machine, BgLib, system_address_get, gap_set_mode}
use esloq.Lock.Monad.{M, ◌>>=◌, ◌>>◌, pure, modify}
use esloq.Lock.Board.{power_down, battery_monitor_alert}
use esloq.Lock.Send.{ble_cmd}
use esloq.Lock.Respond.{reset_msg_buffer}
use esloq.Lock.Ticket.{process_ticket_msg}
use esloq.Lock.Request.{process_request_msg}
use esloq.Lock.Advert.{set_adv_parameters, process_adv_param_set, process_adv_data_set}
use esloq.Lock.Handlers.{set_state}

-- What one call meets: the windows of the packet that it may send, ACSR and PIND as they are read,
-- and what happens while a motor turns.
pub record FsmInputs : Type 0 where
  pub windows : List Window
  pub acsr : ℕ
  pub pind : ℕ
  pub rotation : Rotation

-- gap_user_data and gap_undirected_connectable, of cmd_def.h
abbrev pub gap_user_data : ℕ
gap_user_data = 4

abbrev pub gap_undirected_connectable : ℕ
gap_undirected_connectable = 2

-- `if (process_ticket_msg()) { reset_msg_buffer(); state = CONNECTED; }`
unfoldable pub after_ticket : ℕ → M (Unit {0})
after_ticket code =
    if code == 0
    then pure tt
    else modify (λ m. record (reset_msg_buffer m) { state = State.connected })

unfoldable pub after_request : ℕ → M (Unit {0})
after_request code = if code == 0 then pure tt else modify reset_msg_buffer

-- The cases of the `switch`; the last clause is `default`.
unfoldable pub dispatch : SecretBox → BgLib → FsmInputs → State → M (Unit {0})
unfolding after_ticket after_request
dispatch box bg inputs State.ble_boot = do
  ble_cmd bg inputs.windows system_address_get
  set_state State.system_address_get_w
dispatch box bg inputs State.system_address_get = do
  set_adv_parameters bg inputs.windows
  set_state State.adv_param_set_w
dispatch box bg inputs State.adv_param_set = process_adv_param_set bg inputs.windows
dispatch box bg inputs State.adv_data_set = process_adv_data_set bg inputs.windows
dispatch box bg inputs State.adv_sr_data_set = do
  ble_cmd bg inputs.windows (gap_set_mode gap_user_data gap_undirected_connectable)
  set_state State.advertising_w
dispatch box bg inputs State.advertising =
    modify (λ m. record m { uart = record m.uart { mcu = power_down inputs.pind m.uart.mcu } })
dispatch box bg inputs State.ticket = do
  code ← process_ticket_msg box bg inputs.windows (battery_monitor_alert inputs.acsr)
  after_ticket code
dispatch box bg inputs State.request = do
  code ← process_request_msg box bg inputs.windows inputs.rotation
  after_request code
dispatch box bg inputs State.disconnected = do
  modify reset_msg_buffer
  set_adv_parameters bg inputs.windows
  set_state State.adv_param_set_w
dispatch box bg inputs _ = pure tt

unfoldable pub fsm_process : SecretBox → BgLib → FsmInputs → M (Unit {0})
unfolding dispatch
fsm_process box bg inputs m = dispatch box bg inputs m.state m
