-- ===== src/Lock/Fsm/Steady.antt =====
-- The state machine keeps what `Steady` says.
use esloq.Base.{ℕ, ◌==◌}
use esloq.Crypto.{SecretBox, IsSecretBox}
use esloq.Lock.State.{State, BgLib, system_address_get, gap_set_mode}
use esloq.Lock.Monad.{modify}
use esloq.Lock.Board.{power_down, battery_monitor_alert}
use esloq.Lock.Send.{ble_cmd}
use esloq.Lock.Respond.{reset_msg_buffer}
use esloq.Lock.Respond.Steady.{ble_cmd-Steady, reset_msg_buffer-Advances, reset_msg_buffer-Steady}
use esloq.Lock.Ticket.{process_ticket_msg}
use esloq.Lock.Ticket.Steady.{process_ticket_msg-Steady}
use esloq.Lock.Request.{process_request_msg}
use esloq.Lock.Request.Steady.{process_request_msg-Steady}
use esloq.Lock.Advert.{set_adv_parameters}
use esloq.Lock.Advert.Steady.{
  set_adv_parameters-Steady, process_adv_param_set-Steady, process_adv_data_set-Steady,
}
use esloq.Lock.Handlers.Steady.{set_state-Steady}
use esloq.Lock.Fsm.{
  FsmInputs, gap_user_data, gap_undirected_connectable, after_ticket, after_request, dispatch,
  fsm_process,
}
use esloq.Lock.Steady.{Steady, Steady-bind, Steady-pure, Steady-if, Steady-modify, free_change}

pub after_ticket-Steady : (code : ℕ) → Steady (after_ticket code)
unfolding after_ticket reset_msg_buffer
after_ticket-Steady code =
    Steady-if (code == 0) _ _ (Steady-pure tt)
      (Steady-modify _ (λ m wf. reset_msg_buffer-Advances m State.connected wf))

after_request-Steady : (code : ℕ) → Steady (after_request code)
unfolding after_request
after_request-Steady code = Steady-if (code == 0) _ _ (Steady-pure tt) reset_msg_buffer-Steady

module _ (box : SecretBox) (doc : IsSecretBox box) (bg : BgLib) (inputs : FsmInputs) where
  dispatch-Steady : (state : State) → Steady (dispatch box bg inputs state)
  unfolding dispatch
  dispatch-Steady State.ble_boot =
      Steady-bind (ble_cmd bg inputs.windows system_address_get) _
        (ble_cmd-Steady bg inputs.windows _) (λ _. set_state-Steady State.system_address_get_w)
  dispatch-Steady State.system_address_get =
      Steady-bind (set_adv_parameters bg inputs.windows) _
        (set_adv_parameters-Steady bg inputs.windows) (λ _. set_state-Steady State.adv_param_set_w)
  dispatch-Steady State.adv_param_set = process_adv_param_set-Steady bg inputs.windows
  dispatch-Steady State.adv_data_set = process_adv_data_set-Steady bg inputs.windows
  dispatch-Steady State.adv_sr_data_set =
      Steady-bind
        (ble_cmd bg inputs.windows (gap_set_mode gap_user_data gap_undirected_connectable)) _
        (ble_cmd-Steady bg inputs.windows _) (λ _. set_state-Steady State.advertising_w)
  dispatch-Steady State.advertising = Steady-modify _ (λ m wf.
      free_change m m.state m.request m.system_address
        (record m.uart { mcu = power_down inputs.pind m.uart.mcu }) m.commands
        m.att_write_buffer.section_sent wf)
  dispatch-Steady State.ticket =
      let low_battery = battery_monitor_alert inputs.acsr in
      Steady-bind (process_ticket_msg box bg inputs.windows low_battery) _
        (process_ticket_msg-Steady box doc bg inputs.windows low_battery) after_ticket-Steady
  dispatch-Steady State.request =
      Steady-bind (process_request_msg box bg inputs.windows inputs.rotation) _
        (process_request_msg-Steady box bg inputs.windows inputs.rotation) after_request-Steady
  dispatch-Steady State.disconnected =
      Steady-bind (modify reset_msg_buffer) _ reset_msg_buffer-Steady (λ _.
        Steady-bind (set_adv_parameters bg inputs.windows) _
          (set_adv_parameters-Steady bg inputs.windows)
          (λ _. set_state-Steady State.adv_param_set_w))
  dispatch-Steady _ = Steady-pure tt

  pub fsm_process-Steady : Steady (fsm_process box bg inputs)
  unfolding fsm_process
  fsm_process-Steady = record { at = λ m wf. (dispatch-Steady m.state).at m wf }
