-- ===== src/Lock/Advert/Steady.antt =====
-- The advertising commands keep what `Steady` says.
use esloq.Base.{List, get_elem?}
use esloq.Uart.{Window}
use esloq.Lock.State.{State, BgLib, gap_set_adv_parameters, gap_set_adv_data}
use esloq.Lock.Send.{ble_cmd}
use esloq.Lock.Advert.{
  set_adv_parameters, adv_data, sr_data, process_adv_param_set, process_adv_data_set,
}
use esloq.Lock.Respond.Steady.{ble_cmd-Steady}
use esloq.Lock.Handlers.Steady.{set_state-Steady}
use esloq.Lock.Steady.{Steady, Steady-bind, Steady-in_bounds, Steady-get}

pub set_adv_parameters-Steady : (bg : BgLib) (ws : List Window) → Steady (set_adv_parameters bg ws)
unfolding set_adv_parameters
set_adv_parameters-Steady bg ws = ble_cmd-Steady bg ws (gap_set_adv_parameters 320 350 7)

pub process_adv_param_set-Steady :
    (bg : BgLib) (ws : List Window) → Steady (process_adv_param_set bg ws)
unfolding process_adv_param_set
process_adv_param_set-Steady bg ws =
    Steady-bind (ble_cmd bg ws (gap_set_adv_data 0 21 adv_data)) _ (ble_cmd-Steady bg ws _)
      (λ _. set_state-Steady State.adv_data_set_w)

pub process_adv_data_set-Steady :
    (bg : BgLib) (ws : List Window) → Steady (process_adv_data_set bg ws)
unfolding process_adv_data_set
process_adv_data_set-Steady bg ws = Steady-get _ (λ m wf.
    let address = m.system_address in
    Steady-in_bounds (get_elem? address 0) _ (λ a0 e0.
      Steady-in_bounds (get_elem? address 1) _ (λ a1 e1.
        Steady-in_bounds (get_elem? address 2) _ (λ a2 e2.
          Steady-in_bounds (get_elem? address 3) _ (λ a3 e3.
            Steady-in_bounds (get_elem? address 4) _ (λ a4 e4.
              Steady-in_bounds (get_elem? address 5) _ (λ a5 e5.
                Steady-bind (ble_cmd bg ws (gap_set_adv_data 1 26 (sr_data a0 a1 a2 a3 a4 a5))) _
                  (ble_cmd-Steady bg ws _) (λ _. set_state-Steady State.adv_sr_data_set_w))))))))
