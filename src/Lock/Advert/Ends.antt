-- ===== src/Lock/Advert/Ends.antt =====
-- The states in which the advertising data leave the machine.
use esloq.Base.{◌≡◌, sym, ap, List, Outcome, ok, in_bounds, get_elem?}
use esloq.Uart.{Window}
use esloq.Lock.State.{State, Machine, BgLib, gap_set_adv_data}
use esloq.Lock.Monad.{M, ◌>>=◌, lift, get, modify, >>=-eq-ok}
use esloq.Lock.Send.{ble_cmd}
use esloq.Lock.Advert.{adv_data, sr_data, process_adv_param_set, process_adv_data_set}

-- If the chain returns, the machine is in state `s`.
abbrev pub EndsIn : State → M (Unit {0}) → Type 0
EndsIn s x = (m m' : Machine) → x m ≡ (m', ok tt) → m'.state ≡ s

after :
    {A : Type 0} (s : State) (x : M A) (f : A → M (Unit {0}))
    → ((a : A) → EndsIn s (f a))
    → EndsIn s (x >>= f)
after s x f ends m m' h = let (a, _, rest) = >>=-eq-ok x f m m' tt h in ends a (x m).0 m' rest

assigns_state : (s : State) → EndsIn s (modify (λ m. record m { state = s }))
assigns_state s m m' h = ap (λ (r : Machine × Outcome (Unit {0})). r.0.state) (sym h)

pub process_adv_param_set-state :
    (bg : BgLib) (ws : List Window) → EndsIn State.adv_data_set_w (process_adv_param_set bg ws)
unfolding process_adv_param_set
process_adv_param_set-state bg ws =
    after State.adv_data_set_w (ble_cmd bg ws (gap_set_adv_data 0 21 adv_data)) _
      (λ _. assigns_state State.adv_data_set_w)

pub process_adv_data_set-state :
    (bg : BgLib) (ws : List Window) → EndsIn State.adv_sr_data_set_w (process_adv_data_set bg ws)
unfolding process_adv_data_set
process_adv_data_set-state bg ws = after State.adv_sr_data_set_w get _ (λ m.
    after State.adv_sr_data_set_w (lift (in_bounds (get_elem? m.system_address 0))) _ (λ a0.
      after State.adv_sr_data_set_w (lift (in_bounds (get_elem? m.system_address 1))) _ (λ a1.
        after State.adv_sr_data_set_w (lift (in_bounds (get_elem? m.system_address 2))) _ (λ a2.
          after State.adv_sr_data_set_w (lift (in_bounds (get_elem? m.system_address 3))) _ (λ a3.
            after State.adv_sr_data_set_w (lift (in_bounds (get_elem? m.system_address 4))) _ (λ a4.
              after State.adv_sr_data_set_w (lift (in_bounds (get_elem? m.system_address 5))) _
                (λ a5.
                  after State.adv_sr_data_set_w
                    (ble_cmd bg ws (gap_set_adv_data 1 26 (sr_data a0 a1 a2 a3 a4 a5))) _
                    (λ _. assigns_state State.adv_sr_data_set_w))))))))
