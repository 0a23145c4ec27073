-- ===== src/Lock/Quiet/Parts.antt =====
-- Sending, turning the motor and advertising are quiet.
use esloq.Base.{
  ℕ, ◌≡◌, refl, sym, ◌∙◌, ap, List, true, false, in_bounds, slice, get_elem?, Outcome, ok, halted,
}
use esloq.Mcu.{Mcu}
use esloq.Motor.{Rotation}
use esloq.Uart.{Window, arrive}
use esloq.Lock.State.{
  State, Machine, BgLib, Command, attributes_write, lock_transmit, gap_set_adv_parameters,
  gap_set_adv_data,
}
use esloq.Lock.Monad.{lift, modify}
use esloq.Lock.Send.{ble_cmd}
use esloq.Lock.Respond.{write_section, send_response, reset_msg_buffer}
use esloq.Lock.Respond.Keeps.{ble_cmd-Keeps}
use esloq.Lock.Request.{rotating}
use esloq.Lock.Advert.{
  set_adv_parameters, adv_data, sr_data, process_adv_param_set, process_adv_data_set,
}
use esloq.Lock.Handlers.{set_state}
use esloq.Lock.Handlers.Session.{in_session}
use esloq.Lock.Quiet.{
  Quietly, Quietly-refl, Quiet, Quiet-lift, Quiet-modify, Quiet-get, Quiet-bind, Quietly-free,
}

pub ble_cmd-Quiet : (bg : BgLib) (ws : List Window) (c : Command) → Quiet (ble_cmd bg ws c)
ble_cmd-Quiet bg ws c = record {
  at = λ m.
      let k = ble_cmd-Keeps bg ws c m in
      record {
        master_nonce = k.master_nonce;
        session_key = k.session_key;
        session_nonce = k.session_nonce;
        session = λ h. ap in_session (sym k.state) ∙ h;
      };
}

-- A state outside the session may be set.
pub set_state-Quiet : (s : State) → in_session s ≡ false → Quiet (set_state s)
set_state-Quiet s out = Quiet-modify _ (λ m.
    Quietly-free m s m.msg_buf m.request m.system_address m.uart m.commands m.att_write_buffer
      (λ h. let both : false ≡ true = sym out ∙ h in cc))

pub reset_msg_buffer-Quiet : Quiet (modify reset_msg_buffer)
unfolding reset_msg_buffer
reset_msg_buffer-Quiet = Quiet-modify _ (λ m.
    Quietly-free m m.state (record { len = 0; bytes = m.msg_buf.bytes }) m.request m.system_address
      m.uart m.commands m.att_write_buffer (λ h. h))

pub write_section-Quiet :
    (bg : BgLib) (ws : List Window) (off len : ℕ) → Quiet (write_section bg ws off len)
unfolding write_section
write_section-Quiet bg ws off len = Quiet-get _ (λ m.
    Quiet-bind (lift (in_bounds (slice m.att_write_buffer.bytes off len))) _
      (Quiet-lift (in_bounds (slice m.att_write_buffer.bytes off len)))
      (λ section. ble_cmd-Quiet bg ws (attributes_write lock_transmit 0 len section)))

pub send_response-Quiet :
    (bg : BgLib) (ws : List Window) (rsp : List ℕ) → Quiet (send_response bg ws rsp)
unfolding send_response
send_response-Quiet bg ws rsp =
    Quiet-bind
      (modify (λ m. record m {
        att_write_buffer = record { section_sent = m.att_write_buffer.section_sent; bytes = rsp };
      }))
      _
      (Quiet-modify _ (λ m.
        Quietly-free m m.state m.msg_buf m.request m.system_address m.uart m.commands
          (record { section_sent = m.att_write_buffer.section_sent; bytes = rsp }) (λ h. h)))
      (λ _. Quiet-bind (write_section bg ws 0 20) _ (write_section-Quiet bg ws 0 20) (λ _.
        Quiet-modify _ (λ m.
          Quietly-free m m.state m.msg_buf m.request m.system_address m.uart m.commands
            (record { section_sent = 0; bytes = m.att_write_buffer.bytes }) (λ h. h))))

pub rotating-Quiet :
    (rotate : Rotation → Mcu → Outcome (Mcu × ℕ)) (rotation : Rotation)
    → Quiet (rotating rotate rotation)
unfolding rotating
rotating-Quiet rotate rotation = record { at = λ m. by_outcome m (rotate rotation m.uart.mcu) refl }
  where
    by_outcome :
        (m : Machine) (o : Outcome (Mcu × ℕ))
        → rotate rotation m.uart.mcu ≡ o
        → Quietly m (rotating rotate rotation m).0
    by_outcome m (ok r) e =
        rw (e, rotating)
          (Quietly-free m m.state m.msg_buf m.request m.system_address
            (record m.uart { mcu = r.0; rx = arrive rotation.arrivals m.uart.rx }) m.commands
            m.att_write_buffer (λ h. h))
    by_outcome m (halted s) e = rw (e, rotating) Quietly-refl

pub set_adv_parameters-Quiet : (bg : BgLib) (ws : List Window) → Quiet (set_adv_parameters bg ws)
unfolding set_adv_parameters
set_adv_parameters-Quiet bg ws = ble_cmd-Quiet bg ws (gap_set_adv_parameters 320 350 7)

pub process_adv_param_set-Quiet :
    (bg : BgLib) (ws : List Window) → Quiet (process_adv_param_set bg ws)
unfolding process_adv_param_set
process_adv_param_set-Quiet bg ws =
    Quiet-bind (ble_cmd bg ws (gap_set_adv_data 0 21 adv_data)) _ (ble_cmd-Quiet bg ws _)
      (λ _. set_state-Quiet State.adv_data_set_w refl)

pub process_adv_data_set-Quiet :
    (bg : BgLib) (ws : List Window) → Quiet (process_adv_data_set bg ws)
unfolding process_adv_data_set
process_adv_data_set-Quiet bg ws = Quiet-get _ (λ m.
    let address = m.system_address in
    Quiet-bind (lift (in_bounds (get_elem? address 0))) _ (Quiet-lift _) (λ a0.
      Quiet-bind (lift (in_bounds (get_elem? address 1))) _ (Quiet-lift _) (λ a1.
        Quiet-bind (lift (in_bounds (get_elem? address 2))) _ (Quiet-lift _) (λ a2.
          Quiet-bind (lift (in_bounds (get_elem? address 3))) _ (Quiet-lift _) (λ a3.
            Quiet-bind (lift (in_bounds (get_elem? address 4))) _ (Quiet-lift _) (λ a4.
              Quiet-bind (lift (in_bounds (get_elem? address 5))) _ (Quiet-lift _) (λ a5.
                Quiet-bind (ble_cmd bg ws (gap_set_adv_data 1 26 (sr_data a0 a1 a2 a3 a4 a5))) _
                  (ble_cmd-Quiet bg ws _) (λ _. set_state-Quiet State.adv_sr_data_set_w refl))))))))
