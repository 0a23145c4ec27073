-- ===== src/Lock/Request/Steady.antt =====
-- `process_request_msg` keeps what `Steady` says, on every branch, whatever it is given.
use esloq.Base.{
  ℕ, ◌≡◌, refl, sym, ◌∙◌, subst, List, [], ◌∷◌, Outcome, ok, halted, in_bounds, returned,
  in_bounds-eq-ok, slice, copy_into, get_elem?, slice-some, length-copy_into, length, length-take,
  arith, ◌==◌,
}
use esloq.Crypto.{SecretBox, crypto_auth_encrypt, crypto_auth_decrypt}
use esloq.Mcu.{Mcu}
use esloq.Motor.{Rotation, rotate_motor_cw, rotate_motor_ccw}
use esloq.Nonce.{is_valid_session_nonce, increment_array, nonce_len}
use esloq.Nonce.Order.{AllBytes}
use esloq.Nonce.Increment.{increment_array-AllBytes}
use esloq.Uart.{Window, arrive}
use esloq.Lock.State.{State, Machine, BgLib, invalid_request, rotate_cw, rotate_ccw}
use esloq.Lock.Monad.{modify}
use esloq.Lock.Request.{rotating, serve, answer, process_request_msg}
use esloq.Lock.Respond.{reset_msg_buffer, response, send_response, rsp_init}
use esloq.Lock.Respond.Steady.{send_response-Steady, reset_msg_buffer-Steady}
use esloq.Lock.Handlers.Steady.{set_state-Steady}
use esloq.Lock.Steady.{
  Advances, Advances-refl, Steady, Steady-bind, Steady-lifted, Steady-in_bounds, Steady-get,
  Steady-modify, Steady-pure, Steady-if, free_change, buffers_change,
}
use esloq.Lock.WellFormed.{IsWellFormed, AllBytes-take}

-- A motor call changes only the registers, and what arrives meanwhile only the ring.
pub rotating-Steady :
    (rotate : Rotation → Mcu → Outcome (Mcu × ℕ)) (rotation : Rotation)
    → Steady (rotating rotate rotation)
unfolding rotating
rotating-Steady rotate rotation = record {
  at = λ m wf. by_outcome m wf (rotate rotation m.uart.mcu) refl;
}
  where
    by_outcome :
        (m : Machine)
        → IsWellFormed m
        → (o : Outcome (Mcu × ℕ)) → rotate rotation m.uart.mcu ≡ o
        → Advances m (rotating rotate rotation m).0
    by_outcome m wf (ok r) e =
        rw (e, rotating)
          (free_change m m.state m.request m.system_address
            (record m.uart { mcu = r.0; rx = arrive rotation.arrivals m.uart.rx }) m.commands
            m.att_write_buffer.section_sent wf)
    by_outcome m wf (halted s) e = rw (e, rotating) (Advances-refl wf)

serve-Steady : (rotation : Rotation) (request : ℕ) → Steady (serve rotation request)
unfolding serve
serve-Steady rotation request =
    Steady-if (request == rotate_cw) _ _ (rotating-Steady rotate_motor_cw rotation) (
      Steady-if (request == rotate_ccw) _ _ (rotating-Steady rotate_motor_ccw rotation)
        (Steady-pure invalid_request))

length-response : (nonce c : List ℕ) {rsp : List ℕ} → response nonce c ≡ ok rsp → length rsp ≡ 41
unfolding response
length-response nonce c e =
    let (first, copied, rest) =
      returned (in_bounds (copy_into rsp_init 0 nonce))
        (λ rsp. in_bounds (copy_into rsp nonce_len c)) (sym e) in
    length-copy_into first nonce_len c (in_bounds-eq-ok (copy_into first nonce_len c) rest)
    ∙ length-copy_into rsp_init 0 nonce (in_bounds-eq-ok (copy_into rsp_init 0 nonce) (sym copied))
    ∙ refl

next_nonce-Steady :
    (nonce : List ℕ)
    → length nonce ≡ 24
    → AllBytes nonce
    → Steady (modify (λ m. record m { session_nonce = nonce }))
next_nonce-Steady nonce room small = Steady-modify _ (λ m wf.
    buffers_change m m.state m.msg_buf.len m.msg_buf.bytes nonce m.session_key
      m.att_write_buffer.bytes wf wf.msg_fits wf.msg_room wf.msg_bytes room small wf.key_room
      wf.att_room)

module _ (box : SecretBox) (bg : BgLib) (ws : List Window) where
  answer-Steady : (code : ℕ) → Steady (answer box bg ws code)
  unfolding answer
  answer-Steady code = Steady-get _ (λ m wf.
      Steady-lifted (increment_array m.session_nonce nonce_len) _ (λ nonce stepped.
        let (room, small) =
          increment_array-AllBytes m.session_nonce 24 wf.nonce_bytes wf.nonce_room (omega arith)
            stepped in
        Steady-bind (modify (λ s. record s { session_nonce = nonce })) _
          (next_nonce-Steady nonce room small)
          (λ _.
            Steady-lifted (crypto_auth_encrypt box (code ∷ []) 1 nonce m.session_key) _ (λ boxed e.
              Steady-if (boxed.0 == 0) _ _
                (Steady-lifted (response nonce boxed.1) _ (λ rsp answered.
                  Steady-bind (modify reset_msg_buffer) _ reset_msg_buffer-Steady (λ _.
                    Steady-bind (send_response bg ws rsp) _
                      (send_response-Steady bg ws rsp (length-response nonce boxed.1 answered))
                      (λ _. Steady-pure {A = ℕ} 0))))
                (Steady-pure {A = ℕ} 3)))))

  pub process_request_msg-Steady :
      (rotation : Rotation) → Steady (process_request_msg box bg ws rotation)
  unfolding process_request_msg
  process_request_msg-Steady rotation =
      Steady-bind (modify (λ s. record s { state = State.request_w })) _
        (set_state-Steady State.request_w)
        (λ _. Steady-get _ (λ m wf.
          Steady-in_bounds (slice m.msg_buf.bytes 0 nonce_len) _ (λ nonce read.
            let (fits, eq) = slice-some m.msg_buf.bytes 0 nonce_len read in
            Steady-lifted (is_valid_session_nonce nonce m.session_nonce) _ (λ valid e.
              Steady-if (valid == 0) _ _ (Steady-pure {A = ℕ} 1) (
                Steady-bind (modify (λ s'. record s' { session_nonce = nonce })) _
                  (next_nonce-Steady nonce
                    (rw eq (omega (arith, length-take 24 m.msg_buf.bytes, wf.msg_room)))
                    (subst AllBytes (sym eq) (AllBytes-take 24 m.msg_buf.bytes wf.msg_bytes)))
                  (λ _. Steady-in_bounds (slice m.msg_buf.bytes nonce_len 17) _ (λ c e.
                    Steady-lifted (crypto_auth_decrypt box c 17 nonce m.session_key) _ (λ opened e.
                      Steady-if (opened.0 == 0) _ _
                        (Steady-in_bounds (get_elem? opened.1 0) _ (λ request e.
                          Steady-bind (serve rotation request) _ (serve-Steady rotation request)
                            answer-Steady))
                        (Steady-pure {A = ℕ} 2)))))))))
