-- ===== src/Lock/Request/Branches.antt =====
-- What `process_request_msg` does on each of its branches.
use esloq.Base.{
  true, false, ℕ, ◌+◌, ◌≤◌, ◌<◌, ◌≡◌, ◌≢◌, refl, sym, ◌∙◌, ap, List, [], ◌∷◌, ◌++◌, Outcome, ok,
  halted, length, drop, replicate, arith, lt→ltb, le→ltb, ne→==, slice_lem,
}
use native.Mathlib.Decide.{ℕ_discrete}
use esloq.Crypto.{SecretBox, IsSecretBox, crypto_auth_decrypt}
use esloq.Crypto.RoundTrip.{crypto_auth_decrypt_lem}
use esloq.Mcu.{Mcu}
use esloq.Motor.{Rotation, rotate_motor_cw, rotate_motor_ccw, locked, unlocked}
use esloq.Motor.Wait.{IsLongEnough, AtRest, rotate_motor-AtRest}
use esloq.Nonce.{increment_array}
use esloq.Nonce.Order.{value}
use esloq.Nonce.Increment.{increment_array-value}
use esloq.Uart.{Window, Uart, arrive}
use esloq.Lock.State.{State, Machine, BgLib, invalid_request}
use esloq.Lock.Monad.{◌>>◌, pure, >>=-ok}
use esloq.Lock.Respond.{reset_msg_buffer, send_response}
use esloq.Lock.Request.{process_request_msg, serve, answer, rotating}
use esloq.Lock.Ticket.Branches.{sealed_byte, seals, answers}
use esloq.Lock.WellFormed.{
  IsWellFormed, nonce_of, box_of, length-nonce_of, AllBytes-nonce_of, length-box_of, slice-nonce,
  slice-box, session_nonce_value,
}

-- What opening the box of the request under the session key gives.
abbrev pub opened_request : SecretBox → Machine → ℕ × List ℕ
opened_request box m = box.secretbox_open (replicate 16 0 ++ box_of 17 m) (nonce_of m) m.session_key

-- What a served request byte has done to the microcontroller, and the code it is answered by: 1 has
-- turned the motor clockwise, 0 counter-clockwise, anything else has moved nothing.
pub data Served (rotation : Rotation) (before after : Mcu) (request code : ℕ) : Type 0 where
  locks :
      request ≡ 1
      → code ≡ locked
      → rotate_motor_cw rotation before ≡ ok (after, locked)
      → AtRest rotation true before after
      → Served rotation before after request code
  unlocks :
      request ≡ 0
      → code ≡ unlocked
      → rotate_motor_ccw rotation before ≡ ok (after, unlocked)
      → AtRest rotation false before after
      → Served rotation before after request code
  refuses :
      request ≢ 1
      → request ≢ 0
      → code ≡ invalid_request
      → after ≡ before
      → Served rotation before after request code

rotating_lem :
    (rotate : Rotation → Mcu → Outcome (Mcu × ℕ)) (rotation : Rotation) (s : Machine) (after : Mcu)
    (code : ℕ)
    → rotate rotation s.uart.mcu ≡ ok (after, code)
    → rotating rotate rotation s ≡ (
      record s { uart = record s.uart { mcu = after; rx = arrive rotation.arrivals s.uart.rx } },
      ok code,
    )
unfolding rotating
rotating_lem rotate rotation s after code e =
    ap
      (λ (o : Outcome (Mcu × ℕ)). elim o as (λ _. Machine × Outcome ℕ) [
        | ok r ↦ (
          record s { uart = record s.uart { mcu = r.0; rx = arrive rotation.arrivals s.uart.rx } },
          ok r.1,
        )
        | halted stop ↦ (s, halted stop)
      ])
      e

pub serve_lem :
    (rotation : Rotation) (request : ℕ) (s : Machine)
    → IsLongEnough rotation
    → s.uart.mcu.portd < 256
    → s.uart.mcu.portb < 256
    → (after : Uart) × (code : ℕ) × (serve rotation request s
        ≡ (record s { uart = after }, ok code))
      × Served rotation s.uart.mcu after.mcu request code
unfolding serve
serve_lem rotation request s long hd hb =
    let rest = rotate_motor-AtRest rotation s.uart.mcu long hd hb in
    let meanwhile = arrive rotation.arrivals s.uart.rx in
    elim (ℕ_discrete request 1) [
      | yes e1 ↦ (
        record s.uart { mcu = rest.0.0; rx = meanwhile },
        1,
        rw e1 (rotating_lem rotate_motor_cw rotation s rest.0.0 1 rest.0.1),
        Served.locks e1 refl rest.0.1 rest.0.2,
      )
      | no n1 ↦ elim (ℕ_discrete request 0) [
        | yes e0 ↦ (
          record s.uart { mcu = rest.1.0; rx = meanwhile },
          0,
          rw e0 (rotating_lem rotate_motor_ccw rotation s rest.1.0 0 rest.1.1),
          Served.unlocks e0 refl rest.1.1 rest.1.2,
        )
        | no n0 ↦ (
          s.uart,
          invalid_request,
          rw (ne→== _ _ n1, ne→== _ _ n0),
          Served.refuses n1 n0 refl refl,
        )
      ]
    ]

module _ (box : SecretBox) (doc : IsSecretBox box) (bg : BgLib) (ws : List Window)
    (rotation : Rotation) (m : Machine) (wf : IsWellFormed m) where
  -- A request whose nonce is not greater than the last one is refused with 1; nothing turns.
  pub process_request_msg-stale :
      value (nonce_of m) ≤ value m.session_nonce
      → process_request_msg box bg ws rotation m ≡ (record m { state = State.request_w }, ok 1)
  unfolding process_request_msg
  process_request_msg-stale le = rw (slice-nonce wf, session_nonce_value wf, le→ltb _ _ le)

  pub decrypts_request :
      crypto_auth_decrypt box (box_of 17 m) 17 (nonce_of m) m.session_key
      ≡ ok ((opened_request box m).0, drop 32 (opened_request box m).1)
  decrypts_request =
      let e17 = length-box_of wf 17 (omega arith) in
      ap (λ n. crypto_auth_decrypt box (box_of 17 m) n (nonce_of m) m.session_key) (sym e17)
      ∙ crypto_auth_decrypt_lem box doc (box_of 17 m) (nonce_of m) m.session_key
          (omega (arith, e17)) (omega (arith, e17)) (length-nonce_of wf) wf.key_room

  -- A request with a greater nonce that does not open under the session key is refused with 2:
  -- nothing turns, but its nonce is the session nonce from then on.
  pub process_request_msg-forged :
      value m.session_nonce < value (nonce_of m)
      → (opened_request box m).0 ≢ 0
      → process_request_msg box bg ws rotation m
        ≡ (record m { state = State.request_w; session_nonce = nonce_of m }, ok 2)
  unfolding process_request_msg
  process_request_msg-forged lt forged = rw (
    slice-nonce wf,
    session_nonce_value wf,
    lt→ltb _ _ lt,
    slice-box wf 17 (omega arith),
    decrypts_request,
    ne→== _ _ forged,
  )

  -- The machine that has taken the nonce of a request, when it serves it.
  abbrev pub request_taken : Machine
  request_taken = record m { state = State.request_w; session_nonce = nonce_of m }

  -- The machine that has served a request, when it begins to answer.
  abbrev pub request_served : Uart → List ℕ → Machine
  request_served after next = record m {
    state = State.request_w;
    session_nonce = next;
    uart = after;
    msg_buf = record { len = 0; bytes = m.msg_buf.bytes };
  }

  answer_lem :
      (after : Uart) (code : ℕ) (next : List ℕ)
      → increment_array (nonce_of m) 24 ≡ ok next
      → length next ≡ 24
      → answer box bg ws code (record request_taken { uart = after })
        ≡ (send_response bg ws (sealed_byte box code next m.session_key) >> pure 0)
            (request_served after next)
  unfolding answer reset_msg_buffer
  answer_lem after code next e next24 = rw (
    e,
    seals box doc next m.session_key code next24 wf.key_room (code ∷ [])
        (slice_lem (code ∷ []) 0 1 (omega arith)),
    answers box doc next m.session_key code next24 wf.key_room,
  )

  -- A request with a greater nonce that opens under the session key to the byte `request`, and whose
  -- nonce is not 24 bytes of 255, is served once the motor's timer runs: 1 turns the motor clockwise,
  -- 0 counter-clockwise, any other byte moves nothing; the code is answered, sealed under the session
  -- key and the nonce's successor, which becomes the session nonce; the message buffer is emptied.
  pub process_request_msg-accepted :
      (request : ℕ)
      → value m.session_nonce < value (nonce_of m)
      → (opened_request box m).0 ≡ 0
      → drop 32 (opened_request box m).1 ≡ request ∷ []
      → nonce_of m ≢ replicate 24 255
      → IsLongEnough rotation
      → m.uart.mcu.portd < 256
      → m.uart.mcu.portb < 256
      → (after : Uart) × (code : ℕ) × (next : List ℕ) × Served rotation m.uart.mcu after.mcu request
          code
        × (value next ≡ value (nonce_of m) + 1)
        × (length next ≡ 24)
        × (process_request_msg box bg ws rotation m
            ≡ (send_response bg ws (sealed_byte box code next m.session_key) >> pure 0)
                (request_served after next))
  unfolding process_request_msg
  process_request_msg-accepted request lt opens byte room long hd hb =
      let (after, code, served, how) = serve_lem rotation request request_taken long hd hb in
      let (next, stepped, up, next24) = next_nonce room in
      (
        after,
        code,
        next,
        how,
        up,
        next24,
        (rw
              (
                slice-nonce wf,
                session_nonce_value wf,
                lt→ltb _ _ lt,
                slice-box wf 17 (omega arith),
                decrypts_request,
                opens,
                byte,
              )
              (>>=-ok (serve rotation request) (answer box bg ws) served))
            ∙ answer_lem after code next stepped next24,
      )
    where
      next_nonce :
          nonce_of m ≢ replicate 24 255
          → (next : List ℕ) × (increment_array (nonce_of m) 24 ≡ ok next)
            × (value next ≡ value (nonce_of m) + 1)
            × (length next ≡ 24)
      next_nonce room =
          let e24 = length-nonce_of wf in
          let (next, e, up, same, _) =
            increment_array-value (nonce_of m) (AllBytes-nonce_of wf) (omega (arith, e24))
              (λ full. room (full ∙ ap (λ n. replicate n 255) e24)) in
          (next, ap (increment_array (nonce_of m)) (sym e24) ∙ e, up, same ∙ e24)
