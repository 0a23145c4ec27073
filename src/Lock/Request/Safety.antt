-- ===== src/Lock/Request/Safety.antt =====
-- Requests over all their branches: none is served twice, and the last nonce of all ends in a write
-- past its array.
use esloq.Base.{
  lt→ltb, out_of_bounds, halted, ℕ, ◌+◌, ◌≤◌, ◌<◌, ◌≡◌, ◌≢◌, refl, ◌∙◌, ap, List, [], ◌∷◌, Outcome,
  ok, length, drop, replicate, arith,
}
use native.Mathlib.Decide.{ℕ_discrete, dec_lt}
use esloq.Crypto.{SecretBox, IsSecretBox}
use esloq.Crypto.RoundTrip.{length-decrypted}
use esloq.Motor.{Rotation}
use esloq.Motor.Wait.{IsLongEnough}
use esloq.Nonce.{increment_array}
use esloq.Nonce.Increment.{increment_array-overflow}
use esloq.Nonce.Order.{value}
use esloq.Uart.{Uart, Window}
use esloq.Lock.State.{State, Machine, BgLib}
use esloq.Lock.Monad.{>>=-ok}
use esloq.Lock.Respond.{send_response}
use esloq.Lock.Respond.Keeps.{send_response-Keeps}
use esloq.Lock.Request.{process_request_msg, serve, answer}
use esloq.Lock.Request.Branches.{
  Served, serve_lem, decrypts_request, request_taken, opened_request, request_served,
  process_request_msg-stale, process_request_msg-forged, process_request_msg-accepted,
}
use esloq.Lock.Ticket.Branches.{sealed_byte}
use esloq.Lock.Ticket.Replay.{>>-pure-state, length-sealed_byte}
use esloq.Lock.WellFormed.{
  slice-nonce, slice-box, session_nonce_value, IsWellFormed, nonce_of, box_of, length-nonce_of,
  length-box_of,
}

one_byte : (xs : List ℕ) → length xs ≡ 1 → (x : ℕ) × (xs ≡ x ∷ [])
one_byte [] e = absurd (omega arith)
one_byte (x ∷ []) e = (x, refl)
one_byte (x ∷ y ∷ xs) e = absurd (omega arith)

module _ (box : SecretBox) (doc : IsSecretBox box) (bg : BgLib) (ws : List Window)
    (rotation : Rotation) (m : Machine) (wf : IsWellFormed m) (room : nonce_of m ≢ replicate 24 255)
    (long : IsLongEnough rotation) (hd : m.uart.mcu.portd < 256) (hb : m.uart.mcu.portb < 256) where
  request_byte : (request : ℕ) × (drop 32 (opened_request box m).1 ≡ request ∷ [])
  request_byte =
      let e17 = length-box_of wf 17 (omega arith) in
      one_byte (drop 32 (opened_request box m).1) (
        omega (
          arith,
          e17,
          length-decrypted box doc (box_of 17 m) (nonce_of m) m.session_key (omega (arith, e17))
              (omega (arith, e17)) (length-nonce_of wf) wf.key_room,
        ))

  accepted-session_nonce :
      value m.session_nonce < value (nonce_of m)
      → (opened_request box m).0 ≡ 0
      → value (process_request_msg box bg ws rotation m).0.session_nonce ≡ value (nonce_of m) + 1
  accepted-session_nonce lt opens =
      let (request, byte) = request_byte in
      let (after, code, next, _, up, next24, e) =
        process_request_msg-accepted box doc bg ws rotation m wf request lt opens byte room long hd
          hb in
      let served = request_served box doc bg ws rotation m wf after next in
      let rsp = sealed_byte box code next m.session_key in
      ap (λ (r : Machine × Outcome ℕ). value r.0.session_nonce) e
      ∙ ap (λ (s : Machine). value s.session_nonce)
          (>>-pure-state (send_response bg ws rsp) 0 served)
      ∙ ap value
          (send_response-Keeps bg ws rsp served
            (length-sealed_byte box doc code next m.session_key next24)).session_nonce
      ∙ up

  -- The session nonce never falls under the nonce of a request that has been processed.
  process_request_msg-monotone :
      value (nonce_of m) ≤ value (process_request_msg box bg ws rotation m).0.session_nonce
  process_request_msg-monotone = elim (dec_lt (value m.session_nonce) (value (nonce_of m))) [
    | no ge ↦ omega (
      arith,
      ap (λ (r : Machine × Outcome ℕ). value r.0.session_nonce)
          (process_request_msg-stale box doc bg ws rotation m wf (omega arith)),
    )
    | yes lt ↦ elim (ℕ_discrete (opened_request box m).0 0) [
      | yes opens ↦ omega (arith, accepted-session_nonce lt opens)
      | no forged ↦ omega (
        arith,
        ap (λ (r : Machine × Outcome ℕ). value r.0.session_nonce)
            (process_request_msg-forged box doc bg ws rotation m wf lt forged),
      )
    ]
  ]

  -- No request turns the motor twice: once a request has been processed (its nonce is not 24 bytes
  -- of 255, and the motor's timer runs), with whatever result, a request whose nonce is not greater
  -- is refused by 1, and changes nothing but the state, as long as the session nonce is the one left
  -- behind.
  pub process_request_msg-no_replay :
      (m' : Machine) (ws' : List Window) (rotation' : Rotation)
      → IsWellFormed m'
      → m'.session_nonce ≡ (process_request_msg box bg ws rotation m).0.session_nonce
      → value (nonce_of m') ≤ value (nonce_of m)
      → process_request_msg box bg ws' rotation' m' ≡ (record m' { state = State.request_w }, ok 1)
  process_request_msg-no_replay m' ws' rotation' wf' same le =
      process_request_msg-stale box doc bg ws' rotation' m' wf'
        (omega (arith, ap value same, process_request_msg-monotone, le))

module _ (box : SecretBox) (doc : IsSecretBox box) (bg : BgLib) (ws : List Window)
    (rotation : Rotation) (m : Machine) (wf : IsWellFormed m) where
  exhausted :
      (after : Uart) (code : ℕ)
      → nonce_of m ≡ replicate 24 255
      → answer box bg ws code (record (request_taken box doc bg ws rotation m wf) { uart = after })
        ≡ (
          record (request_taken box doc bg ws rotation m wf) { uart = after },
          halted out_of_bounds,
        )
  unfolding answer
  exhausted after code last =
      rw (ap (λ n. increment_array n 24) last ∙ increment_array-overflow 24 (omega arith))

  -- A request with a greater nonce, namely 24 bytes of 255, that opens under the session key to the
  -- byte `request`, is served once the motor's timer runs, but there is no nonce left to answer it:
  -- the increment writes past the session nonce.
  pub process_request_msg-exhausted :
      (request : ℕ)
      → value m.session_nonce < value (nonce_of m)
      → (opened_request box m).0 ≡ 0
      → drop 32 (opened_request box m).1 ≡ request ∷ []
      → nonce_of m ≡ replicate 24 255
      → IsLongEnough rotation
      → m.uart.mcu.portd < 256
      → m.uart.mcu.portb < 256
      → (after : Uart) × (code : ℕ) × Served rotation m.uart.mcu after.mcu request code
        × (process_request_msg box bg ws rotation m ≡ (
          record m { state = State.request_w; session_nonce = nonce_of m; uart = after },
          halted out_of_bounds,
        ))
  unfolding process_request_msg
  process_request_msg-exhausted request lt opens byte last long hd hb =
      let taken = request_taken box doc bg ws rotation m wf in
      let (after, code, served, how) = serve_lem rotation request taken long hd hb in
      (
        after,
        code,
        how,
        (rw
              (
                slice-nonce wf,
                session_nonce_value wf,
                lt→ltb _ _ lt,
                slice-box wf 17 (omega arith),
                decrypts_request box doc bg ws rotation m wf,
                opens,
                byte,
              )
              (>>=-ok (serve rotation request) (answer box bg ws) served))
            ∙ exhausted after code last,
      )
