-- ===== src/Lock/Protocol/Messages.antt =====
-- A ticket and a request, on every branch and however the call ends, are steps of the protocol.
use esloq.Base.{
  Stop, ℕ, ◌<◌, ◌≡◌, refl, sym, ◌∙◌, ap, subst, List, [], ◌∷◌, Bool, true, false, Outcome, ok,
  halted, some, none, drop, arith, Bool-cases, inl, inr, order_cases, lt→ltb, get_elem?,
  get_elem?-in, ◌==◌,
}
use native.Mathlib.Decide.{ℕ_discrete}
use esloq.Crypto.{SecretBox, IsSecretBox, crypto_auth_encrypt}
use esloq.Crypto.RoundTrip.{length-decrypted}
use esloq.Motor.{Rotation, rotate_motor_cw, rotate_motor_ccw}
use esloq.Nonce.{increment_array, nonce_len}
use esloq.Nonce.Order.{value}
use esloq.Nonce.Increment.{increment_array-returns}
use esloq.Uart.{Window}
use esloq.Lock.State.{Machine, BgLib, rotate_cw, rotate_ccw, invalid_request}
use esloq.Lock.Monad.{M, ◌>>=◌, pure, lift, modify}
use esloq.Lock.Respond.{send_response, reset_msg_buffer, response}
use esloq.Lock.Ticket.{process_ticket_msg}
use esloq.Lock.Ticket.Branches.{
  opened_ticket, process_ticket_msg-stale, process_ticket_msg-forged, process_ticket_msg-accepted,
  ticket_taken, sealed_byte, ticket_code, first_nonce, session_key_of,
}
use esloq.Lock.Request.{process_request_msg, serve, answer}
use esloq.Lock.Request.Branches.{
  opened_request, process_request_msg-stale, process_request_msg-forged, request_taken,
  decrypts_request,
}
use esloq.Lock.Handlers.Session.{in_session}
use esloq.Lock.Quiet.{Quietly, Quiet, Quiet-pure, Quiet-lift, Quiet-if, Quiet-bind}
use esloq.Lock.Quiet.Parts.{send_response-Quiet, rotating-Quiet, reset_msg_buffer-Quiet}
use esloq.Lock.Protocol.{Protocol, Step, Steps, none_yet, next, Steps-trans, session_of, view}
use esloq.Lock.WellFormed.{
  IsWellFormed, nonce_of, box_of, length-nonce_of, AllBytes-nonce_of, length-box_of, slice-nonce,
  slice-box, session_nonce_value,
}

pub view-inside :
    (m : Machine)
    → in_session m.state ≡ true
    → view m ≡ record { last_ticket = value m.master_nonce_eeprom; session = some (session_of m) }
view-inside m inside = rw inside refl

pub view-outside :
    (m : Machine)
    → in_session m.state ≡ false
    → view m ≡ record { last_ticket = value m.master_nonce_eeprom; session = none }
view-outside m outside = rw outside refl

module _ {box : SecretBox} {master : List ℕ} where
  -- A quiet action ends the session at most.
  pub Quietly-Steps : {m m' : Machine} → Quietly m m' → Steps box master (view m) (view m')
  Quietly-Steps {m} {m'} q = elim (Bool-cases (in_session m'.state)) [
    | inl inside ↦
        let same : view m' ≡ view m =
          view-inside m' inside
          ∙ (λ i. record {
            last_ticket = value (q.master_nonce i);
            session = some (record { key = q.session_key i; last = value (q.session_nonce i) });
          })
          ∙ sym (view-inside m (q.session inside)) in
        subst (Steps box master (view m)) (sym same) none_yet
    | inr outside ↦
        let over : view m' ≡ record (view m) { session = none } =
          view-outside m' outside
          ∙ (λ i. record { last_ticket = value (q.master_nonce i); session = none }) in
        subst (Steps box master (view m)) (sym over) (next none_yet Step.ends)
  ]

  -- What follows an action is quiet.
  pub Steps-bind :
      {A B : Type 0} (x : M A) (f : A → M B) (m : Machine) {p : Protocol}
      → Steps box master p (view (x m).0)
      → ((a : A) → Quiet (f a))
      → Steps box master p (view ((x >>= f) m).0)
  Steps-bind {A} {B} x f m {p} first rest = by_outcome (x m).1 refl
    where
      by_outcome : (o : Outcome A) → (x m).1 ≡ o → Steps box master p (view ((x >>= f) m).0)
      by_outcome (ok a) e = rw (e, ◌>>=◌) (Steps-trans first (Quietly-Steps ((rest a).at (x m).0)))
      by_outcome (halted s) e = rw (e, ◌>>=◌) first

module _ (box : SecretBox) (doc : IsSecretBox box) (bg : BgLib) (ws : List Window) (m : Machine)
    (wf : IsWellFormed m) where
  pub process_ticket_msg-Steps :
      (low_battery : Bool)
      → in_session m.state ≡ false
      → Steps box m.master_key_eeprom (view m) (view (process_ticket_msg box bg ws low_battery m).0)
  process_ticket_msg-Steps low_battery outside =
      elim (order_cases (value (nonce_of m)) (value m.master_nonce_eeprom)) [
        | inl le ↦ rw (process_ticket_msg-stale box doc bg ws low_battery m wf le) none_yet
        | inr lt ↦ elim (ℕ_discrete (opened_ticket box m).0 0) [
          | no forged ↦
              rw (process_ticket_msg-forged box doc bg ws low_battery m wf lt forged, outside)
                (next none_yet (Step.spends_ticket (value (nonce_of m)) lt))
          | yes opens ↦
              let rsp =
                sealed_byte box (ticket_code low_battery) first_nonce (session_key_of box m) in
              let taken = ticket_taken box doc bg ws low_battery m wf in
              rw (process_ticket_msg-accepted box doc bg ws low_battery m wf lt opens) (
                Steps-bind (send_response bg ws rsp) (λ _. pure 0) taken
                  (Steps-trans (next none_yet (Step.begins (nonce_of m) (box_of 48 m) lt opens))
                    (Quietly-Steps ((send_response-Quiet bg ws rsp).at taken)))
                  (λ _. Quiet-pure 0))
        ]
      ]

serve-Quiet : (rotation : Rotation) (request : ℕ) → Quiet (serve rotation request)
unfolding serve
serve-Quiet rotation request =
    Quiet-if (request == rotate_cw) _ _ (rotating-Quiet rotate_motor_cw rotation) (
      Quiet-if (request == rotate_ccw) _ _ (rotating-Quiet rotate_motor_ccw rotation)
        (Quiet-pure invalid_request))

-- The session nonce after the increment, and what follows it.
module _ (box : SecretBox) (bg : BgLib) (ws : List Window) (code : ℕ) (s : Machine) where
  answer-stops :
      (stop : Stop)
      → increment_array s.session_nonce nonce_len ≡ halted stop
      → answer box bg ws code s ≡ (s, halted stop)
  unfolding answer
  answer-stops stop e = rw (e, answer)

  answer-Quietly :
      {next : List ℕ}
      → increment_array s.session_nonce nonce_len ≡ ok next
      → Quietly (record s { session_nonce = next }) (answer box bg ws code s).0
  unfolding answer
  answer-Quietly {next} e =
      rw (e, answer)
        ((Quiet-bind (lift (crypto_auth_encrypt box (code ∷ []) 1 next s.session_key)) _
            (Quiet-lift (crypto_auth_encrypt box (code ∷ []) 1 next s.session_key))
            (λ boxed.
              Quiet-if (boxed.0 == 0) _ _
                (Quiet-bind (lift (response next boxed.1)) _ (Quiet-lift (response next boxed.1))
                  (λ rsp. Quiet-bind (modify reset_msg_buffer) _ reset_msg_buffer-Quiet (λ _.
                    Quiet-bind (send_response bg ws rsp) _ (send_response-Quiet bg ws rsp)
                      (λ _. Quiet-pure {A = ℕ} 0))))
                (Quiet-pure {A = ℕ} 3))).at
          (record s { session_nonce = next }))

module _ (box : SecretBox) (doc : IsSecretBox box) (bg : BgLib) (ws : List Window)
    (rotation : Rotation) (m : Machine) (wf : IsWellFormed m)
    (fresh : value m.session_nonce < value (nonce_of m)) where
  abbrev taken : Machine
  taken = request_taken box doc bg ws rotation m wf

  opened_byte : (request : ℕ) × (get_elem? (drop 32 (opened_request box m).1) 0 ≡ some request)
  opened_byte =
      let e17 = length-box_of wf 17 (omega arith) in
      get_elem?-in (drop 32 (opened_request box m).1) 0 (
        omega (
          arith,
          e17,
          length-decrypted box doc (box_of 17 m) (nonce_of m) m.session_key (omega (arith, e17))
              (omega (arith, e17)) (length-nonce_of wf) wf.key_room,
        ))

  -- An authentic request is served and answered under the nonce that it has left.
  serves :
      (opened_request box m).0 ≡ 0
      → process_request_msg box bg ws rotation m
        ≡ (serve rotation opened_byte.0 >>= answer box bg ws) taken
  unfolding process_request_msg
  serves opens = rw (
    slice-nonce wf,
    session_nonce_value wf,
    lt→ltb _ _ fresh,
    slice-box wf 17 (omega arith),
    decrypts_request box doc bg ws rotation m wf,
    opens,
    opened_byte.1,
  )

  module _ (inside : in_session m.state ≡ true) where
    spent : Steps box m.master_key_eeprom (view m) (view taken)
    spent =
        next none_yet
          (Step.spends_request (session_of m) (value (nonce_of m)) (rw inside refl) fresh)

    -- The answer, from a machine that serving the request has led to.
    answered :
        (opens : (opened_request box m).0 ≡ 0) (code : ℕ) (s : Machine)
        → Quietly taken s
        → Steps box m.master_key_eeprom (view m) (view (answer box bg ws code s).0)
    answered opens code s q = by_outcome (increment_array s.session_nonce nonce_len) refl
      where
        by_outcome :
            (o : Outcome (List ℕ))
            → increment_array s.session_nonce nonce_len ≡ o
            → Steps box m.master_key_eeprom (view m) (view (answer box bg ws code s).0)
        by_outcome (halted stop) e =
            rw (answer-stops box bg ws code s stop e) (Steps-trans spent (Quietly-Steps q))
        by_outcome (ok after) e =
            let (up, _, _) =
              increment_array-returns (nonce_of m) 24 (AllBytes-nonce_of wf) (length-nonce_of wf)
                (omega arith) (ap (λ n. increment_array n nonce_len) (sym q.session_nonce) ∙ e) in
            let stepped = record taken { session_nonce = after } in
            let same : Quietly stepped (record s { session_nonce = after }) = record {
              master_nonce = q.master_nonce;
              session_key = q.session_key;
              session_nonce = refl;
              session = q.session;
            } in
            let answers : Steps box m.master_key_eeprom (view m) (view stepped) =
              subst
                (λ n. Steps box m.master_key_eeprom (view m) (record {
                  last_ticket = value m.master_nonce_eeprom;
                  session = some (record { key = m.session_key; last = n });
                }))
                (sym up)
                (next none_yet (
                  Step.answers_request (session_of m) (nonce_of m) (box_of 17 m) (rw inside refl)
                    fresh opens)) in
            Steps-trans answers
              (Steps-trans (Quietly-Steps same) (Quietly-Steps (answer-Quietly box bg ws code s e)))

    authentic_request-Steps :
        (opened_request box m).0 ≡ 0
        → Steps box m.master_key_eeprom (view m) (view (process_request_msg box bg ws rotation m).0)
    authentic_request-Steps opens =
        rw (serves opens) (by_outcome (serve rotation opened_byte.0 taken).1 refl)
      where
        served : Quietly taken (serve rotation opened_byte.0 taken).0
        served = (serve-Quiet rotation opened_byte.0).at taken

        by_outcome :
            (o : Outcome ℕ)
            → (serve rotation opened_byte.0 taken).1 ≡ o
            → Steps box m.master_key_eeprom
                (view m)
                (view ((serve rotation opened_byte.0 >>= answer box bg ws) taken).0)
        by_outcome (ok code) e =
            rw (e, ◌>>=◌) (answered opens code (serve rotation opened_byte.0 taken).0 served)
        by_outcome (halted stop) e = rw (e, ◌>>=◌) (Steps-trans spent (Quietly-Steps served))

module _ (box : SecretBox) (doc : IsSecretBox box) (bg : BgLib) (ws : List Window)
    (rotation : Rotation) (m : Machine) (wf : IsWellFormed m) where
  pub process_request_msg-Steps :
      in_session m.state ≡ true
      → Steps box m.master_key_eeprom (view m) (view (process_request_msg box bg ws rotation m).0)
  process_request_msg-Steps inside =
      elim (order_cases (value (nonce_of m)) (value m.session_nonce)) [
        | inl le ↦ rw (process_request_msg-stale box doc bg ws rotation m wf le, inside) none_yet
        | inr lt ↦ elim (ℕ_discrete (opened_request box m).0 0) [
          | no forged ↦
              rw (process_request_msg-forged box doc bg ws rotation m wf lt forged)
                (spent box doc bg ws rotation m wf lt inside)
          | yes opens ↦ authentic_request-Steps box doc bg ws rotation m wf lt inside opens
        ]
      ]
