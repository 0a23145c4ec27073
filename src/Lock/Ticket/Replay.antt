-- ===== src/Lock/Ticket/Replay.antt =====
-- The last master nonce, over all the branches of a ticket: it never falls, an old ticket is refused,
-- and a forged one can use it up.
use esloq.Base.{
  ℕ, ◌+◌, ◌*◌, ◌≤◌, ◌<◌, ◌≡◌, refl, ◌∙◌, ap, List, [], ◌∷◌, ◌++◌, Bool, Outcome, ok, length,
  replicate, arith, subst, drop, length-drop, length-append,
}
use native.Mathlib.Decide.{dec_lt, ℕ_discrete}
use esloq.Crypto.{SecretBox, IsSecretBox}
use esloq.Nonce.Order.{AllBytes, value, value_from}
use esloq.Uart.{Window}
use esloq.Lock.State.{Machine, BgLib}
use esloq.Lock.Monad.{M, ◌>>=◌, ◌>>◌, pure}
use esloq.Lock.Respond.{send_response}
use esloq.Lock.Respond.Keeps.{send_response-Keeps}
use esloq.Lock.Ticket.{process_ticket_msg}
use esloq.Lock.Ticket.Branches.{
  opened_ticket, process_ticket_msg-stale, process_ticket_msg-forged, process_ticket_msg-accepted,
  ticket_taken, sealed_byte, ticket_code, first_nonce, session_key_of,
}
use esloq.Lock.WellFormed.{IsWellFormed, nonce_of, length-nonce_of, AllBytes-nonce_of}

value_from-le :
    (acc acc' : ℕ) (xs : List ℕ)
    → acc ≤ acc'
    → AllBytes xs
    → value_from acc xs ≤ value_from acc' (replicate (length xs) 255)
value_from-le acc acc' [] le b = le
value_from-le acc acc' (x ∷ xs) le b =
    value_from-le (acc * 256 + x) (acc' * 256 + 255) xs (omega arith) b.1

-- No nonce is greater than the one whose bytes are all 255.
value-le-max : (xs : List ℕ) → AllBytes xs → length xs ≡ 24 → value xs ≤ value (replicate 24 255)
value-le-max xs b e =
    subst (λ n. value xs ≤ value (replicate n 255)) e (value_from-le 0 0 xs (omega arith) b)

-- A chain that ends by a value ends in the state of its first part.
pub >>-pure-state :
    {A : Type 0} (x : M (Unit {0})) (a : A) (m : Machine) → ((x >> pure a) m).0 ≡ (x m).0
>>-pure-state x a m = by_outcome (x m).1 refl
  where
    by_outcome : (o : Outcome (Unit {0})) → (x m).1 ≡ o → ((x >> pure a) m).0 ≡ (x m).0
    by_outcome (ok _) e = rw (e, ◌>>=◌)
    by_outcome (Outcome.halted s) e = rw (e, ◌>>=◌)

-- The answer to a byte has the length of a response.
pub length-sealed_byte :
    (box : SecretBox)
    → IsSecretBox box
    → (code : ℕ) (nonce key : List ℕ) → length nonce ≡ 24
    → length (sealed_byte box code nonce key) ≡ 41
length-sealed_byte box doc code nonce key e = omega (
  arith,
  e,
  length-append nonce (drop 16 (box.secretbox (replicate 32 0 ++ (code ∷ [])) nonce key).1),
  length-drop 16 (box.secretbox (replicate 32 0 ++ (code ∷ [])) nonce key).1,
  doc.length-secretbox (replicate 32 0 ++ (code ∷ [])) nonce key,
)

module _ (box : SecretBox) (doc : IsSecretBox box) (bg : BgLib) (ws : List Window)
    (low_battery : Bool) (m : Machine) (wf : IsWellFormed m) where
  -- A ticket with a greater nonce leaves that nonce in the EEPROM, whether it is authentic or not,
  -- and whether the answer is sent or not.
  pub process_ticket_msg-stores :
      value m.master_nonce_eeprom < value (nonce_of m)
      → (process_ticket_msg box bg ws low_battery m).0.master_nonce_eeprom ≡ nonce_of m
  process_ticket_msg-stores lt = elim (ℕ_discrete (opened_ticket box m).0 0) [
    | yes opens ↦
        let rsp = sealed_byte box (ticket_code low_battery) first_nonce (session_key_of box m) in
        let taken = ticket_taken box doc bg ws low_battery m wf in
        ap (λ (r : Machine × Outcome ℕ). r.0.master_nonce_eeprom)
          (process_ticket_msg-accepted box doc bg ws low_battery m wf lt opens)
        ∙ ap (λ (s : Machine). s.master_nonce_eeprom)
            (>>-pure-state (send_response bg ws rsp) 0 taken)
        ∙ (send_response-Keeps bg ws rsp taken
            (length-sealed_byte box doc _ first_nonce (session_key_of box m) refl)).master_nonce
    | no forged ↦
        ap (λ (r : Machine × Outcome ℕ). r.0.master_nonce_eeprom)
          (process_ticket_msg-forged box doc bg ws low_battery m wf lt forged)
  ]

  -- The last master nonce never falls: whatever the ticket is, it is afterwards the greater one of
  -- what it was and of the ticket's nonce.
  pub process_ticket_msg-monotone :
      (value m.master_nonce_eeprom
        ≤ value (process_ticket_msg box bg ws low_battery m).0.master_nonce_eeprom)
      × (value (nonce_of m)
          ≤ value (process_ticket_msg box bg ws low_battery m).0.master_nonce_eeprom)
  process_ticket_msg-monotone = elim (dec_lt (value m.master_nonce_eeprom) (value (nonce_of m))) [
    | yes lt ↦ omega (arith, ap value (process_ticket_msg-stores lt))
    | no ge ↦ omega (
      arith,
      ap (λ (r : Machine × Outcome ℕ). value r.0.master_nonce_eeprom)
          (process_ticket_msg-stale box doc bg ws low_battery m wf (omega arith)),
    )
  ]

module _ (box : SecretBox) (doc : IsSecretBox box) (bg : BgLib) (ws ws' : List Window)
    (low_battery low_battery' : Bool) (m m' : Machine) (wf : IsWellFormed m)
    (wf' : IsWellFormed m') where
  -- A ticket is never taken twice: once one has been processed, with whatever result, a ticket whose
  -- nonce is not greater is refused by 1 and changes nothing, as long as the EEPROM keeps its nonce.
  pub process_ticket_msg-no_replay :
      m'.master_nonce_eeprom ≡ (process_ticket_msg box bg ws low_battery m).0.master_nonce_eeprom
      → value (nonce_of m') ≤ value (nonce_of m)
      → process_ticket_msg box bg ws' low_battery' m' ≡ (m', ok 1)
  process_ticket_msg-no_replay same le =
      let kept = process_ticket_msg-monotone box doc bg ws low_battery m wf in
      process_ticket_msg-stale box doc bg ws' low_battery' m' wf'
        (omega (arith, kept.1, le, ap value same))

  -- One forged ticket is enough to lock the owner out: after a ticket whose nonce is 24 bytes of 255,
  -- even one that does not open under the master key, every ticket is refused by 1.
  pub process_ticket_msg-locks_out :
      nonce_of m ≡ replicate 24 255
      → m'.master_nonce_eeprom ≡ (process_ticket_msg box bg ws low_battery m).0.master_nonce_eeprom
      → process_ticket_msg box bg ws' low_battery' m' ≡ (m', ok 1)
  process_ticket_msg-locks_out full same = process_ticket_msg-no_replay same (
      omega (
        arith,
        ap value full,
        value-le-max (nonce_of m') (AllBytes-nonce_of wf') (length-nonce_of wf'),
      ))
