-- ===== src/Exchange/Race.antt =====
-- Two requests for a ticket at once: `getlockticket` of webserver/esloq/views.py, and what
-- `process_ticket_msg` of firmware/avr/src/main.c says to the second ticket.
use esloq.Base.{
  ℕ, zero, suc, ◌≤◌, ◌≡◌, refl, sym, ◌∙◌, ap, List, [], ◌∷◌, Bool, some, take, arith, ok,
}
use esloq.Crypto.{SecretBox, IsSecretBox}
use esloq.Nonce.Order.{value}
use esloq.Uart.{Window}
use esloq.Server.{Esloq, next_nonce, get_lock_ticket}
use esloq.Server.Access.{Objects}
use esloq.Server.Access.Requests.{given, save_and_seal, give_two_tickets}
use esloq.Server.Access.Tickets.{number_of, ticket_response-given, seal_ticket-number}
use esloq.Lock.State.{Machine, BgLib}
use esloq.Lock.Ticket.{process_ticket_msg}
use esloq.Lock.Ticket.Replay.{process_ticket_msg-no_replay}
use esloq.Lock.WellFormed.{IsWellFormed, nonce_of}

-- A shorter prefix of a prefix.
take-take : {A : Type 0} (k n : ℕ) (xs : List A) → k ≤ n → take k (take n xs) ≡ take k xs
take-take zero n xs le = refl
take-take (suc k) zero xs le = absurd (omega arith)
take-take (suc k) (suc n) [] le = refl
take-take (suc k) (suc n) (x ∷ xs) le = ap (λ r. x ∷ r) (take-take k n xs (omega arith))

-- The buffer begins with the ticket.
abbrev pub Holds : Machine → List ℕ × List ℕ → Type 0
Holds m sealed = take 72 m.msg_buf.bytes ≡ sealed.1

Holds-number :
    (m : Machine) (sealed : List ℕ × List ℕ)
    → Holds m sealed
    → value (nonce_of m) ≡ number_of sealed
Holds-number m sealed holds =
    ap value (sym (take-take 24 72 m.msg_buf.bytes (omega arith)) ∙ ap (take 24) holds)

module _ {Accesses Locks : Type 0} (db : Objects Accesses Locks) where
  -- Both tickets have the nonce after that of the row.
  give_two_tickets-number :
      (box : SecretBox) (locks : Locks) (l : ℕ) (urandom urandom' : List ℕ) (row : Esloq)
      {locks' : Locks} {first second : List ℕ × List ℕ}
      → db.get_lock locks l ≡ some row
      → give_two_tickets db box locks l urandom urandom' ≡ (locks', given first, given second)
      → number_of first ≡ number_of second
  unfolding give_two_tickets save_and_seal get_lock_ticket
  give_two_tickets-number box locks l urandom urandom' row at both =
      let result = rw (give_two_tickets, at) at both in
      let one =
        seal_ticket-number box urandom (next_nonce row)
          (ticket_response-given _ (ap (λ r. r.1) result)) in
      let other =
        seal_ticket-number box urandom' (next_nonce row)
          (ticket_response-given _ (ap (λ r. r.2) result)) in
      one ∙ sym other

  -- If two requests for a ticket of a lock both read its row before either saves it, and both are
  -- given a ticket, then the lock, once it has processed the first one with any result, refuses the
  -- second one with 1 and changes nothing, as long as its EEPROM keeps the nonce left behind.
  pub give_two_tickets-refused :
      (box : SecretBox) (doc : IsSecretBox box) (bg : BgLib) (ws ws' : List Window)
      (low_battery low_battery' : Bool) (locks : Locks) (l : ℕ) (urandom urandom' : List ℕ)
      (row : Esloq) (m m' : Machine) {locks' : Locks} {first second : List ℕ × List ℕ}
      → db.get_lock locks l ≡ some row
      → give_two_tickets db box locks l urandom urandom' ≡ (locks', given first, given second)
      → IsWellFormed m
      → IsWellFormed m'
      → Holds m first
      → Holds m' second
      → m'.master_nonce_eeprom ≡ (process_ticket_msg box bg ws low_battery m).0.master_nonce_eeprom
      → process_ticket_msg box bg ws' low_battery' m' ≡ (m', ok 1)
  give_two_tickets-refused box doc bg ws ws' low_battery low_battery' locks l urandom urandom' row m
        m' {first = first} {second = second} at both wf wf' holds holds' keeps =
      let same = give_two_tickets-number box locks l urandom urandom' row at both in
      process_ticket_msg-no_replay box doc bg ws ws' low_battery low_battery' m m' wf wf' keeps
        (omega (arith, same, Holds-number m first holds, Holds-number m' second holds'))
