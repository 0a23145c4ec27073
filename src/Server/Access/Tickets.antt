-- ===== src/Server/Access/Tickets.antt =====
-- The numbers of the tickets that `getlockticket` of webserver/esloq/views.py gives, over requests
-- one after another.
pub mod Rising
use esloq.Base.{
  some-injective, ℕ, ◌+◌, ◌<◌, ◌≤◌, ◌≡◌, ◌≢◌, ◌⊎◌, refl, sym, subst, ◌∙◌, ap, List, [], ◌∷◌, ◌++◌,
  Bool, true, false, Option, none, some, ◌==◌, ==_iff, Bool-cases, Option-cases, inl, inr,
  if◌then◌else◌, take, length, arith, Outcome, ok, halted, ◌>>=◌, returned, ok-injective,
  take-append,
}
use esloq.Crypto.{SecretBox}
use esloq.Nonce.{nonce_len}
use esloq.Nonce.Order.{value}
use esloq.Server.{Esloq, to_bytes, next_nonce, seal_ticket, get_lock_ticket}
use esloq.Server.Bytes.{to_bytes-value}
use esloq.Wrappers.{auth_encrypt}
use esloq.Server.Access.{Objects, AreObjects, of_user}
use esloq.Server.Access.Requests.{
  Call, Request, Tables, Response, given, ticket_response, retrieve, give_ticket, view_of_url,
  answer_request, answer_requests,
}

-- The number of a ticket: what its nonce spells.
abbrev pub number_of : List ℕ × List ℕ → ℕ
number_of sealed = value (take nonce_len sealed.1)

-- The tickets of the lock among the responses have numbers above `n`, each a greater one than the
-- tickets before it.
pub data AreRising (l : ℕ) : ℕ → List Request → List Response → Type 0 where
  no_more : {n : ℕ} → AreRising l n [] []
  numbered :
      {n : ℕ} {request : Request} {requests : List Request} {responses : List Response}
      (urandom : List ℕ) (sealed : List ℕ × List ℕ)
      → request.call ≡ Call.get_ticket l urandom
      → n < number_of sealed
      → AreRising l (number_of sealed) requests responses
      → AreRising l n (request ∷ requests) (given sealed ∷ responses)
  no_ticket :
      {n : ℕ} {request : Request} {requests : List Request} {response : Response}
      {responses : List Response}
      → ((urandom : List ℕ) (sealed : List ℕ × List ℕ)
          → request.call ≡ Call.get_ticket l urandom
          → response ≢ given sealed)
      → AreRising l n requests responses
      → AreRising l n (request ∷ requests) (response ∷ responses)

AreRising-below :
    {l n m : ℕ} {requests : List Request} {responses : List Response}
    → n ≤ m
    → AreRising l m requests responses
    → AreRising l n requests responses
AreRising-below le no_more = no_more
AreRising-below le (numbered urandom sealed asks above rest) =
    numbered urandom sealed asks (omega (arith, le, above)) rest
AreRising-below le (no_ticket other rest) = no_ticket other (AreRising-below le rest)

pub ticket_response-given :
    (answer : Outcome (Option (List ℕ × List ℕ))) {sealed : List ℕ × List ℕ}
    → ticket_response answer ≡ given sealed
    → answer ≡ ok (some sealed)
unfolding ticket_response
ticket_response-given (ok (some made)) e = cc
ticket_response-given (ok none) e = cc
ticket_response-given (halted why) e = cc

-- The ticket begins with the nonce.
sealed-nonce :
    (urandom nonce : List ℕ) (box_of : Outcome (Option (List ℕ))) {sealed : List ℕ × List ℕ}
    → (box_of >>= λ c. elim c [ none ↦ ok none | some c ↦ ok (some (urandom, nonce ++ c)) ])
      ≡ ok (some sealed)
    → take (length nonce) sealed.1 ≡ nonce
sealed-nonce urandom nonce (ok none) e = cc
sealed-nonce urandom nonce (halted why) e = cc
sealed-nonce urandom nonce (ok (some c)) e =
    ap (λ (pair : List ℕ × List ℕ). take (length nonce) pair.1)
      (sym (some-injective (ok-injective e)))
    ∙ take-append nonce c

pub seal_ticket-number :
    (box : SecretBox) (urandom : List ℕ) (lock : Esloq) {sealed : List ℕ × List ℕ}
    → seal_ticket box urandom lock ≡ ok (some sealed)
    → number_of sealed ≡ lock.nonce
unfolding seal_ticket
seal_ticket-number box urandom lock {sealed} e =
    elim (Option-cases (to_bytes nonce_len lock.nonce)) [
      | inl too_big ↦ let impossible = rw (too_big, seal_ticket) at e in cc
      | inr (nonce, spelled) ↦
          let (same, long, small) = to_bytes-value nonce_len lock.nonce spelled in
          let first =
            sealed-nonce urandom nonce (auth_encrypt box urandom nonce lock.key)
              (rw (spelled, seal_ticket) at e) in
          ap (λ n. value (take n sealed.1)) (sym long) ∙ (ap value first ∙ same)
    ]

next_nonce-lt : (row : Esloq) → row.nonce < (next_nonce row).nonce
unfolding next_nonce
next_nonce-lt row = omega arith

-- The lock that a ticket is asked for.
lock_asked : Call → ℕ
lock_asked (Call.get_ticket k urandom) = k
lock_asked _ = 0

IsTicket : ℕ → Call → Response → Type 0
IsTicket l call response =
    (urandom : List ℕ) × (sealed : List ℕ × List ℕ) × (call ≡ Call.get_ticket l urandom)
    × (response ≡ given sealed)

IsNoTicket : ℕ → Call → Response → Type 0
IsNoTicket l call response =
    (urandom : List ℕ) (sealed : List ℕ × List ℕ)
    → call ≡ Call.get_ticket l urandom
    → response ≢ given sealed

IsTicket-cases :
    (l : ℕ) (call : Call) (response : Response)
    → IsTicket l call response ⊎ IsNoTicket l call response
unfolding IsTicket IsNoTicket lock_asked
IsTicket-cases l (Call.get_ticket k urandom) (given sealed) = elim (Bool-cases (k == l)) [
  | inl same ↦
      inl (urandom, sealed, ap (λ k. Call.get_ticket k urandom) ((==_iff k l).0 same), refl)
  | inr other ↦
      inr (λ urandom' sealed' asks gives. let is_l = (==_iff k l).1 (ap lock_asked asks) in cc)
]
IsTicket-cases l (Call.get_ticket k urandom) _ = inr (λ urandom' sealed' asks gives. cc)
IsTicket-cases l _ _ = inr (λ urandom' sealed' asks gives. cc)

-- What a request does to the row of the lock: its nonce does not fall, and if the answer is a ticket
-- of the lock, the nonce has risen, and the ticket has it.
Advances :
    {Accesses Locks : Type 0}
    → Objects Accesses Locks
    → ℕ
    → Esloq
    → Locks
    → Call
    → Response
    → Type 0
Advances db l row locks call response =
    (row' : Esloq) × (db.get_lock locks l ≡ some row')
    × (row.nonce ≤ row'.nonce)
    × ((urandom : List ℕ) (sealed : List ℕ × List ℕ)
        → call ≡ Call.get_ticket l urandom
        → response ≡ given sealed
        → (row.nonce < row'.nonce) × (number_of sealed ≡ row'.nonce))
