-- ===== src/Tests/Tickets.antt =====
-- The tickets that the server gives on concrete requests, one after another and two at once.
use esloq.Server.{Esloq, to_bytes, next_nonce, seal_ticket, get_lock_ticket}
use esloq.Tests.Access.{tables}
use esloq.Base.{
  ℕ, ◌≡◌, refl, sym, map, Bool, ◌++◌, ok, slice, copy_into, arith, List, [], ◌∷◌, true, false, some,
  replicate,
}
use esloq.Server.Access.Requests.{
  Call, Request, Response, answer_request, answer_requests, view_of_url, retrieve, give_ticket,
  save_and_seal, ticket_response, give_two_tickets,
}
use esloq.Server.Access.Closed.Reopened.{by}
use esloq.Tests.Database.{Locks, database}
use esloq.Tests.Database.Laws.{database-AreObjects}
use esloq.Server.Access.Tickets.{AreRising}
use esloq.Server.Access.Tickets.Rising.{answer_requests-AreRising}
use esloq.Exchange.Race.{give_two_tickets-refused}
use esloq.Lock.State.{State, Machine}
use esloq.Lock.Ticket.{process_ticket_msg}
use esloq.Lock.Ticket.Replay.{process_ticket_msg-stores}
use esloq.Lock.WellFormed.{IsWellFormed}
use esloq.Wrappers.{auth_encrypt}
use esloq.Tests.Setup.{
  plain_box, plain_box-IsSecretBox, bg, machine, machine_after, machine-IsWellFormed, zero_nonce,
  nonce_five, good_ticket,
}

abbrev ticket_requests : List Request
ticket_requests =
    by 2 (Call.get_ticket 1 (replicate 32 9))
    ∷ by 3 (Call.get_ticket 1 (replicate 32 8))
    ∷ by 1 (Call.get_ticket 1 (replicate 32 7))
    ∷ []

abbrev is_given : Response → Bool
is_given (Response.given sealed) = true
is_given _ = false

-- The users of the lock are given tickets, the other one is not.
tickets_given :
    map is_given (answer_requests database plain_box tables ticket_requests).1
    ≡ true ∷ false ∷ true ∷ []
unfolding answer_requests answer_request view_of_url retrieve give_ticket save_and_seal
    ticket_response get_lock_ticket next_nonce seal_ticket to_bytes auth_encrypt slice
tickets_given = refl

answer_requests-AreRising_example :
    AreRising 1 5 ticket_requests (answer_requests database plain_box tables ticket_requests).1
answer_requests-AreRising_example =
    answer_requests-AreRising database-AreObjects 1 plain_box tables ticket_requests
      (record { key = replicate 32 1; nonce = 5 }) refl

-- A row whose next nonce is 5, and the two tickets of requests at once.
abbrev race_row : Esloq
race_row = record { key = replicate 32 1; nonce = 4 }

abbrev race_locks : Locks
race_locks l = some race_row

abbrev race : Locks × Response × Response
race = give_two_tickets database plain_box race_locks 1 (replicate 32 9) (replicate 32 8)

abbrev second_ticket : List ℕ
second_ticket = nonce_five ++ (replicate 16 7 ++ replicate 32 8)

race_tickets : race ≡ (
  race.0,
  Response.given (replicate 32 9, good_ticket),
  Response.given (replicate 32 8, second_ticket),
)
unfolding give_two_tickets save_and_seal ticket_response get_lock_ticket next_nonce seal_ticket
    to_bytes auth_encrypt slice copy_into
race_tickets = refl

abbrev with_first : Machine
with_first = machine State.ticket good_ticket

with_first-IsWellFormed : IsWellFormed with_first
with_first-IsWellFormed =
    machine-IsWellFormed zero_nonce zero_nonce State.ticket good_ticket refl refl refl refl refl
      refl

abbrev with_second : Machine
with_second = machine_after nonce_five zero_nonce State.ticket second_ticket

give_two_tickets-refused_example :
    process_ticket_msg plain_box bg [] false with_second ≡ (with_second, ok 1)
give_two_tickets-refused_example =
    give_two_tickets-refused database plain_box plain_box-IsSecretBox bg [] [] false false
      race_locks 1 (replicate 32 9) (replicate 32 8) race_row with_first with_second refl
      race_tickets with_first-IsWellFormed
      (machine-IsWellFormed nonce_five zero_nonce State.ticket second_ticket refl refl refl refl
        refl refl)
      refl refl
      (sym (
        process_ticket_msg-stores plain_box plain_box-IsSecretBox bg [] false with_first
          with_first-IsWellFormed (omega arith)))
