-- ===== src/Tests/Orders.antt =====
-- A whole session of three orders: the door is locked, a byte that is no order is refused, and the
-- door is unlocked.
use esloq.Base.{ℕ, refl, List, [], ◌∷◌, ◌<◌, replicate, arith}
use esloq.Lock.State.{State}
use esloq.Lock.Ticket.Branches.{first_nonce}
use esloq.Exchange.Orders.{Order, IsPossible, AllPossible, WholeSession, session-WholeSession}
use esloq.Tests.Sessions.{
  plain_box-WritesBytes, takes_sections, acks, takes_rest, inputs, sending, phone, lock,
  lock-IsWellFormed, row,
}
use esloq.Tests.Setup.{
  plain_box, plain_box-IsSecretBox, bg, clear_window, zero_nonce, long_rotation-IsLongEnough,
  bytes_checked,
}

-- The message goes in values of 20, 20 and 1 bytes.
abbrev order_of : ℕ → Order
order_of request = record {
  request = request;
  cuts = 20 ∷ 20 ∷ [];
  filler = replicate 19 0;
  window = clear_window;
  windows = clear_window ∷ [];
  acks = acks;
  inputs = inputs;
}

order_of-IsPossible : (request : ℕ) → request < 256 → IsPossible bg (order_of request)
order_of-IsPossible request small = record {
  small = small;
  cut = omega arith;
  takes = takes_sections;
  takes_rest = takes_rest;
  long = long_rotation-IsLongEnough;
}

abbrev orders : List Order
orders = order_of 1 ∷ order_of 7 ∷ order_of 0 ∷ []

orders-AllPossible : AllPossible bg orders
orders-AllPossible = (
  order_of-IsPossible 1 (omega arith),
  (order_of-IsPossible 7 (omega arith), (order_of-IsPossible 0 (omega arith), tt)),
)

session-WholeSession_example :
    WholeSession plain_box bg sending acks
      (20 ∷ 20 ∷ 20 ∷ [])
      (replicate 19 0)
      (replicate 32 9)
      orders
      row
      (phone zero_nonce)
      (lock State.connected first_nonce)
session-WholeSession_example =
    session-WholeSession plain_box plain_box-IsSecretBox plain_box-WritesBytes bg clear_window
      (clear_window ∷ []) takes_sections acks takes_rest inputs (20 ∷ 20 ∷ 20 ∷ []) (replicate 19 0)
      (replicate 32 9) orders row (phone zero_nonce) (lock State.connected first_nonce)
      (lock-IsWellFormed State.connected) refl refl (omega arith, omega arith) refl (omega arith)
      (omega arith) refl (bytes_checked (replicate 32 9) refl) refl refl refl (omega arith)
      orders-AllPossible (omega arith)
