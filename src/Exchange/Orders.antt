-- ===== src/Exchange/Orders.antt =====
-- A session of many orders.
use esloq.Base.{ℕ, ◌+◌, ◌*◌, ◌^◌, ◌<◌, ◌≤◌, ◌≡◌, ◌≢◌, ap, List, [], ◌∷◌, length, replicate, arith}
use esloq.Crypto.{SecretBox, IsSecretBox}
use esloq.Motor.Wait.{IsLongEnough}
use esloq.Uart.{Window}
use esloq.Phone.{Phone}
use esloq.Phone.Increment.{count}
use esloq.Lock.Fsm.{FsmInputs}
use esloq.Lock.Handlers.Acks.{Acks, TakesRest}
use esloq.Lock.Respond.Delivery.{TakesSections}
use esloq.Lock.State.{State, Machine, BgLib}
use esloq.Lock.WellFormed.{IsWellFormed}
use esloq.Nonce.Order.{AllBytes, value}
use esloq.Server.{Esloq}
use esloq.Exchange.Start.{Started, start-InStep}
use esloq.Exchange.Order.{BytePorts, SamePorts-BytePorts}
use esloq.Exchange.Session.{WritesBytes, Ordered, order-InStep}
use esloq.Exchange.Cuts.{total}
use esloq.Exchange.Step.{InStep}

-- An order of the user, with the lengths its message is cut into, what follows the last byte of the
-- response, and what the lock meets: the windows of the three sections of the response and the rest
-- of its inputs.
pub record Order : Type 0 where
  pub request : ℕ
  pub cuts : List ℕ
  pub filler : List ℕ
  pub window : Window
  pub windows : List Window
  pub acks : Acks
  pub inputs : FsmInputs

abbrev pub inputs_of : Order → FsmInputs
inputs_of o = record o.inputs { windows = o.window ∷ o.windows }

-- The order is a byte, the values before the last are together shorter than its message, the module
-- takes the three sections of the response in time, and the timer of the motor runs.
pub record IsPossible (bg : BgLib) (o : Order) : Type 0 where
  pub small : o.request < 256
  pub cut : total o.cuts < 41
  pub takes : TakesSections bg o.window o.windows
  pub takes_rest : TakesRest bg o.acks
  pub long : IsLongEnough o.inputs.rotation

abbrev pub AllPossible : BgLib → List Order → Type 0
AllPossible bg [] = Unit {0}
AllPossible bg (o ∷ os) = IsPossible bg o × AllPossible bg os

-- Orders, each obeyed and answered with phone and lock as the one before has left them.
abbrev pub AllOrdered : SecretBox → BgLib → List Order → Phone → Machine → Type 0
AllOrdered box bg [] phone m = InStep phone m
AllOrdered box bg (o ∷ os) phone m =
    (one : Ordered box bg (inputs_of o) o.acks o.cuts o.filler phone m o.request) × AllOrdered box
      bg os one.reader one.after

-- A nonce with room left is not all 127.
count-full : (nonce : List ℕ) → count nonce + 2 < 128 ^ 24 → nonce ≢ replicate 24 127
count-full nonce room full = absurd (omega (arith, ap count full))

-- From a phone and a lock that are in step, any number of orders is sent, obeyed and answered, one
-- after the other, and the two are in step at the end, where NaCl writes bytes, the port registers
-- are bytes at the start, each order is a byte, cut into values of which those before the last are
-- together shorter than 41 bytes, the motor's timer runs and the module takes the three sections of
-- each response in time, as long as the nonces last: the number that the session nonce spells to
-- the base 128, with two for each order, stays under 128 ^ 24.
pub orders-InStep :
    (box : SecretBox) (doc : IsSecretBox box) (writes : WritesBytes box) (bg : BgLib)
    (orders : List Order) (phone : Phone) (m : Machine)
    → AllPossible bg orders
    → InStep phone m
    → BytePorts m.uart.mcu
    → count m.session_nonce + 2 * length orders < 128 ^ 24
    → AllOrdered box bg orders phone m
orders-InStep box doc writes bg [] phone m possible step small room = step
orders-InStep box doc writes bg (o ∷ os) phone m (can, others) step small room =
    let one =
      order-InStep box doc writes bg o.window o.windows can.takes o.acks can.takes_rest o.inputs
        can.long o.request o.cuts o.filler phone m step
        (count-full m.session_nonce (omega (arith, room))) can.small can.cut small.0 small.1 in
    (
      one,
      orders-InStep box doc writes bg os one.reader one.after others one.in_step one.small_ports
          (omega (arith, room, one.counts)),
    )

-- A session from its start: the ticket, and the orders after it.
abbrev pub WholeSession :
    SecretBox
    → BgLib
    → FsmInputs
    → Acks
    → List ℕ
    → List ℕ
    → List ℕ
    → List Order
    → Esloq
    → Phone
    → Machine
    → Type 0
WholeSession box bg inputs acks cuts filler session_key orders row phone m =
    (started : Started box bg inputs acks cuts filler session_key row phone m) × AllOrdered box bg
      orders started.reader started.after

-- A well-formed, connected lock that holds no part of a message, whose key the server has, and
-- whose last nonce the server's, under 2 ^ 31 - 1, is not behind of, serves a whole session: where
-- NaCl writes bytes and the port registers are bytes, a phone with a nonce of 24 bytes and no part
-- of a response waiting gets a ticket of the server for a session key of 32 bytes, which the lock
-- takes and answers, and then any number of orders under (128 ^ 24 - 1) / 2 is sent, obeyed and
-- answered, one after the other; from the values that the lock has sent since each message, the
-- phone reads the code of the answer; and phone and lock are in step at the end. (The messages are
-- cut into values of which those before the last are together shorter than the message, an order is
-- a byte, the Bluetooth module takes the three sections of each response in time and acknowledges
-- the first two, and the motor's timer runs.)
pub session-WholeSession :
    (box : SecretBox) (doc : IsSecretBox box) (writes : WritesBytes box) (bg : BgLib) (w : Window)
    (ws : List Window) (takes : TakesSections bg w ws) (acks : Acks)
    (takes_rest : TakesRest bg acks) (inputs : FsmInputs) (cuts filler session_key : List ℕ)
    (orders : List Order) (row : Esloq) (phone : Phone) (m : Machine)
    → IsWellFormed m
    → m.state ≡ State.connected
    → m.msg_buf.len ≡ 0
    → BytePorts m.uart.mcu
    → row.key ≡ m.master_key_eeprom
    → value m.master_nonce_eeprom ≤ row.nonce
    → row.nonce + 1 < 2 ^ 31
    → length session_key ≡ 32
    → AllBytes session_key
    → length phone.session_nonce ≡ 24
    → phone.incoming.position ≡ 0
    → length phone.incoming.bytes ≡ 41
    → total cuts < 72
    → AllPossible bg orders
    → 2 * length orders + 1 < 128 ^ 24
    → WholeSession box bg
        (record inputs { windows = w ∷ ws })
        acks
        cuts
        filler
        session_key
        orders
        row
        phone
        m
session-WholeSession box doc writes bg w ws takes acks takes_rest inputs cuts filler session_key
      orders row phone m wf connected empty small same_key behind fits key32 key_bytes nonce24 start
      room cut possible few =
    let started =
      start-InStep box doc writes bg w ws takes acks takes_rest inputs cuts filler session_key row
        phone m wf connected empty same_key behind fits key32 key_bytes nonce24 start room cut in
    (
      started,
      orders-InStep box doc writes bg orders started.reader started.after possible started.in_step
          (SamePorts-BytePorts m.uart.mcu started.after.uart.mcu started.ports small)
          (omega (arith, few, ap count started.at_first)),
    )
