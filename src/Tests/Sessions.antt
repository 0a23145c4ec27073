-- ===== src/Tests/Sessions.antt =====
-- A session of the phone and the lock: its start, an order, and the faults of the phone's code.
use esloq.Base.{
  ℕ, ◌+◌, ◌≡◌, refl, List, [], ◌∷◌, ◌++◌, some, none, length, take, drop, replicate, arith,
}
use esloq.Nonce.Order.{value}
use esloq.Lock.State.{State, Machine}
use esloq.Lock.Fsm.{FsmInputs}
use esloq.Lock.Handlers.Acks.{Acks, TakesRest}
use esloq.Lock.Respond.Delivery.{TakesSections}
use esloq.Lock.Ticket.Branches.{first_nonce}
use esloq.Lock.WellFormed.{
  IsWellFormed, AllBytes-append, AllBytes-drop, AllBytes-replicate, AllBytes-take,
}
use esloq.Wrappers.{jni_decrypt}
use esloq.Server.{Esloq}
use esloq.Phone.{Phone, gave, threw, illegal_argument, increment_byte_array, process_message}
use esloq.Phone.Faults.{increment_byte_array-wraps, process_message-high}
use esloq.Exchange.Session.{WritesBytes}
use esloq.Exchange.Start.{AllLow-replicate, first_nonce-AllLow, Started, start-InStep}
use esloq.Tests.Setup.{
  plain_box, plain_box-IsSecretBox, bg, clear_window, machine_after, zero_nonce,
  machine-IsWellFormed, long_rotation, bytes_checked,
}

pub plain_box-WritesBytes : WritesBytes plain_box
plain_box-WritesBytes m n k small =
    AllBytes-take (length m) (replicate 16 0 ++ (replicate 16 7 ++ drop 32 m)) (
      AllBytes-append (replicate 16 0) (replicate 16 7 ++ drop 32 m)
        (AllBytes-replicate 16 0 (omega arith))
        (AllBytes-append (replicate 16 7) (drop 32 m) (AllBytes-replicate 16 7 (omega arith))
          (AllBytes-drop 32 m small)))

pub takes_sections : TakesSections bg clear_window (clear_window ∷ [])
takes_sections section twenty = record { enough = omega arith; in_time = refl }

abbrev pub acks : Acks
acks = record {
  second = clear_window;
  seconds = clear_window ∷ [];
  third = clear_window;
  thirds = clear_window ∷ [];
}

pub takes_rest : TakesRest bg acks
takes_rest = record {
  takes_second = takes_sections;
  takes_third = λ section one. record { enough = omega arith; in_time = refl };
}

abbrev pub inputs : FsmInputs
inputs = record { windows = []; acsr = 0; pind = 0; rotation = long_rotation }

abbrev pub sending : FsmInputs
sending = record inputs { windows = clear_window ∷ clear_window ∷ [] }

abbrev pub phone : List ℕ → Phone
phone nonce = record {
  lock_ticket = none;
  session_key = some (replicate 32 2);
  session_nonce = nonce;
  incoming = record { position = 0; bytes = replicate 41 0 };
}

abbrev pub lock : State → List ℕ → Machine
lock s nonce = machine_after zero_nonce nonce s (replicate 72 0)

pub lock-IsWellFormed : (s : State) → IsWellFormed (lock s first_nonce)
lock-IsWellFormed s =
    machine-IsWellFormed zero_nonce first_nonce s (replicate 72 0) refl refl refl refl refl refl

abbrev pub row : Esloq
row = record { key = replicate 32 1; nonce = 4 }

start-InStep_example :
    Started plain_box bg sending acks
      (20 ∷ 20 ∷ 20 ∷ [])
      (replicate 19 0)
      (replicate 32 9)
      row
      (phone zero_nonce)
      (lock State.connected first_nonce)
start-InStep_example =
    start-InStep plain_box plain_box-IsSecretBox plain_box-WritesBytes bg clear_window
      (clear_window ∷ []) takes_sections acks takes_rest inputs (20 ∷ 20 ∷ 20 ∷ []) (replicate 19 0)
      (replicate 32 9) row (phone zero_nonce) (lock State.connected first_nonce)
      (lock-IsWellFormed State.connected) refl refl refl (omega arith) (omega arith) refl
      (bytes_checked (replicate 32 9) refl) refl refl refl (omega arith)

increment_byte_array-wraps_example :
    (increment_byte_array (replicate 23 0 ++ (255 ∷ [])) ≡ gave (replicate 24 0))
    × (value (replicate 24 0) + 255 ≡ value (replicate 23 0 ++ (255 ∷ [])))
increment_byte_array-wraps_example = increment_byte_array-wraps (replicate 23 0)

abbrev rsp : List ℕ
rsp = first_nonce ++ (replicate 16 7 ++ (255 ∷ []))

rsp_opens : jni_decrypt plain_box (drop 24 rsp) (take 24 rsp) (replicate 32 2) ≡ 255 ∷ []
unfolding jni_decrypt
rsp_opens = refl

-- The response is INVALID_REQUEST.
process_message-high_example :
    process_message plain_box rsp (phone zero_nonce) ≡ (phone first_nonce, threw illegal_argument)
process_message-high_example =
    process_message-high plain_box rsp (replicate 32 2) 255 (phone zero_nonce) refl refl
      (AllLow-replicate 24 0 (omega arith)) first_nonce-AllLow refl (omega arith) rsp_opens
      (omega arith) (omega arith)
