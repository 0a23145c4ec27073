-- ===== src/Tests/Exchanges.antt =====
-- A ticket and an order, delivered in parts, from their encryption to the answers.
use esloq.Base.{◌≡◌, refl, sym, ap, [], ◌∷◌, ◌++◌, ok, some, replicate, arith, slice}
use esloq.Nonce.Order.{value}
use esloq.Wrappers.{auth_encrypt, jni_encrypt}
use esloq.Lock.State.{State, Machine}
use esloq.Lock.Board.{battery_monitor_alert}
use esloq.Lock.Monad.{◌>>◌}
use esloq.Lock.Fsm.{FsmInputs, fsm_process}
use esloq.Lock.Handlers.Buffer.{receive_parts}
use esloq.Lock.Respond.Delivery.{TakesSections}
use esloq.Lock.WellFormed.{IsWellFormed}
use esloq.Exchange.Login.{LoggedIn, ticket-answered}
use esloq.Exchange.Order.{Obeyed, order-Obeyed}
use esloq.Tests.Setup.{
  plain_box, plain_box-IsSecretBox, bg, clear_window, machine, zero_nonce, machine-IsWellFormed,
  nonce_five, long_rotation, long_rotation-IsLongEnough, bytes_checked,
}

takes_sections : TakesSections bg clear_window (clear_window ∷ [])
takes_sections section twenty = record { enough = omega arith; in_time = refl }

-- No alert of the battery.
abbrev inputs : FsmInputs
inputs = record { windows = []; acsr = 0; pind = 0; rotation = long_rotation }

abbrev sending : FsmInputs
sending = record inputs { windows = clear_window ∷ clear_window ∷ [] }

abbrev waiting : State → Machine
waiting s = machine s (replicate 72 0)

waiting-IsWellFormed : (s : State) → IsWellFormed (waiting s)
waiting-IsWellFormed s =
    machine-IsWellFormed zero_nonce zero_nonce s (replicate 72 0) refl refl refl refl refl refl

ticket_sealed :
    auth_encrypt plain_box (replicate 32 9) nonce_five (replicate 32 1)
    ≡ ok (some (replicate 16 7 ++ replicate 32 9))
unfolding auth_encrypt slice
ticket_sealed = refl

ticket-answered_example :
    (m' : Machine) × ((receive_parts (nonce_five ∷ replicate 16 7 ∷ replicate 32 9 ∷ [])
          >> fsm_process plain_box bg sending)
        (waiting State.connected)
      ≡ (m', ok tt))
    × LoggedIn plain_box (waiting State.connected) m' nonce_five (replicate 32 9) 4
unfolding battery_monitor_alert
ticket-answered_example =
    ticket-answered plain_box plain_box-IsSecretBox bg clear_window (clear_window ∷ [])
      takes_sections inputs nonce_five (replicate 32 9) (replicate 16 7 ++ replicate 32 9)
      (nonce_five ∷ replicate 16 7 ∷ []) (replicate 32 9) (waiting State.connected)
      (waiting-IsWellFormed State.connected) refl refl refl refl ticket_sealed
      (bytes_checked (nonce_five ++ (replicate 16 7 ++ replicate 32 9)) refl) refl (omega arith)
      (omega arith)

order_sealed :
    jni_encrypt plain_box (1 ∷ []) nonce_five (replicate 32 2) ≡ replicate 16 7 ++ (1 ∷ [])
unfolding jni_encrypt
order_sealed = refl

order-Obeyed_example :
    (m' : Machine) × ((receive_parts (nonce_five ∷ (replicate 16 7 ++ (1 ∷ [])) ∷ [])
          >> fsm_process plain_box bg sending)
        (waiting State.request_w)
      ≡ (m', ok tt))
    × Obeyed plain_box long_rotation (waiting State.request_w) m' 1 nonce_five
order-Obeyed_example =
    order-Obeyed plain_box plain_box-IsSecretBox bg clear_window (clear_window ∷ []) takes_sections
      inputs long_rotation-IsLongEnough 1 nonce_five (nonce_five ∷ []) (replicate 16 7 ++ (1 ∷ []))
      (waiting State.request_w) (waiting-IsWellFormed State.request_w) refl refl refl
      (λ e. absurd (omega (arith, ap value e)))
      (bytes_checked (nonce_five ++ (replicate 16 7 ++ (1 ∷ []))) refl)
      (ap (λ c. nonce_five ++ c) (sym order_sealed)) (omega arith) (omega arith) (omega arith)
      (omega arith)
