-- ===== src/Tests/Life.antt =====
-- A lock over its restarts.
use esloq.Base.{
  ◌≤◌, some-injective, ℕ, ◌%◌, ◌≡◌, refl, subst, List, [], ◌∷◌, map, take, ok, halted, waiting,
  replicate, arith, ◌==◌, Bool-cases, inl, inr, false, slice, copy_into, ap,
}
use esloq.Nonce.Order.{AllBytes, value}
use esloq.Nonce.{compare_from, is_greater_than, is_valid_ticket_nonce}
use esloq.Crypto.{crypto_auth_decrypt}
use esloq.Lock.State.{State, Machine}
use esloq.Lock.Handlers.Steady.{HoldsBytes}
use esloq.Lock.Ticket.{process_ticket_msg}
use esloq.Lock.Fsm.{fsm_process, dispatch, after_ticket}
use esloq.Lock.Respond.{reset_msg_buffer}
use esloq.Uart.{uart_rx, receive}
use esloq.Lock.Loop.{LoopInputs, main_step, main_init, ble_process_packet, receive_into}
use esloq.Lock.Loop.Steady.{GivesBytes}
use esloq.Lock.Reset.{Turn, Later, reboot, start_up}
use esloq.Lock.Reset.Safety.{Later-master_nonce, ticket_once}
use esloq.Lock.WellFormed.{IsWellFormed, nonce_of}
use esloq.Tests.Setup.{
  plain_box, plain_box-IsSecretBox, bg, board, machine, zero_nonce, machine-IsWellFormed,
  forged_message, long_rotation,
}

AllBytes-map : (xs : List ℕ) → AllBytes (map (λ v. v % 256) xs)
AllBytes-map [] = tt
AllBytes-map (x ∷ xs) = (omega arith, AllBytes-map xs)

pub bg-GivesBytes : GivesBytes bg
bg-GivesBytes [] payload message e = cc
bg-GivesBytes (a ∷ []) payload message e = cc
bg-GivesBytes (a ∷ b ∷ []) payload message e = cc
bg-GivesBytes (a ∷ b ∷ c ∷ []) payload message e = cc
bg-GivesBytes (a ∷ b ∷ c ∷ d ∷ []) payload message e = elim (Bool-cases (d == 1)) [
  | inl status ↦ subst (λ f. HoldsBytes (f payload)) (some-injective (rw status at e)) tt
  | inr other ↦ elim (Bool-cases (d == 2)) [
    | inl value ↦
        subst (λ f. HoldsBytes (f payload)) (some-injective (rw (other, value) at e))
          (AllBytes-map (take b payload))
    | inr unknown ↦ let impossible = rw (other, unknown) at e in cc
  ]
]
bg-GivesBytes (a ∷ b ∷ c ∷ d ∷ f ∷ hdr) payload message e = cc

-- The bytes of a packet do not come.
abbrev silence : LoopInputs
silence = record {
  fsm = record { windows = []; acsr = 0; pind = 0; rotation = long_rotation };
  header_slots = [];
  body_slots = [];
  stack = replicate 60 0;
  handler_windows = [];
  presses = [];
  presses_turning = [];
  rotation = long_rotation;
}

abbrev with_forged : Machine
with_forged = machine State.ticket forged_message

with_forged-IsWellFormed : IsWellFormed with_forged
with_forged-IsWellFormed =
    machine-IsWellFormed zero_nonce zero_nonce State.ticket forged_message refl refl refl refl refl
      refl

abbrev stopped : Machine
stopped = (main_step plain_box bg silence with_forged).0

forged_turn : main_step plain_box bg silence with_forged ≡ (stopped, halted waiting)
unfolding main_step fsm_process dispatch after_ticket process_ticket_msg reset_msg_buffer slice
    copy_into crypto_auth_decrypt compare_from is_greater_than is_valid_ticket_nonce
    ble_process_packet receive_into uart_rx receive
forged_turn = refl

-- The turn ends by a reset, and the lock loses its power once more.
stopped-Turn : Turn plain_box bg silence with_forged (reboot board stopped)
stopped-Turn = Turn.restarts waiting board forged_turn (λ e. cc)

abbrev after_all : Machine
after_all = reboot board (reboot board stopped)

empty_at_start : (m : Machine) → nonce_of (reboot board m) ≡ replicate 24 0
unfolding reboot main_init start_up
empty_at_start m = refl

Later-master_nonce_example :
    (value with_forged.master_nonce_eeprom ≤ value after_all.master_nonce_eeprom)
    × (after_all.master_key_eeprom ≡ with_forged.master_key_eeprom)
Later-master_nonce_example =
    Later-master_nonce plain_box plain_box-IsSecretBox bg bg-GivesBytes with_forged-IsWellFormed
      (Later.loses_power (Later.turns Later.now silence stopped-Turn) board)

ticket_once_example : process_ticket_msg plain_box bg [] false after_all ≡ (after_all, ok 1)
ticket_once_example =
    ticket_once plain_box plain_box-IsSecretBox bg bg-GivesBytes silence [] false
      with_forged-IsWellFormed refl stopped-Turn (Later.loses_power Later.now board)
      (omega (arith, ap value (empty_at_start (reboot board stopped))))
