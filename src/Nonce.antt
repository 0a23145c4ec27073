-- ===== src/Nonce.antt =====
-- The nonce functions of firmware/avr/src/main.c: the comparison of two byte arrays, the validity
-- tests built on it, and the increment. Indices are `uint8_t`, so they wrap at 256, and an access
-- outside the array halts with `out_of_bounds`.
pub mod Order
pub mod Reversal
pub mod Increment
use esloq.Base.{
  ℕ, zero, suc, ◌+◌, ◌%◌, List, Outcome, ok, halted, Stop, out_of_bounds, waiting, none, some, ltb,
  ◌==◌, if◌then◌else◌, get_elem?, set,
}

abbrev pub nonce_len : ℕ
nonce_len = 24

-- The loop of `is_greater_than` with `left` rounds to go.
unfoldable pub compare_from : ℕ → ℕ → List ℕ → List ℕ → Outcome ℕ
compare_from zero i a b = ok 0
compare_from (suc left) i a b = elim (get_elem? a i) [
  | none ↦ halted out_of_bounds
  | some x ↦ elim (get_elem? b i) [
    | none ↦ halted out_of_bounds
    | some y ↦
        let rest = compare_from left (i + 1) a b in
        if ltb x y then ok 0 else if ltb y x then ok 1 else rest
  ]
]

unfoldable pub is_greater_than : List ℕ → List ℕ → ℕ → Outcome ℕ
is_greater_than a b length = compare_from length 0 a b

unfoldable pub is_valid_ticket_nonce : List ℕ → List ℕ → Outcome ℕ
unfolding is_greater_than
is_valid_ticket_nonce nonce master_nonce = is_greater_than nonce master_nonce nonce_len

-- The global `session_nonce` is an argument.
pub is_valid_session_nonce : List ℕ → List ℕ → Outcome ℕ
unfolding is_greater_than
is_valid_session_nonce nonce session_nonce = is_greater_than nonce session_nonce nonce_len

-- The loop of `increment_array`. Its test `i >= 0` holds of every `uint8_t`, so the loop ends only
-- by the `return`; `i--` at 0 gives 255.
unfoldable pub increment_from : ℕ → ℕ → List ℕ → Outcome (List ℕ)
increment_from zero i array = halted waiting
increment_from (suc fuel) i array = elim (get_elem? array i) [
  | none ↦ halted out_of_bounds
  | some x ↦
      let rest = increment_from fuel ((i + 255) % 256) (set array i 0) in
      if x == 255 then rest else ok (set array i (x + 1))
]

-- `length` bytes and one access past them: 257 rounds are never all used.
unfoldable pub increment_array : List ℕ → ℕ → Outcome (List ℕ)
unfolding increment_from
increment_array array length = increment_from 257 ((length + 255) % 256) array
