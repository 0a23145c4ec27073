-- ===== src/Lock/Advert.antt =====
-- The advertising data of firmware/avr/src/main.c: `set_adv_parameters`, `process_adv_param_set` and
-- `process_adv_data_set`, which writes the system address in hexadecimal.
pub mod Ends
pub mod Hex
pub mod Steady
use esloq.Base.{
  ℕ, ◌+◌, ◌*◌, ◌/◌, List, [], ◌∷◌, ◌++◌, Outcome, in_bounds, get_elem?, bit_and, replicate,
  ◌>>=◌ as bind, ok,
}
use esloq.Uart.{Window}
use esloq.Lock.State.{State, Machine, BgLib, gap_set_adv_parameters, gap_set_adv_data}
use esloq.Lock.Monad.{M, ◌>>=◌, ◌>>◌, lift, get, modify}
use esloq.Lock.Send.{ble_cmd}

unfoldable pub set_adv_parameters : BgLib → List Window → M (Unit {0})
set_adv_parameters bg ws = ble_cmd bg ws (gap_set_adv_parameters 320 350 7)

abbrev pub adv_data : List ℕ
adv_data =
    0x02 ∷ 0x01 ∷ 0x06 ∷ 0x11 ∷ 0x07 ∷ 0x5b ∷ 0xd4 ∷ 0xe8 ∷ 0x2a ∷ 0xee ∷ 0xca ∷ 0x2a ∷ 0x88 ∷ 0x97
    ∷ 0x45 ∷ 0x10 ∷ 0xd5 ∷ 0x27 ∷ 0xf9 ∷ 0x2c ∷ 0x30 ∷ []

unfoldable pub process_adv_param_set : BgLib → List Window → M (Unit {0})
process_adv_param_set bg ws = do
  ble_cmd bg ws (gap_set_adv_data 0 21 adv_data)
  modify (λ m. record m { state = State.adv_data_set_w })

-- The two digits of a byte, as the source computes them.
high_digit : ℕ → ℕ
high_digit b = b / 16 + 48 + b / 16 / 10 * 39

low_digit : ℕ → ℕ
low_digit b = bit_and b 0x0f + 48 + bit_and b 0x0f / 10 * 39

-- `sr_data`, from the six bytes of the address.
pub sr_data : ℕ → ℕ → ℕ → ℕ → ℕ → ℕ → List ℕ
unfolding high_digit low_digit
sr_data a0 a1 a2 a3 a4 a5 =
    18
    ∷ 0xff
    ∷ high_digit a5
    ∷ low_digit a5
    ∷ 0x3a
    ∷ high_digit a4
    ∷ low_digit a4
    ∷ 0x3a
    ∷ high_digit a3
    ∷ low_digit a3
    ∷ 0x3a
    ∷ high_digit a2
    ∷ low_digit a2
    ∷ 0x3a
    ∷ high_digit a1
    ∷ low_digit a1
    ∷ 0x3a
    ∷ high_digit a0
    ∷ low_digit a0
    ∷ 6
    ∷ 9
    ∷ b'e'
    ∷ b's'
    ∷ b'l'
    ∷ b'o'
    ∷ b'q'
    ∷ []

unfoldable pub process_adv_data_set : BgLib → List Window → M (Unit {0})
process_adv_data_set bg ws = do
  m ← get
  a0 ← lift (in_bounds (get_elem? m.system_address 0))
  a1 ← lift (in_bounds (get_elem? m.system_address 1))
  a2 ← lift (in_bounds (get_elem? m.system_address 2))
  a3 ← lift (in_bounds (get_elem? m.system_address 3))
  a4 ← lift (in_bounds (get_elem? m.system_address 4))
  a5 ← lift (in_bounds (get_elem? m.system_address 5))
  ble_cmd bg ws (gap_set_adv_data 1 26 (sr_data a0 a1 a2 a3 a4 a5))
  modify (λ s. record s { state = State.adv_sr_data_set_w })
