-- ===== src/Lock/Advert/Hex.antt =====
-- The digits that advertise the system address.
use esloq.Base.{
  ℕ, ◌+◌, ◌-◌, ◌*◌, ◌<◌, ◌≡◌, refl, List, [], ◌∷◌, true, ◌==◌, ltb, if◌then◌else◌, every_below,
  every_below-at, arith, length, drop,
}
use esloq.Lock.Advert.{high_digit, low_digit, sr_data}

-- The value of a hexadecimal digit in lower case.
abbrev pub hex_value : ℕ → ℕ
hex_value d = if ltb d 58 then d - 48 else d - 87

digits_table :
    every_below 256 (λ b. hex_value (high_digit b) * 16 + hex_value (low_digit b) == b) ≡ true
unfolding every_below high_digit low_digit
digits_table = refl

-- A byte read back from its two digits.
abbrev pub read_byte : List ℕ → ℕ → ℕ
read_byte xs off = elim (drop off xs) [
  | [] ↦ 256
  | h ∷ rest ↦ elim rest [ [] ↦ 256 | l ∷ _ ↦ hex_value h * 16 + hex_value l ]
]

digits_lem : (b : ℕ) → b < 256 → hex_value (high_digit b) * 16 + hex_value (low_digit b) ≡ b
digits_lem b h = ground (arith, every_below-at 256 _ b h digits_table)

-- The advertised data are 26 bytes whose first byte is the length of the 18 after it; from offset 2
-- on, the pairs of bytes, three bytes apart and read as hexadecimal digits, are the six bytes of the system
-- address, the last one first.
pub sr_data-address :
    (a0 a1 a2 a3 a4 a5 : ℕ)
    → a0 < 256
    → a1 < 256
    → a2 < 256
    → a3 < 256
    → a4 < 256
    → a5 < 256
    → (length (sr_data a0 a1 a2 a3 a4 a5) ≡ 26)
      × (read_byte (sr_data a0 a1 a2 a3 a4 a5) 2 ≡ a5)
      × (read_byte (sr_data a0 a1 a2 a3 a4 a5) 5 ≡ a4)
      × (read_byte (sr_data a0 a1 a2 a3 a4 a5) 8 ≡ a3)
      × (read_byte (sr_data a0 a1 a2 a3 a4 a5) 11 ≡ a2)
      × (read_byte (sr_data a0 a1 a2 a3 a4 a5) 14 ≡ a1)
      × (read_byte (sr_data a0 a1 a2 a3 a4 a5) 17 ≡ a0)
unfolding sr_data
sr_data-address a0 a1 a2 a3 a4 a5 h0 h1 h2 h3 h4 h5 = (
  refl,
  digits_lem a5 h5,
  digits_lem a4 h4,
  digits_lem a3 h3,
  digits_lem a2 h2,
  digits_lem a1 h1,
  digits_lem a0 h0,
)
