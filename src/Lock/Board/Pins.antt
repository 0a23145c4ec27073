-- ===== src/Lock/Board/Pins.antt =====
-- What the set-up of the reset line leaves in the registers, and which request a button leaves.
use esloq.Base.{
  ◌<◌, ◌≡◌, refl, Bool, true, false, ◌&&◌, not, bit_is_set, set_bits, clear_bits, every_below,
  every_below-at, arith,
}
use esloq.Mcu.{Mcu}
use esloq.Lock.Board.{ble_hard_reset_init, ble_hard_reset}

same_bit : Bool → Bool → Bool
same_bit true b = b
same_bit false b = not b

same_bit_lem : (a b : Bool) → same_bit a b ≡ true → a ≡ b
unfolding same_bit
same_bit_lem true true h = refl
same_bit_lem true false h = cc
same_bit_lem false true h = cc
same_bit_lem false false h = refl

direction_table :
    every_below 256 (λ p. same_bit (bit_is_set (set_bits 1 p) 3) (bit_is_set p 3)) ≡ true
unfolding every_below same_bit
direction_table = refl

port_table :
    every_below 256 (λ p.
      not (bit_is_set (clear_bits 8 p) 3)
      && (bit_is_set (set_bits 8 p) 3 && not (bit_is_set (clear_bits 8 (set_bits 8 p)) 3)))
    ≡ true
unfolding every_below
port_table = refl

-- The pulse on the reset line, pin 3 of port D, goes high and ends low, but setting the line up does
-- not make it an output: bit 3 of DDRD is afterwards what it was before, since the source compares
-- where a shift is meant.
pub ble_hard_reset-line :
    (mcu : Mcu)
    → mcu.ddrd < 256
    → mcu.portd < 256
    → (bit_is_set (ble_hard_reset_init mcu).ddrd 3 ≡ bit_is_set mcu.ddrd 3)
      × (bit_is_set (ble_hard_reset_init mcu).portd 3 ≡ false)
      × (bit_is_set (ble_hard_reset mcu).0.portd 3 ≡ true)
      × (bit_is_set (ble_hard_reset mcu).1.portd 3 ≡ false)
unfolding ble_hard_reset_init ble_hard_reset
ble_hard_reset-line mcu hd hp =
    let port = every_below-at 256 _ mcu.portd hp port_table in
    (
      same_bit_lem _ _ (every_below-at 256 _ mcu.ddrd hd direction_table),
      ground arith,
      ground arith,
      ground arith,
    )
