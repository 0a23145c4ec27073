-- ===== src/Motor/Pins.antt =====
-- The two motor pins are never high together, and no other pin of port D is touched.
use esloq.Base.{
  ℕ, ◌+◌, ◌<◌, ◌≡◌, refl, Bool, true, false, ◌&&◌, not, ltb, ◌==◌, bit_and, bit_is_set, set_bits,
  clear_bits, every_below, every_below-at, arith,
}
use esloq.Mcu.{Mcu}
use esloq.Motor.{m1, m2, dc_motor_turn_cw, dc_motor_turn_ccw, dc_motor_halt, dc_motor_init}

-- What a write to the pins leaves of port D: M1 and M2 as stated, and the other bits as before.
abbrev pub Drives : Bool → Bool → ℕ → ℕ → Type 0
Drives cw ccw before after =
    (bit_is_set after 5 ≡ cw)
    × (bit_is_set after 6 ≡ ccw)
    × (bit_and after 0x9f ≡ bit_and before 0x9f)
    × (after < 256)

abbrev eqb : Bool → Bool → Bool
eqb true b = b
eqb false b = not b

abbrev drives : Bool → Bool → ℕ → ℕ → Bool
drives cw ccw before after =
    eqb cw (bit_is_set after 5)
    && (eqb ccw (bit_is_set after 6)
        && ((bit_and after 0x9f == bit_and before 0x9f) && ltb after 256))

drives-Drives :
    (cw ccw : Bool) (before after : ℕ)
    → drives cw ccw before after ≡ true
    → Drives cw ccw before after
drives-Drives cw ccw before after h = ground arith

turn_cw_table : every_below 256 (λ p. drives true false p (set_bits m1 (clear_bits m2 p))) ≡ true
unfolding every_below
turn_cw_table = refl

turn_ccw_table : every_below 256 (λ p. drives false true p (set_bits m2 (clear_bits m1 p))) ≡ true
unfolding every_below
turn_ccw_table = refl

halt_table : every_below 256 (λ p. drives false false p (clear_bits (m1 + m2) p)) ≡ true
unfolding every_below
halt_table = refl

-- Turning one way raises that pin and lowers the other, halting and initialising lower both, and no
-- other pin of port D changes: from every value of the port.
pub dc_motor_Drives :
    (mcu : Mcu)
    → mcu.portd < 256
    → Drives true false mcu.portd (dc_motor_turn_cw mcu).portd
      × Drives false true mcu.portd (dc_motor_turn_ccw mcu).portd
      × Drives false false mcu.portd (dc_motor_halt mcu).portd
      × Drives false false mcu.portd (dc_motor_init mcu).portd
unfolding dc_motor_turn_cw dc_motor_turn_ccw dc_motor_halt dc_motor_init
dc_motor_Drives mcu h = (
  drives-Drives _ _ _ _ (every_below-at 256 _ mcu.portd h turn_cw_table),
  drives-Drives _ _ _ _ (every_below-at 256 _ mcu.portd h turn_ccw_table),
  drives-Drives _ _ _ _ (every_below-at 256 _ mcu.portd h halt_table),
  drives-Drives _ _ _ _ (every_below-at 256 _ mcu.portd h halt_table),
)
