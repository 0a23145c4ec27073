-- ===== src/Motor/Wait.antt =====
-- A rotation ends, and leaves the motor at rest.
use esloq.Base.{
  subst, ok-injective, ℕ, zero, suc, ◌+◌, ◌^◌, ◌≤◌, ◌<◌, ◌≡◌, refl, ap, ◌∙◌, List, [], ◌∷◌, Bool,
  true, false, ◌&&◌, ◌⊎◌, inl, inr, ok, ltb, arith, Bool-cases, bit_is_set, bit_and, every_below,
  every_below-at, ◌==◌, not, clear_bits, set_bits,
}
use esloq.Mcu.{Mcu}
use esloq.Timer.{timer0_ovf, timer_8bit_start, timer_8bit_stop}
use esloq.Motor.{
  rotate_motor_cw, rotate_motor_ccw, locked, unlocked, Poll, Rotation, motor_timer_threshold,
  overflow_times, wait_jam, motor_ctrl_rotate_cw, motor_ctrl_rotate_ccw, dc_motor_turn_cw,
  dc_motor_turn_ccw, dc_motor_halt, m1, m2, enable_current_sense, disable_current_sense,
}
use esloq.Motor.Pins.{Drives, dc_motor_Drives}

-- Interrupts and polls only count: every other register stays.
overflow_times_counts :
    (n : ℕ) (mcu : Mcu)
    → overflow_times n mcu ≡ record mcu { timer_8bit_ovf = (overflow_times n mcu).timer_8bit_ovf }
unfolding overflow_times timer0_ovf
overflow_times_counts zero mcu = refl
overflow_times_counts (suc n) mcu = overflow_times_counts n (timer0_ovf mcu)

timer_8bit_ovf-overflow_times :
    (n : ℕ) (mcu : Mcu)
    → mcu.timer_8bit_ovf + n < 2 ^ 16
    → (overflow_times n mcu).timer_8bit_ovf ≡ mcu.timer_8bit_ovf + n
unfolding overflow_times timer0_ovf
timer_8bit_ovf-overflow_times zero mcu h = omega arith
timer_8bit_ovf-overflow_times (suc n) mcu h =
    omega (arith, timer_8bit_ovf-overflow_times n (timer0_ovf mcu) (omega arith))

-- Before each poll fewer overflows come than bring the 16-bit counter round.
abbrev pub NoWrap : List Poll → Type 0
NoWrap [] = Unit {0}
NoWrap (p ∷ ps) = (p.overflows ≤ 60000) × NoWrap ps

abbrev pub total_overflows : List Poll → ℕ
total_overflows [] = 0
total_overflows (p ∷ ps) = p.overflows + total_overflows ps

-- The loop ends at the latest when the timer has overflowed often enough.
wait_jam-ends :
    (ps : List Poll) (mcu : Mcu)
    → NoWrap ps
    → mcu.timer_8bit_ovf < motor_timer_threshold
    → motor_timer_threshold ≤ mcu.timer_8bit_ovf + total_overflows ps
    → (after : Mcu) × (wait_jam ps mcu ≡ ok after)
unfolding wait_jam
wait_jam-ends [] mcu w lo hi = absurd (omega arith)
wait_jam-ends (p ∷ ps) mcu w lo hi =
    let counted = timer_8bit_ovf-overflow_times p.overflows mcu (omega arith) in
    let mcu' = overflow_times p.overflows mcu in
    elim (Bool-cases (p.sense && ltb mcu'.timer_8bit_ovf motor_timer_threshold)) [
      | inl on ↦ (
        (wait_jam-ends ps mcu' w.1 (ground arith) (omega arith)).0,
        rw on (wait_jam-ends ps mcu' w.1 (ground arith) (omega arith)).1,
      )
      | inr off ↦ (mcu', rw off)
    ]

wait_jam_counts :
    (ps : List Poll) (mcu after : Mcu)
    → wait_jam ps mcu ≡ ok after
    → after ≡ record mcu { timer_8bit_ovf = after.timer_8bit_ovf }
unfolding wait_jam
wait_jam_counts [] mcu after e = ground arith
wait_jam_counts (p ∷ ps) mcu after e =
    let mcu' = overflow_times p.overflows mcu in
    elim (Bool-cases (p.sense && ltb mcu'.timer_8bit_ovf motor_timer_threshold)) [
      | inl on ↦
          wait_jam_counts ps mcu' after (rw on at e)
          ∙ ap (λ (m : Mcu). record m { timer_8bit_ovf = after.timer_8bit_ovf })
              (overflow_times_counts p.overflows mcu)
      | inr off ↦
          let same : mcu' ≡ after = ok-injective (rw off at e) in
          subst (λ (m : Mcu). m ≡ record mcu { timer_8bit_ovf = m.timer_8bit_ovf }) same
            (overflow_times_counts p.overflows mcu)
    ]

-- A poll reads the alert of the current sense.
abbrev pub Jams : List Poll → Type 0
Jams [] = ⊥
Jams (p ∷ ps) = (p.sense ≡ false) ⊎ Jams ps

-- The loop ends for no other reason than a jam or the timeout.
wait_jam-reason :
    (ps : List Poll) (mcu after : Mcu)
    → wait_jam ps mcu ≡ ok after
    → Jams ps ⊎ (motor_timer_threshold ≤ after.timer_8bit_ovf)
unfolding wait_jam
wait_jam-reason [] mcu after e = ground arith
wait_jam-reason (p ∷ ps) mcu after e =
    let mcu' = overflow_times p.overflows mcu in
    elim (Bool-cases (p.sense && ltb mcu'.timer_8bit_ovf motor_timer_threshold)) [
      | inl on ↦ elim (wait_jam-reason ps mcu' after (rw on at e)) [
        | inl jam ↦ inl (inr jam)
        | inr late ↦ inr late
      ]
      | inr off ↦
          let same : mcu' ≡ after = ok-injective (rw off at e) in
          subst (λ (m : Mcu). Jams (p ∷ ps) ⊎ (motor_timer_threshold ≤ m.timer_8bit_ovf)) same
            (ground arith)
    ]

sense_table :
    every_below 256 (λ p.
      not (bit_is_set (clear_bits 2 (set_bits 2 p)) 1)
      && ((bit_and (clear_bits 2 (set_bits 2 p)) 253 == bit_and p 253)
          && ltb (clear_bits 2 (set_bits 2 p)) 256))
    ≡ true
unfolding every_below
sense_table = refl

sense_off :
    (p : ℕ)
    → p < 256
    → (bit_is_set (clear_bits 2 (set_bits 2 p)) 1 ≡ false)
      × (bit_and (clear_bits 2 (set_bits 2 p)) 253 ≡ bit_and p 253)
      × (clear_bits 2 (set_bits 2 p) < 256)
sense_off p h = ground (arith, every_below-at 256 _ p h sense_table)

-- The registers when the wait loop starts.
abbrev waiting_at : Rotation → Mcu → Mcu
waiting_at rotation turned =
    enable_current_sense (overflow_times rotation.during_delay (timer_8bit_start 256 true turned))

-- The interrupts given bring the timer to its threshold, and never round.
pub record IsLongEnough (rotation : Rotation) : Type 0 where
  pub early : rotation.during_delay < motor_timer_threshold
  pub no_wrap : NoWrap rotation.polls
  pub late : motor_timer_threshold ≤ rotation.during_delay + total_overflows rotation.polls

waits :
    (rotation : Rotation) (turned : Mcu)
    → IsLongEnough rotation
    → (waited : Mcu) × (wait_jam rotation.polls (waiting_at rotation turned) ≡ ok waited)
      × (waited.portd ≡ turned.portd)
      × (waited.portb ≡ set_bits 2 turned.portb)
      × (waited.driven ≡ turned.driven)
unfolding enable_current_sense timer_8bit_start
waits rotation turned long =
    let start = waiting_at rotation turned in
    let started = timer_8bit_start 256 true turned in
    let counted =
      timer_8bit_ovf-overflow_times rotation.during_delay started (omega (arith, long.early)) in
    let same = overflow_times_counts rotation.during_delay started in
    let (waited, e) =
      wait_jam-ends rotation.polls start long.no_wrap (omega (arith, long.early, counted))
        (omega (arith, long.late, counted)) in
    let kept = wait_jam_counts rotation.polls start waited e in
    (
      waited,
      e,
      ap (λ (m : Mcu). m.portd) kept ∙ ap (λ (m : Mcu). m.portd) same,
      ap (λ (m : Mcu). m.portb) kept ∙ ap (λ (m : Mcu). set_bits 2 m.portb) same,
      ap (λ (m : Mcu). m.driven) kept ∙ ap (λ (m : Mcu). m.driven) same,
    )

-- What a finished rotation leaves: port D has been written twice, first to turn the motor in the
-- direction given and then to halt it; both motor pins are low, the current sense is off, and the other
-- bits of the two ports are as they were; and why it has ended.
pub record AtRest (rotation : Rotation) (clockwise : Bool) (before after : Mcu) : Type 0 where
  pub turning : ℕ
  pub drove : after.driven ≡ after.portd ∷ turning ∷ before.driven
  pub direction : Drives clockwise (not clockwise) before.portd turning
  pub pins : Drives false false before.portd after.portd
  pub sense_low : bit_is_set after.portb 1 ≡ false
  pub portb_kept : bit_and after.portb 253 ≡ bit_and before.portb 253
  pub portb_byte : after.portb < 256
  pub reason : Jams rotation.polls ⊎ (motor_timer_threshold ≤ after.timer_8bit_ovf)

halts-AtRest :
    (rotation : Rotation) (clockwise : Bool) (mcu turned waited : Mcu)
    → mcu.portb < 256
    → Drives clockwise (not clockwise) mcu.portd turned.portd
    → turned.portb ≡ mcu.portb
    → turned.driven ≡ turned.portd ∷ mcu.driven
    → waited.portd ≡ turned.portd
    → waited.portb ≡ set_bits 2 turned.portb
    → waited.driven ≡ turned.driven
    → Jams rotation.polls ⊎ (motor_timer_threshold ≤ waited.timer_8bit_ovf)
    → AtRest rotation clockwise mcu (dc_motor_halt (disable_current_sense (timer_8bit_stop waited)))
unfolding disable_current_sense timer_8bit_stop dc_motor_halt
halts-AtRest rotation clockwise mcu turned waited hb turns same_b written d b v why =
    let off = sense_off mcu.portb hb in
    let port : waited.portb ≡ set_bits 2 mcu.portb = b ∙ ap (set_bits 2) same_b in
    let halted_pins = (dc_motor_Drives waited (rw d turns.3)).2 in
    record {
      turning = turned.portd;
      drove = ap (λ l. clear_bits (m1 + m2) waited.portd ∷ l) (v ∙ written);
      direction = turns;
      pins = (
        halted_pins.0,
        halted_pins.1,
        halted_pins.2 ∙ ap (λ n. bit_and n 0x9f) d ∙ turns.2,
        halted_pins.3,
      );
      sense_low = rw port off.0;
      portb_kept = rw port off.1;
      portb_byte = rw port off.2;
      reason = why;
    }

pub rotate_motor-AtRest :
    (rotation : Rotation) (mcu : Mcu)
    → IsLongEnough rotation
    → mcu.portd < 256
    → mcu.portb < 256
    → ((after : Mcu) × (rotate_motor_cw rotation mcu ≡ ok (after, locked))
        × AtRest rotation true mcu after)
      × ((after : Mcu) × (rotate_motor_ccw rotation mcu ≡ ok (after, unlocked))
          × AtRest rotation false mcu after)
unfolding rotate_motor_cw rotate_motor_ccw motor_ctrl_rotate_cw motor_ctrl_rotate_ccw
rotate_motor-AtRest rotation mcu long hd hb =
    let turns = dc_motor_Drives mcu hd in
    let (cw, cw_ends, cw_d, cw_b, cw_v) = waits rotation (dc_motor_turn_cw mcu) long in
    let (ccw, ccw_ends, ccw_d, ccw_b, ccw_v) = waits rotation (dc_motor_turn_ccw mcu) long in
    let end = λ (m : Mcu). dc_motor_halt (disable_current_sense (timer_8bit_stop m)) in
    (
      (
        end cw,
        rw cw_ends,
        halts-AtRest rotation true mcu (dc_motor_turn_cw mcu) cw hb turns.0
            (unfold dc_motor_turn_cw in refl) (unfold dc_motor_turn_cw in refl) cw_d cw_b cw_v
            (wait_jam-reason rotation.polls (waiting_at rotation (dc_motor_turn_cw mcu)) cw
              cw_ends),
      ),
      (
        end ccw,
        rw ccw_ends,
        halts-AtRest rotation false mcu (dc_motor_turn_ccw mcu) ccw hb turns.1
            (unfold dc_motor_turn_ccw in refl) (unfold dc_motor_turn_ccw in refl) ccw_d ccw_b ccw_v
            (wait_jam-reason rotation.polls (waiting_at rotation (dc_motor_turn_ccw mcu)) ccw
              ccw_ends),
      ),
    )
