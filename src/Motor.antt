-- ===== src/Motor.antt =====
-- firmware/avr/src/dc_motor.c, motor_control.c and requests.c: the two pins that drive the motor,
-- a rotation until the motor jams or ten seconds have gone, and the codes answered.
pub mod Pins
pub mod Wait
use esloq.Base.{
  ℕ, zero, suc, ◌+◌, ◌-◌, ◌*◌, ◌/◌, ◌^◌, List, [], ◌∷◌, Bool, true, ◌&&◌, Outcome, ok, halted,
  waiting, ◌>>=◌, ltb, if◌then◌else◌, set_bits, clear_bits,
}
use esloq.Mcu.{Mcu, f_cpu}
use esloq.Timer.{timer_8bit_start, timer_8bit_stop, timer_get_8bit_ovf, timer0_ovf}

-- Each write to the pins is recorded in `driven`. M1 is PIND5 and M2 is PIND6, on port D.
abbrev pub m1 : ℕ
m1 = 2 ^ 5

abbrev pub m2 : ℕ
m2 = 2 ^ 6

pub dc_motor_turn_cw : Mcu → Mcu
dc_motor_turn_cw mcu =
    let portd' = set_bits m1 (clear_bits m2 mcu.portd) in
    record mcu { portd = portd'; driven = portd' ∷ mcu.driven }

pub dc_motor_turn_ccw : Mcu → Mcu
dc_motor_turn_ccw mcu =
    let portd' = set_bits m2 (clear_bits m1 mcu.portd) in
    record mcu { portd = portd'; driven = portd' ∷ mcu.driven }

pub dc_motor_halt : Mcu → Mcu
dc_motor_halt mcu =
    let portd' = clear_bits (m1 + m2) mcu.portd in
    record mcu { portd = portd'; driven = portd' ∷ mcu.driven }

pub dc_motor_init : Mcu → Mcu
dc_motor_init mcu =
    let portd' = clear_bits (m1 + m2) mcu.portd in
    record mcu { ddrd = set_bits (m1 + m2) mcu.ddrd; portd = portd'; driven = portd' ∷ mcu.driven }

-- PINB1
pub enable_current_sense : Mcu → Mcu
enable_current_sense mcu = record mcu { portb = set_bits (2 ^ 1) mcu.portb }

pub disable_current_sense : Mcu → Mcu
disable_current_sense mcu = record mcu { portb = clear_bits (2 ^ 1) mcu.portb }

-- `MOTOR_TIMEOUT`, in milliseconds
abbrev motor_timeout : ℕ
motor_timeout = 10000

abbrev pub motor_timer_threshold : ℕ
motor_timer_threshold = f_cpu / 256 / 256 * motor_timeout / 1000 - 1

-- One turn of the wait loop: the overflow interrupts taken since the last one, and whether bit 0 of
-- PINB, the current sense alert, is read as set.
pub record Poll : Type 0 where
  pub overflows : ℕ
  pub sense : Bool

-- What happens while a rotation runs: the overflow interrupts during the 400 ms of start-up current,
-- then the polls; and the bytes that the UART receives meanwhile, which `Request` hands on.
pub record Rotation : Type 0 where
  pub during_delay : ℕ
  pub polls : List Poll
  pub arrivals : List ℕ

overflow_times : ℕ → Mcu → Mcu
overflow_times zero mcu = mcu
overflow_times (suc n) mcu = overflow_times n (timer0_ovf mcu)

-- `while(bit_is_set(PINB,0) && (timer_get_8bit_ovf() < MOTOR_TIMER_THRESHOLD));`
wait_jam : List Poll → Mcu → Outcome Mcu
wait_jam [] mcu = halted waiting
wait_jam (p ∷ ps) mcu =
    let mcu' = overflow_times p.overflows mcu in
    let rest = wait_jam ps mcu' in
    if p.sense && ltb (timer_get_8bit_ovf mcu') motor_timer_threshold then rest else ok mcu'

pub motor_ctrl_rotate_cw : Rotation → Mcu → Outcome Mcu
motor_ctrl_rotate_cw rotation mcu = do
  let turning = timer_8bit_start 256 true (dc_motor_turn_cw mcu)
  let started = overflow_times rotation.during_delay turning
  waited ← wait_jam rotation.polls (enable_current_sense started)
  ok (dc_motor_halt (disable_current_sense (timer_8bit_stop waited)))

pub motor_ctrl_rotate_ccw : Rotation → Mcu → Outcome Mcu
motor_ctrl_rotate_ccw rotation mcu = do
  let turning = timer_8bit_start 256 true (dc_motor_turn_ccw mcu)
  let started = overflow_times rotation.during_delay turning
  waited ← wait_jam rotation.polls (enable_current_sense started)
  ok (dc_motor_halt (disable_current_sense (timer_8bit_stop waited)))

pub motor_ctrl_init : Mcu → Mcu
unfolding dc_motor_init disable_current_sense
motor_ctrl_init mcu =
    let mcu' = dc_motor_init mcu in
    let ddrb' = clear_bits (2 ^ 0) (set_bits (2 ^ 1) mcu'.ddrb) in
    let portb' = set_bits (2 ^ 0) mcu'.portb in
    disable_current_sense (record mcu' { ddrb = ddrb'; portb = portb' })

-- responses.h
abbrev pub unlocked : ℕ
unlocked = 0

abbrev pub locked : ℕ
locked = 1

-- The registers after the call, and the response code.
pub rotate_motor_ccw : Rotation → Mcu → Outcome (Mcu × ℕ)
rotate_motor_ccw rotation mcu = do mcu' ← motor_ctrl_rotate_ccw rotation mcu; ok (mcu', unlocked)

pub rotate_motor_cw : Rotation → Mcu → Outcome (Mcu × ℕ)
rotate_motor_cw rotation mcu = do mcu' ← motor_ctrl_rotate_cw rotation mcu; ok (mcu', locked)
