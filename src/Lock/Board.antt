-- ===== src/Lock/Board.antt =====
-- The pins and peripherals that firmware/avr/src/main.c and button.c set up: watchdog, reset and
-- wake-up of the Bluetooth module, battery monitor, buttons, sleep.
pub mod Pins
use esloq.Base.{
  ℕ, ◌+◌, ◌*◌, ◌^◌, Bool, true, false, bit_is_set, set_bits, clear_bits, not, if◌then◌else◌,
}
use esloq.Mcu.{Mcu}
use esloq.Uart.{uart_not_ready_to_receive, uart_ready_to_receive}
use esloq.Lock.State.{rotate_ccw, rotate_cw}

-- `wdt_disable` is avr-libc's; of the registers here it is MCUSR that is written.
pub wdt_init : Mcu → Mcu
wdt_init mcu = record mcu { mcusr = 0 }

-- PIND3 high for 100 ms, then low; the first part is what the module sees.
pub ble_hard_reset : Mcu → Mcu × Mcu
ble_hard_reset mcu =
    let high = record mcu { portd = set_bits (2 ^ 3) mcu.portd } in
    (high, record high { portd = clear_bits (2 ^ 3) high.portd })

-- The source has `DDRD |= (1 < PIND3)`: a comparison, whose value is 1, where a shift is meant.
pub ble_hard_reset_init : Mcu → Mcu
ble_hard_reset_init mcu = record mcu {
  ddrd = set_bits 1 mcu.ddrd;
  portd = clear_bits (2 ^ 3) mcu.portd;
}

-- ACD = 7
battery_monitor_enable : Mcu → Mcu
battery_monitor_enable mcu = record mcu { acsr = clear_bits (2 ^ 7) mcu.acsr }

battery_monitor_disable : Mcu → Mcu
battery_monitor_disable mcu = record mcu { acsr = set_bits (2 ^ 7) mcu.acsr }

-- ADEN = 7, ACME = 6, MUX2 to MUX0 = 2 to 0, ACBG = 6
pub battery_monitor_init : Mcu → Mcu
unfolding battery_monitor_enable
battery_monitor_init mcu =
    let mcu' = battery_monitor_enable mcu in
    record mcu' {
      adcsra = clear_bits (2 ^ 7) mcu'.adcsra;
      adcsrb = set_bits (2 ^ 6) mcu'.adcsrb;
      admux = set_bits (2 ^ 2 + 2 ^ 1 + 2 ^ 0) mcu'.admux;
      acsr = set_bits (2 ^ 6) mcu'.acsr;
    }

-- `bit_is_set(ACSR, ACO)` with ACO = 5; ACO follows the comparator, so ACSR is read anew.
unfoldable pub battery_monitor_alert : ℕ → Bool
battery_monitor_alert acsr = bit_is_set acsr 5

-- PINC3
pub ble_wakeup : Mcu → Mcu
ble_wakeup mcu = record mcu { ddrc = set_bits (2 ^ 3) mcu.ddrc; portc = set_bits (2 ^ 3) mcu.portc }

ble_sleep : Mcu → Mcu
ble_sleep mcu = record mcu {
  ddrc = set_bits (2 ^ 3) mcu.ddrc;
  portc = clear_bits (2 ^ 3) mcu.portc;
}

-- INT0 = 0
wakeup_pin_enable : Mcu → Mcu
wakeup_pin_enable mcu = record mcu { eimsk = 2 ^ 0 }

wakeup_pin_disable : Mcu → Mcu
wakeup_pin_disable mcu = record mcu { eimsk = clear_bits (2 ^ 0) mcu.eimsk }

-- `ISR(INT0_vect)`
int0 : Mcu → Mcu
unfolding wakeup_pin_disable
int0 mcu = wakeup_pin_disable mcu

-- `power_down`, up to the wake-up by INT0 where it sleeps; the argument is PIND as it is read.
pub power_down : ℕ → Mcu → Mcu
unfolding ble_sleep battery_monitor_disable wakeup_pin_enable int0 battery_monitor_enable ble_wakeup
power_down pind mcu =
    let quiet = battery_monitor_disable (ble_sleep (uart_not_ready_to_receive mcu)) in
    let woken = if bit_is_set pind 2 then int0 (wakeup_pin_enable quiet) else quiet in
    uart_ready_to_receive (ble_wakeup (battery_monitor_enable woken))

-- PINC1 and PINC2; PCIE1 = 1, PCINT9 = 1, PCINT10 = 2
pub button_init : Mcu → Mcu
button_init mcu = record mcu {
  ddrc = clear_bits (2 ^ 1 + 2 ^ 2) mcu.ddrc;
  portc = set_bits (2 ^ 1 + 2 ^ 2) mcu.portc;
  pcicr = set_bits (2 ^ 1) mcu.pcicr;
  pcmsk1 = set_bits (2 ^ 1 + 2 ^ 2) mcu.pcmsk1;
}

-- `ISR(PCINT1_vect)`: PINC as it is read, and `request` before and after.
pub pcint1 : ℕ → ℕ → ℕ
pcint1 pinc request =
    if not (bit_is_set pinc 1)
    then rotate_cw
    else if not (bit_is_set pinc 2)
    then rotate_ccw
    else request
