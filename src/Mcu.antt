-- ===== src/Mcu.antt =====
-- The registers of the ATmega328P (the MCU of firmware/avr/Makefile) that the firmware writes, each
-- a byte but for TCNT1, with the counter of firmware/avr/src/timer.c and a record of what
-- firmware/avr/src/dc_motor.c has written to the port of the motor. Bit numbers that avr-libc
-- names are those of the data sheet.
use esloq.Base.{ℕ, List, ◌≡◌, ◌∙◌}

pub record Mcu : Type 0 where
  pub portb : ℕ
  pub ddrb : ℕ
  pub portc : ℕ
  pub ddrc : ℕ
  pub portd : ℕ
  pub ddrd : ℕ
  pub acsr : ℕ
  pub adcsra : ℕ
  pub adcsrb : ℕ
  pub admux : ℕ
  pub mcusr : ℕ
  pub eimsk : ℕ
  pub pcicr : ℕ
  pub pcmsk1 : ℕ
  pub ucsr0b : ℕ
  pub spcr : ℕ
  pub ubrr0h : ℕ
  pub ubrr0l : ℕ
  pub tccr0b : ℕ
  pub tcnt0 : ℕ
  pub timsk0 : ℕ
  pub tccr1b : ℕ
  pub tcnt1 : ℕ
  pub timer_8bit_ovf : ℕ  -- volatile uint16_t
  pub driven : List ℕ  -- what dc_motor.c has written to PORTD, latest first

-- The clock frequency that the Makefile passes, in Hz.
abbrev pub f_cpu : ℕ
f_cpu = 8000000

-- The two ports that the motor is driven by are as before, and the motor has not been driven.
abbrev pub SamePorts : Mcu → Mcu → Type 0
SamePorts before after =
    (after.portd ≡ before.portd) × (after.portb ≡ before.portb) × (after.driven ≡ before.driven)

pub SamePorts-trans : (a b c : Mcu) → SamePorts a b → SamePorts b c → SamePorts a c
SamePorts-trans a b c first second = (second.0 ∙ first.0, second.1 ∙ first.1, second.2 ∙ first.2)
