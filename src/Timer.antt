-- ===== src/Timer.antt =====
-- firmware/avr/src/timer.c. `cli` and `sei` round a 16-bit access keep the interrupts out of it; the
-- models take such an access as one step, so the pair leaves nothing to write.
use esloq.Base.{ℕ, ◌+◌, ◌%◌, ◌^◌, Bool, set_bits, clear_bits, ◌==◌, if◌then◌else◌}
use esloq.Mcu.{Mcu}

-- CS02 = 2, TOIE0 = 0
unfoldable pub timer_8bit_start : ℕ → Bool → Mcu → Mcu
timer_8bit_start prescaler ovf_interrupts mcu =
    let tccr0b' = if prescaler == 256 then set_bits (2 ^ 2) mcu.tccr0b else mcu.tccr0b in
    let started = record mcu { tccr0b = tccr0b'; tcnt0 = 0 } in
    if ovf_interrupts
    then record started { timer_8bit_ovf = 0; timsk0 = set_bits (2 ^ 0) mcu.timsk0 }
    else started

-- CS02, CS01 and CS00
unfoldable pub timer_8bit_stop : Mcu → Mcu
timer_8bit_stop mcu = record mcu { tccr0b = clear_bits (2 ^ 2 + 2 ^ 1 + 2 ^ 0) mcu.tccr0b }

abbrev pub timer_get_8bit_ovf : Mcu → ℕ
timer_get_8bit_ovf mcu = mcu.timer_8bit_ovf

-- CS12 = 2
unfoldable pub timer_16bit_start : ℕ → Mcu → Mcu
timer_16bit_start prescaler mcu =
    let tccr1b' = if prescaler == 256 then set_bits (2 ^ 2) mcu.tccr1b else mcu.tccr1b in
    record mcu { tccr1b = tccr1b'; tcnt1 = 0 }

-- CS12, CS11 and CS10
unfoldable pub timer_16bit_stop : Mcu → Mcu
timer_16bit_stop mcu = record mcu { tccr1b = clear_bits (2 ^ 2 + 2 ^ 1 + 2 ^ 0) mcu.tccr1b }

unfoldable pub timer_16bit_reset : Mcu → Mcu
timer_16bit_reset mcu = record mcu { tcnt1 = 0 }

abbrev pub timer_16bit_value : Mcu → ℕ
timer_16bit_value mcu = mcu.tcnt1

-- `ISR(TIMER0_OVF_vect)`
unfoldable pub timer0_ovf : Mcu → Mcu
timer0_ovf mcu = record mcu { timer_8bit_ovf = (mcu.timer_8bit_ovf + 1) % 2 ^ 16 }
