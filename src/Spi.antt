-- ===== src/Spi.antt =====
-- firmware/avr/src/spi.c and the state names of firmware/avr/src/strings.c: text printed over SPI.
pub mod Names
pub mod Print
use esloq.Base.{
  ℕ, zero, suc, ◌+◌, ◌^◌, List, [], ◌∷◌, ◌++◌, Bool, true, Outcome, ok, halted, out_of_bounds,
  waiting, in_bounds, ◌>>=◌, replicate, copy_into, set_bits, if◌then◌else◌,
}
use esloq.Mcu.{Mcu}

-- SS = 2, MOSI = 3, SCK = 5; SPE = 6, MSTR = 4, SPR1 = 1, SPR0 = 0
pub spi_master_init : Mcu → Mcu
spi_master_init mcu = record mcu {
  ddrb = set_bits (2 ^ 2 + 2 ^ 3 + 2 ^ 5) mcu.ddrb;
  spcr = 2 ^ 6 + 2 ^ 4 + 2 ^ 1 + 2 ^ 0;
}

-- The transfer of one byte: SPIF at each poll, and the byte that the other side shifts in.
pub record Transfer : Type 0 where
  pub complete : List Bool
  pub reply : ℕ

wait_complete : List Bool → ℕ → Outcome ℕ
wait_complete [] reply = halted waiting
wait_complete (c ∷ cs) reply = let rest = wait_complete cs reply in if c then ok reply else rest

-- The reply, and the bytes put on the bus so far.
pub spi_print_char : ℕ → Transfer → List ℕ → Outcome (ℕ × List ℕ)
unfolding wait_complete
spi_print_char byte t bus = do
  reply ← wait_complete t.complete t.reply
  ok (reply, bus ++ (byte ∷ []))

-- The last two calls of `spi_print_string`.
end_line : List Transfer → List ℕ → Outcome (List ℕ)
end_line (t1 ∷ t2 ∷ ts) bus = do
  cr ← spi_print_char b'\r' t1 bus
  lf ← spi_print_char b'\n' t2 cr.1
  ok lf.1
end_line ts bus = halted waiting

-- The first argument is the object that `s` points into, from there on.
pub spi_print_string : List ℕ → List Transfer → List ℕ → Outcome (List ℕ)
unfolding end_line
spi_print_string [] ts bus = halted out_of_bounds
spi_print_string (zero ∷ s) ts bus = end_line ts bus
spi_print_string (suc c ∷ s) [] bus = halted waiting
spi_print_string (suc c ∷ s) (t ∷ ts) bus = do
  r ← spi_print_char (suc c) t bus
  spi_print_string s ts r.1

-- The same text as `spi_print_string`, with the string in flash.
pub spi_print_flash_string : List ℕ → List Transfer → List ℕ → Outcome (List ℕ)
spi_print_flash_string s ts bus = spi_print_string s ts bus

abbrev max_int_digits : ℕ
max_int_digits = 10

-- `itoa` is avr-libc's, to the base of 10: the bytes that it writes, for the bit pattern of an `int`.
pub spi_print_int : (ℕ → List ℕ) → ℕ → List Transfer → List ℕ → Outcome (List ℕ)
spi_print_int itoa i ts bus = do
  s ← in_bounds (copy_into (replicate max_int_digits 0) 0 (itoa i))
  spi_print_string s ts bus
