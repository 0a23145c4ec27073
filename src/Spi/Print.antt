-- ===== src/Spi/Print.antt =====
-- What printing a string puts on the bus.
use esloq.Base.{
  ℕ, zero, suc, ◌+◌, ◌≤◌, ◌≡◌, refl, ◌∙◌, ap, List, [], ◌∷◌, ◌++◌, Bool, true, false, ◌||◌, ◌&&◌,
  ok, length, arith, append_assoc,
}
use esloq.Spi.{Transfer, wait_complete, spi_print_char, spi_print_string, end_line}

-- Some poll finds SPIF set, in each of the transfers.
abbrev completes : List Bool → Bool
completes [] = false
completes (c ∷ cs) = c || completes cs

abbrev pub all_complete : List Transfer → Bool
all_complete [] = true
all_complete (t ∷ ts) = completes t.complete && all_complete ts

-- The bytes before the terminator are no terminators.
abbrev pub HasNoZero : List ℕ → Type 0
HasNoZero [] = Unit {0}
HasNoZero (c ∷ cs) = (1 ≤ c) × HasNoZero cs

wait_complete_lem :
    (cs : List Bool) (reply : ℕ) → completes cs ≡ true → wait_complete cs reply ≡ ok reply
unfolding wait_complete
wait_complete_lem [] reply h = cc
wait_complete_lem (true ∷ cs) reply h = refl
wait_complete_lem (false ∷ cs) reply h = wait_complete_lem cs reply h

print_char_lem :
    (byte : ℕ) (t : Transfer) (bus : List ℕ)
    → completes t.complete ≡ true
    → spi_print_char byte t bus ≡ ok (t.reply, bus ++ (byte ∷ []))
unfolding spi_print_char
print_char_lem byte t bus h = rw (wait_complete_lem t.complete t.reply h)

-- A string puts its bytes on the bus, then CR and LF, whatever follows its terminator in memory, if
-- there is a transfer that completes for each byte.
pub spi_print_string_lem :
    (text rest : List ℕ) (ts : List Transfer) (bus : List ℕ)
    → HasNoZero text
    → length text + 2 ≤ length ts
    → all_complete ts ≡ true
    → spi_print_string (text ++ (0 ∷ rest)) ts bus ≡ ok (bus ++ (text ++ (13 ∷ 10 ∷ [])))
unfolding spi_print_string end_line
spi_print_string_lem [] rest [] bus text few h = absurd (omega arith)
spi_print_string_lem [] rest (t ∷ []) bus text few h = absurd (omega arith)
spi_print_string_lem [] rest (t1 ∷ t2 ∷ ts) bus text few h =
    rw
      (
        print_char_lem 13 t1 bus (ground arith),
        print_char_lem 10 t2 (bus ++ (13 ∷ [])) (ground arith),
      )
      (ap ok (append_assoc bus (13 ∷ []) (10 ∷ [])))
spi_print_string_lem (zero ∷ text) rest ts bus no_zero few h = absurd (omega (arith, no_zero.0))
spi_print_string_lem (suc c ∷ text) rest [] bus no_zero few h = absurd (omega arith)
spi_print_string_lem (suc c ∷ text) rest (t ∷ ts) bus no_zero few h =
    rw (print_char_lem (suc c) t bus (ground arith)) (
      spi_print_string_lem text rest ts (bus ++ (suc c ∷ [])) no_zero.1 (omega arith) (ground arith)
      ∙ ap ok (append_assoc bus (suc c ∷ []) (text ++ (13 ∷ 10 ∷ []))))
