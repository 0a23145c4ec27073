-- ===== src/Base/Bits.antt =====
-- Bits of an 8-bit register, as the source writes them, and laws checked over all 256 values.
use Prim.Native.Nat.{ℕ, zero, suc, ◌-◌, ◌^◌, ◌<◌, bit_and, bit_or}
use mathlib.Core.Path.{◌≡◌}
use mathlib.Core.Bool.{Bool, true, ◌&&◌, not}
use native.Mathlib.Omega.{arith}
use esloq.Base.Tests.{◌==◌}

-- `r |= mask` and `r &= ~mask` on a byte.
abbrev pub set_bits : ℕ → ℕ → ℕ
set_bits mask r = bit_or r mask

abbrev pub clear_bits : ℕ → ℕ → ℕ
clear_bits mask r = bit_and r (255 - mask)

-- `bit_is_set(r, k)`
abbrev pub bit_is_set : ℕ → ℕ → Bool
bit_is_set r k = not (bit_and r (2 ^ k) == 0)

-- Whether a test holds of all the numbers under the bound.
unfoldable pub every_below : ℕ → (ℕ → Bool) → Bool
every_below zero test = true
every_below (suc bound) test = every_below bound test && test bound

pub every_below-at :
    (bound : ℕ) (test : ℕ → Bool) (at : ℕ)
    → at < bound
    → every_below bound test ≡ true
    → test at ≡ true
unfolding every_below
every_below-at zero test at under all = absurd (omega arith)
every_below-at (suc bound) test at under all = ground (arith, every_below-at bound test at)
