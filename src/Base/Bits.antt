-- ===== src/Base/Bits.antt =====
-- Masks on one byte as arithmetic: tables of at most 256 entries, checked by evaluation.
use Prim.Native.Nat.{ℕ, zero, suc, ◌+◌, ◌*◌, ◌/◌, ◌%◌, ◌<◌, bit_and, bit_or}
use mathlib.Core.Path.{◌≡◌, refl}
use mathlib.Core.Bool.{Bool, true, ◌&&◌}
use native.Mathlib.Omega.{arith}
use waveguide.Base.Tests.{◌==◌, ==_iff}

-- Whether two functions have the same values below a bound.
unfoldable same_values : (ℕ → ℕ) → (ℕ → ℕ) → ℕ → Bool
same_values f g zero = true
same_values f g (suc bound) = same_values f g bound && f bound == g bound

agree : (bound : ℕ) (f g : ℕ → ℕ) → same_values f g bound ≡ true → (x : ℕ) → x < bound → f x ≡ g x
unfolding same_values
agree (suc bound) f g table x below =
    grind (arith, agree bound f g (ground arith) x, ==_iff (f bound) (g bound))
agree zero f g table x below = omega arith

pub and_top : (b : ℕ) → b < 256 → bit_and b 0x80 ≡ b / 128 * 128
unfolding same_values
and_top = agree 256 (λ b. bit_and b 0x80) (λ b. b / 128 * 128) refl

pub and_second : (b : ℕ) → b < 256 → bit_and b 0x40 ≡ b / 64 % 2 * 64
unfolding same_values
and_second = agree 256 (λ b. bit_and b 0x40) (λ b. b / 64 % 2 * 64) refl

pub and_low_six : (b : ℕ) → b < 256 → bit_and b 0x3f ≡ b % 64
unfolding same_values
and_low_six = agree 256 (λ b. bit_and b 0x3f) (λ b. b % 64) refl

pub or_top : (b : ℕ) → b < 128 → bit_or b 0x80 ≡ b + 128
unfolding same_values
or_top = agree 128 (λ b. bit_or b 0x80) (λ b. b + 128) refl

pub or_second : (b : ℕ) → b < 64 → bit_or b 0x40 ≡ b + 64
unfolding same_values
or_second = agree 64 (λ b. bit_or b 0x40) (λ b. b + 64) refl

pub or_second_top : (b : ℕ) → b < 64 → bit_or (b + 128) 0x40 ≡ b + 192
unfolding same_values
or_second_top = agree 64 (λ b. bit_or (b + 128) 0x40) (λ b. b + 192) refl
