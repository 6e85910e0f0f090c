-- ===== src/Base/Decimal.antt =====
-- The decimal digits of a number are read back.
use waveguide.Base.Tests.{ltb, ◌==◌, lt→ltb, Bool-cases}
use waveguide.Base.Text.{is_digit, span, digits_value, decimal_loop, decimal}
use waveguide.Base.Split.{all_digits, atoi_uint32, unsigned, Lacks}
use waveguide.Base.Lists.{All}
use Prim.Native.Nat.{ℕ, zero, suc, ◌+◌, ◌-◌, ◌*◌, ◌/◌, ◌%◌, ◌^◌, ◌<◌}
use mathlib.Core.Path.{◌≡◌, refl, ap, ◌∙◌}
use mathlib.Core.Logic.{◌≢◌, inl, inr}
use mathlib.Core.Bool.{true, false}
use mathlib.Core.Option.{some}
use mathlib.Core.List.{List, [], ◌∷◌}
use native.Mathlib.Omega.{arith}

-- The numbers of that many digits at most are below it.
abbrev bound : ℕ → ℕ
bound zero = 1
bound (suc digits) = 10 * bound digits

digits_value-decimal_loop :
    (fuel n : ℕ) (rest : List ℕ)
    → n < bound fuel
    → digits_value 0 (decimal_loop fuel n rest) ≡ digits_value n rest
digits_value-decimal_loop zero n rest small =
    let none_left : 0 ≡ n = omega arith in ap (λ k. digits_value k rest) none_left
digits_value-decimal_loop (suc fuel) n rest small = elim (Bool-cases (ltb n 10)) [
  | inl last ↦
      let same : 0 * 10 + (b'0' + n - b'0') ≡ n = omega arith in
      rw last (ap (λ k. digits_value k rest) same)
  | inr more ↦
      let same : n / 10 * 10 + (b'0' + n % 10 - b'0') ≡ n = omega arith in
      let fewer : n / 10 < bound fuel = omega arith in
      rw more (
        digits_value-decimal_loop fuel (n / 10) ((b'0' + n % 10) ∷ rest) fewer
        ∙ ap (λ k. digits_value k rest) same)
]

abbrev pub AreDigits : List ℕ → Type 0
AreDigits s = All (λ c. is_digit c ≡ true) s

digit : (n : ℕ) → n < 10 → is_digit (b'0' + n) ≡ true
digit n small = ground arith

decimal_loop-AreDigits :
    (fuel n : ℕ) (rest : List ℕ) → AreDigits rest → AreDigits (decimal_loop fuel n rest)
decimal_loop-AreDigits zero n rest digits = digits
decimal_loop-AreDigits (suc fuel) n rest digits = elim (Bool-cases (ltb n 10)) [
  | inl last ↦ rw last (digit n (ground arith), digits)
  | inr more ↦ rw more (
      decimal_loop-AreDigits fuel (n / 10) ((b'0' + n % 10) ∷ rest)
        (digit (n % 10) (omega arith), digits))
]

decimal_loop-ne-nil : (fuel n c : ℕ) (rest : List ℕ) → decimal_loop fuel n (c ∷ rest) ≢ []
decimal_loop-ne-nil zero n c rest e = absurd (ground arith)
decimal_loop-ne-nil (suc fuel) n c rest e = elim (Bool-cases (ltb n 10)) [
  | inl last ↦ absurd (ground arith)
  | inr more ↦ decimal_loop-ne-nil fuel (n / 10) (b'0' + n % 10) (c ∷ rest) (rw more at e)
]

pub span_digits : (s : List ℕ) → AreDigits s → span is_digit s ≡ (s, [])
span_digits [] digits = refl
span_digits (c ∷ s) (d, digits) = rw (d, span_digits s digits) refl

all_digits_lem : (s : List ℕ) → AreDigits s → s ≢ [] → all_digits s ≡ true
all_digits_lem [] digits some_text = absurd (some_text refl)
all_digits_lem (c ∷ s) (d, digits) some_text = rw (all_digits, d, span_digits s digits) refl

unsigned_lem :
    (s : List ℕ) (n : ℕ)
    → all_digits s ≡ true
    → digits_value 0 s ≡ n
    → n < 2 ^ 32
    → unsigned s ≡ some n
unsigned_lem s n digits value small =
    let fits = lt→ltb n (2 ^ 63) (omega arith) in
    let same : n % 2 ^ 32 ≡ n = omega arith in rw (digits, value, fits) (ap some same)

no_sign : (s : List ℕ) → AreDigits s → s ≢ [] → atoi_uint32 s ≡ unsigned s
unfolding atoi_uint32
no_sign [] digits some_text = absurd (some_text refl)
no_sign (c ∷ s) (d, digits) some_text =
    let not_plus : (c == b'+') ≡ false = ground arith in
    let not_minus : (c == b'-') ≡ false = ground arith in rw (not_plus, not_minus) refl

decimal_loop_some : (fuel n : ℕ) → decimal_loop (suc fuel) n [] ≢ []
decimal_loop_some fuel n e = elim (Bool-cases (ltb n 10)) [
  | inl last ↦ absurd (ground arith)
  | inr more ↦ decimal_loop-ne-nil fuel (n / 10) (b'0' + n % 10) [] (rw more at e)
]

atoi_uint32-decimal_loop :
    (fuel n : ℕ)
    → n < bound (suc fuel)
    → n < 2 ^ 32
    → atoi_uint32 (decimal_loop (suc fuel) n []) ≡ some n
atoi_uint32-decimal_loop fuel n fits small =
    let s = decimal_loop (suc fuel) n [] in
    let digits = decimal_loop-AreDigits (suc fuel) n [] tt in
    let some_text = decimal_loop_some fuel n in
    no_sign s digits some_text
    ∙ unsigned_lem s n (all_digits_lem s digits some_text)
        (digits_value-decimal_loop (suc fuel) n [] fits) small

-- `strconv.Atoi` reads what `%d` writes of a 32-bit number.
pub atoi_uint32-decimal : (n : ℕ) → n < 2 ^ 32 → atoi_uint32 (decimal n) ≡ some n
unfolding decimal
atoi_uint32-decimal n small = atoi_uint32-decimal_loop 19 n (omega arith) small

-- No digit is another byte.
pub decimal-Lacks : (n sep : ℕ) → is_digit sep ≡ false → Lacks sep (decimal n)
unfolding decimal
decimal-Lacks n sep other = lacks (decimal_loop 20 n []) (decimal_loop-AreDigits 20 n [] tt)
  where
    lacks : (s : List ℕ) → AreDigits s → Lacks sep s
    lacks [] digits = tt
    lacks (c ∷ s) (d, digits) = ((λ e. absurd (ground arith)), lacks s digits)

pub decimal-AreDigits : (n : ℕ) → AreDigits (decimal n)
unfolding decimal
decimal-AreDigits n = decimal_loop-AreDigits 20 n [] tt

pub decimal-ne-nil : (n : ℕ) → decimal n ≢ []
unfolding decimal
decimal-ne-nil n = decimal_loop_some 19 n

-- For 32 bits, of which the digits are enough for more.
pub digits_value-decimal : (n : ℕ) → n < 2 ^ 32 → digits_value 0 (decimal n) ≡ n
unfolding decimal
digits_value-decimal n small = digits_value-decimal_loop 20 n [] (omega arith)
