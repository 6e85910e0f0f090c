-- ===== src/Base/Split.antt =====
-- strings.Split and strings.SplitN on a one-byte separator, and the numbers of strconv that callers
-- turn into 32 bits.
use waveguide.Base.Tests.{ltb, leb, ◌==◌, if◌then◌else◌}
use waveguide.Base.Text.{is_digit, span, digits_value}
use waveguide.Base.Lists.{All}
use Prim.Native.Nat.{ℕ, ◌-◌, ◌%◌, ◌^◌}
use mathlib.Core.Path.{◌≡◌, refl, ap, ◌∙◌}
use mathlib.Core.Logic.{◌≢◌}
use mathlib.Core.Bool.{Bool, true, false}
use mathlib.Core.Option.{Option, none, some}
use mathlib.Core.List.{List, [], ◌∷◌}
use native.Mathlib.Omega.{arith}

-- A byte in front of the parts of a text.
abbrev pub into_first : Bool → ℕ → List (List ℕ) → List (List ℕ)
into_first true c parts = [] ∷ parts
into_first false c [] = (c ∷ []) ∷ []
into_first false c (p ∷ parts) = (c ∷ p) ∷ parts

-- `strings.Split`
unfoldable pub split : ℕ → List ℕ → List (List ℕ)
split sep [] = [] ∷ []
split sep (c ∷ s) = into_first (c == sep) c (split sep s)

-- `strings.SplitN(s, sep, 2)`: what is in front of the separator, and what is behind it.
unfoldable pub split_two : ℕ → List ℕ → List ℕ × Option (List ℕ)
split_two sep [] = ([], none)
split_two sep (c ∷ s) =
    let (front, behind) = split_two sep s in if c == sep then ([], some s) else (c ∷ front, behind)

-- Whether a text is a number of decimal digits.
abbrev pub all_digits : List ℕ → Bool
all_digits [] = false
all_digits (c ∷ s) = elim ((span is_digit (c ∷ s)).1) [ [] ↦ true | d ∷ r ↦ false ]

-- `strconv.ParseUint(s, 10, 32)`, where `none` is an error.
unfoldable pub parse_uint32 : List ℕ → Option ℕ
parse_uint32 s =
    if all_digits s
    then (if ltb (digits_value 0 s) (2 ^ 32) then some (digits_value 0 s) else none)
    else none

-- `uint32(strconv.Atoi(s))`: the number may have a sign, and is one of 64 bits before it is cut.
abbrev pub unsigned : List ℕ → Option ℕ
unsigned s =
    if all_digits s
    then (if ltb (digits_value 0 s) (2 ^ 63) then some (digits_value 0 s % 2 ^ 32) else none)
    else none

abbrev pub negated : List ℕ → Option ℕ
negated s =
    if all_digits s
    then (if leb (digits_value 0 s) (2 ^ 63)
        then some ((2 ^ 64 - digits_value 0 s) % 2 ^ 32)
        else none)
    else none

unfoldable pub atoi_uint32 : List ℕ → Option ℕ
atoi_uint32 [] = none
atoi_uint32 (c ∷ s) =
    if c == b'+' then unsigned s else if c == b'-' then negated s else unsigned (c ∷ s)

-- No part holds the separator.
abbrev pub Lacks : ℕ → List ℕ → Type 0
Lacks sep p = All (λ c. c ≢ sep) p

pub split-Lacks : (sep : ℕ) (s : List ℕ) → All (Lacks sep) (split sep s)
unfolding split
split-Lacks sep [] = (tt, tt)
split-Lacks sep (c ∷ s) = into (split sep s) (split-Lacks sep s)
  where
    into :
        (parts : List (List ℕ))
        → All (Lacks sep) parts
        → All (Lacks sep) (into_first (c == sep) c parts)
    into [] lacks = ground arith
    into (p ∷ parts) lacks = ground arith

pub split-ne-nil : (sep : ℕ) (s : List ℕ) → split sep s ≢ []
unfolding split
split-ne-nil sep [] e = cc
split-ne-nil sep (c ∷ s) e = into (split sep s) e
  where
    into : (parts : List (List ℕ)) → into_first (c == sep) c parts ≢ []
    into [] e' = ground arith
    into (p ∷ parts) e' = ground arith

into_first-one :
    (b : Bool) (c : ℕ) (parts : List (List ℕ)) (p : List ℕ)
    → parts ≢ []
    → into_first b c parts ≡ p ∷ []
    → (q : List ℕ) × (parts ≡ q ∷ []) × (c ∷ q ≡ p)
into_first-one b c [] p some_parts e = absurd (some_parts refl)
into_first-one true c (q ∷ parts) p some_parts e = absurd (ground arith)
into_first-one false c (q ∷ parts) p some_parts e = (q, ground arith, ground arith)

-- A text of one part holds no separator, and the part is the text.
pub split-one : (sep : ℕ) (s p : List ℕ) → split sep s ≡ p ∷ [] → s ≡ p
unfolding split
split-one sep [] p e = ground arith
split-one sep (c ∷ s) p e =
    let (q, one, same) = into_first-one (c == sep) c (split sep s) p (split-ne-nil sep s) e in
    ap (λ t. c ∷ t) (split-one sep s q one) ∙ same
