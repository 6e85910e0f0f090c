-- ===== src/Base/Slice.antt =====
-- A Go byte slice that is read: its elements, and the bytes of the array behind it up to its
-- capacity. A slice expression is checked against the capacity, an index against the length.
use waveguide.Base.Tests.{leb, if◌then◌else◌, le→leb}
use waveguide.Base.Lists.{length, get_elem?, take, drop, length-append, take-append, drop-append}
use waveguide.Base.Panics.{Outcome, returns, panic}
use Prim.Native.Nat.{ℕ, ◌+◌, ◌-◌, ◌≤◌, ◌<◌}
use mathlib.Core.Bool.{◌&&◌}
use mathlib.Core.Logic.{◌⊎◌}
use mathlib.Core.Option.{none, some}
use mathlib.Core.List.{List, ◌++◌, append_assoc, append-nil, []}
use mathlib.Core.Path.{◌≡◌, ◌∙◌}
use native.Mathlib.Omega.{arith}

pub record Slice : Type 0 where
  pub elems : List ℕ
  pub spare : List ℕ

abbrev pub capacity : Slice → ℕ
capacity s = length s.elems + length s.spare

-- `s[i]`
abbrev pub index : Slice → ℕ → Outcome ℕ
index s i = elim (get_elem? s.elems i) [ none ↦ panic | some b ↦ returns b ]

-- `s[i:j]`
unfoldable pub cut : Slice → ℕ → ℕ → Outcome Slice
cut s i j =
    let array = s.elems ++ s.spare in
    if leb i j && leb j (capacity s)
    then returns (record { elems = take (j - i) (drop i array); spare = drop j array })
    else panic

-- `s[i:]`
unfoldable pub cut_from : Slice → ℕ → Outcome Slice
cut_from s i = cut s i (length s.elems)

-- A slice expression within bounds does not panic.
pub cut_within :
    (s : Slice) (i j : ℕ)
    → i ≤ j
    → j ≤ capacity s
    → cut s i j
      ≡ returns (record {
        elems = take (j - i) (drop i (s.elems ++ s.spare));
        spare = drop j (s.elems ++ s.spare);
      })
unfolding cut
cut_within s i j lo hi = rw (le→leb i j lo, le→leb j (capacity s) hi)

-- One beyond the capacity, or with its ends swapped, does.
pub cut_outside : (s : Slice) (i j : ℕ) → (j < i) ⊎ (capacity s < j) → cut s i j ≡ panic
unfolding cut
cut_outside s i j h = ground arith

drop-append_eq : (front back : List ℕ) (i : ℕ) → i ≡ length front → drop i (front ++ back) ≡ back
drop-append_eq front back i e = rw e (drop-append front back)

take-append_eq : (front back : List ℕ) (i : ℕ) → i ≡ length front → take i (front ++ back) ≡ front
take-append_eq front back i e = rw e (take-append front back)

-- `s[i:j]` where `s` is written as its first `i` elements, the next `j - i` and the rest.
pub cut-append :
    (front middle back spare : List ℕ) (i j : ℕ)
    → i ≡ length front
    → j ≡ i + length middle
    → cut (record { elems = front ++ (middle ++ back); spare = spare }) i j
      ≡ returns (record { elems = middle; spare = back ++ spare })
cut-append front middle back spare i j hi hj =
    cut_within _ i j (omega arith)
      (omega (arith, length-append front (middle ++ back), length-append middle back))
    ∙ simp append_assoc (
        cc (
          drop-append_eq front (middle ++ (back ++ spare)) i hi,
          take-append_eq middle (back ++ spare) (j - i) (omega arith),
          drop_middle,
        ))
  where
    drop_middle : drop j (front ++ (middle ++ (back ++ spare))) ≡ back ++ spare
    drop_middle = rw (← append_assoc front middle (back ++ spare)) (
        drop-append_eq (front ++ middle) (back ++ spare) j
          (omega (arith, length-append front middle)))

-- `s[i:]` likewise.
pub cut_from-append :
    (front back spare : List ℕ) (i : ℕ)
    → i ≡ length front
    → cut_from (record { elems = front ++ back; spare = spare }) i
      ≡ returns (record { elems = back; spare = spare })
unfolding cut_from
cut_from-append front back spare i hi = rw (append-nil back) at (
    cut-append front back [] spare i (length (front ++ back)) hi
      (rw (length-append front back, hi)))

pub cut_from-append_two :
    (front middle back spare : List ℕ) (i : ℕ)
    → i ≡ length front + length middle
    → cut_from (record { elems = front ++ (middle ++ back); spare = spare }) i
      ≡ returns (record { elems = back; spare = spare })
cut_from-append_two front middle back spare i hi =
    rw (append_assoc front middle back) at
      (cut_from-append (front ++ middle) back spare i (omega (arith, length-append front middle)))
