-- ===== src/Scanner/Halting.antt =====
-- bufio.Scanner ends on every finite input, with no more tokens than there are bytes.
use waveguide.Base.{
  ℕ, zero, suc, ◌+◌, ◌<◌, ◌≤◌, ◌≡◌, refl, Bool, true, false, some, List, [], ◌∷◌, arith, length,
  leb, returns, panic, Outcome-cases, Option-cases, Bool-cases, inl, inr, length-append,
  length-drop,
}
use waveguide.Base.Slice.{Slice}
use waveguide.Scanner.{
  Split, SplitFunc, Read, End, Events, token, ends, stuck, eof, drain, scan, skip, receive,
}

-- Whether a scanner ends after so many tokens at most, with its input or an error, or, only where the flag
-- is set, with a panic of the split function.
abbrev pub ends_within : Bool → ℕ → Events → Bool
ends_within may_panic n (ends stuck) = false
ends_within may_panic n (ends End.panicked) = may_panic
ends_within may_panic n (ends e) = true
ends_within may_panic zero (token t rest) = false
ends_within may_panic (suc n) (token t rest) = ends_within may_panic n rest

-- The bytes of a run of reads.
abbrev pub total : List Read → ℕ
total [] = 0
total (r ∷ reads) = length r.bytes + total reads

-- Either a panic is allowed, or the split function makes none.
abbrev pub PanicsOnlyIf : Bool → SplitFunc → Type 0
PanicsOnlyIf may_panic split =
    (s : Slice) (at_eof : Bool) → split s at_eof ≡ panic → may_panic ≡ true

-- A token advances by a byte at least.
abbrev pub Advances : SplitFunc → Type 0
Advances split =
    (s : Slice) (at_eof : Bool) (r : Split) (t : Slice)
    → split s at_eof ≡ returns r
    → r.token ≡ some t
    → 0 < r.advance

ends_within-le :
    (p : Bool) (n m : ℕ) (e : Events) → n ≤ m → ends_within p n e ≡ true → ends_within p m e ≡ true
ends_within-le p n m (ends eof) le h = refl
ends_within-le p n m (ends End.advance_too_far) le h = refl
ends_within-le p n m (ends End.too_long) le h = refl
ends_within-le p n m (ends End.panicked) le h = h
ends_within-le p n m (ends stuck) le h = h
ends_within-le p zero m (token t rest) le h = absurd (ground arith)
ends_within-le p (suc n) zero (token t rest) le h = absurd (omega arith)
ends_within-le p (suc n) (suc m) (token t rest) le h = ends_within-le p n m rest (omega arith) h

module _ (p : Bool) (split : SplitFunc) (calm : PanicsOnlyIf p split)
    (advances : Advances split) where
  drain_within :
      (at_eof : Bool) (fuel m : ℕ) (s : Slice) (more : Slice → Events)
      → length s.elems < fuel
      → ((s' : Slice)
          → length s'.elems ≤ length s.elems
          → ends_within p (length s'.elems + m) (more s') ≡ true)
      → ends_within p (length s.elems + m) (drain split at_eof fuel s more) ≡ true
  unfolding drain
  drain_within at_eof zero m s more few after = absurd (omega arith)
  drain_within at_eof (suc fuel) m s more few after = elim (Outcome-cases (split s at_eof)) [
    | inl panics ↦ ground (arith, panics, calm s at_eof panics, after s)
    | inr (r, e) ↦ elim (Bool-cases (leb r.advance (length s.elems))) [
      | inr beyond ↦ ground (arith, e, beyond, after s)
      | inl within ↦
          let rest = skip r.advance s in
          let size = length-drop r.advance s.elems in
          let shorter : length rest.elems ≤ length s.elems = omega arith in
          elim (Option-cases (r.token)) [
            | inl no_token ↦
                let later =
                  ends_within-le p (length rest.elems + m) (length s.elems + m) (more rest)
                    (omega arith) (after rest shorter) in
                ground (arith, e, within, no_token, later, after s)
            | inr (t, found) ↦
                let some_bytes = advances s at_eof r t e found in
                let room : r.advance ≤ length s.elems = ground arith in
                let later =
                  drain_within at_eof fuel m rest more (omega arith)
                    (λ s' le. after s' (omega arith)) in
                let tail = drain split at_eof fuel rest more in
                let all =
                  ends_within-le p (suc (length rest.elems + m)) (length s.elems + m) (token t tail)
                    (omega arith) later in
                ground (arith, e, within, found, all, after s)
          ]
    ]
  ]

  drain_at_end_within :
      (m : ℕ) (s : Slice)
      → ends_within p
          (length s.elems + m)
          (drain split true (suc (length s.elems)) s (λ _. ends eof))
        ≡ true
  drain_at_end_within m s =
      drain_within true (suc (length s.elems)) m s (λ _. ends eof) (omega arith) (λ s' le. refl)

  pub scan_within :
      (reads : List Read) (s : Slice)
      → ends_within p (length s.elems + total reads) (scan split reads s) ≡ true
  unfolding scan
  scan_within [] s = drain_within false (suc (length s.elems)) 0 s _ (omega arith) (λ s' le.
      elim (Bool-cases (leb 65536 (length s'.elems))) [
        | inl too_many ↦ rw too_many refl
        | inr fits ↦ rw fits (drain_at_end_within 0 s')
      ])
  scan_within (r ∷ reads) s =
      drain_within false (suc (length s.elems)) (total (r ∷ reads)) s _ (omega arith) (λ s' le.
        elim (Bool-cases (leb 65536 (length s'.elems))) [
          | inl too_many ↦ rw too_many refl
          | inr fits ↦
              let size = length-append (s'.elems) (r.bytes) in
              let same : length (receive s' r).elems + total reads
                  ≡ length s'.elems + total (r ∷ reads) =
                omega arith in
              rw fits (rw⁻¹ same (scan_within reads (receive s' r)))
        ])
