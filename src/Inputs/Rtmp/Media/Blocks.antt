-- ===== src/Inputs/Rtmp/Media/Blocks.antt =====
-- rtmp.go: the loop of OnAudio over the blocks of a buffer.
use waveguide.Base.{
  ℕ, zero, suc, ◌<◌, ◌≤◌, ◌≡◌, refl, ap, ◌∙◌, sym, inl, inr, Bool, true, false, List, [], ◌∷◌, ◌++◌,
  arith, leb, le→leb, length, take, drop, length-drop, length-append, Bool-cases,
}
use waveguide.Inputs.Rtmp.Media.{blocks_loop}

take-append_le : (n : ℕ) (xs ys : List ℕ) → n ≤ length xs → take n (xs ++ ys) ≡ take n xs
take-append_le zero xs ys h = refl
take-append_le (suc n) [] ys h = absurd (omega arith)
take-append_le (suc n) (x ∷ xs) ys h = ap (λ t. x ∷ t) (take-append_le n xs ys (omega arith))

drop-append_le : (n : ℕ) (xs ys : List ℕ) → n ≤ length xs → drop n (xs ++ ys) ≡ drop n xs ++ ys
drop-append_le zero xs ys h = refl
drop-append_le (suc n) [] ys h = absurd (omega arith)
drop-append_le (suc n) (x ∷ xs) ys h = drop-append_le n xs ys (omega arith)

module _ {A : Type 0} (size : ℕ) (some_size : 0 < size) (step : List ℕ → A → Bool × A) where
  -- With enough fuel the loop ends by its test: less than a block is left, or a block has failed.
  pub blocks_loop_ends :
      (fuel : ℕ) (buffer : List ℕ) (a : A)
      → length buffer < fuel
      → (blocks_loop size step fuel buffer a).0 ≡ true
      → length (blocks_loop size step fuel buffer a).1.0 < size
  unfolding blocks_loop
  blocks_loop_ends zero buffer a few fine = absurd (omega arith)
  blocks_loop_ends (suc fuel) buffer a few fine = ground (
    arith,
    length-drop size buffer,
    blocks_loop_ends fuel (drop size buffer) (step (take size buffer) a).1,
  )

  -- More fuel than is enough changes nothing.
  pub blocks_loop_fuel :
      (fuel fuel' : ℕ) (buffer : List ℕ) (a : A)
      → length buffer < fuel
      → length buffer < fuel'
      → blocks_loop size step fuel buffer a ≡ blocks_loop size step fuel' buffer a
  unfolding blocks_loop
  blocks_loop_fuel zero fuel' buffer a few few' = absurd (omega arith)
  blocks_loop_fuel (suc fuel) zero buffer a few few' = absurd (omega arith)
  blocks_loop_fuel (suc fuel) (suc fuel') buffer a few few' = ground (
    arith,
    length-drop size buffer,
    blocks_loop_fuel fuel fuel' (drop size buffer) (step (take size buffer) a).1,
  )

  -- One round, and the test that ends the loop.
  blocks_loop_round :
      (fuel : ℕ) (buffer : List ℕ) (a : A)
      → leb size (length buffer) ≡ true
      → (step (take size buffer) a).0 ≡ true
      → blocks_loop size step (suc fuel) buffer a
        ≡ blocks_loop size step fuel (drop size buffer) (step (take size buffer) a).1
  unfolding blocks_loop
  blocks_loop_round fuel buffer a enough fine = ground (arith, enough, fine)

  blocks_loop_short :
      (fuel : ℕ) (buffer : List ℕ) (a : A)
      → leb size (length buffer) ≡ false
      → blocks_loop size step (suc fuel) buffer a ≡ (true, (buffer, a))
  unfolding blocks_loop
  blocks_loop_short fuel buffer a few = ground (arith, few)

  blocks_loop_fails :
      (fuel : ℕ) (buffer : List ℕ) (a : A)
      → leb size (length buffer) ≡ true
      → (step (take size buffer) a).0 ≡ false
      → (blocks_loop size step (suc fuel) buffer a).0 ≡ false
  unfolding blocks_loop
  blocks_loop_fails fuel buffer a enough fine = ground (arith, enough, fine)

  -- A run without an error over the front of a buffer can be continued with the rest.
  pub blocks_loop-append :
      (fuel whole later : ℕ) (front rest : List ℕ) (a : A)
      → length front < fuel
      → length (front ++ rest) < whole
      → length ((blocks_loop size step fuel front a).1.0 ++ rest) < later
      → (blocks_loop size step fuel front a).0 ≡ true
      → blocks_loop size step whole (front ++ rest) a
        ≡ blocks_loop size step later
            ((blocks_loop size step fuel front a).1.0 ++ rest)
            ((blocks_loop size step fuel front a).1.1)
  blocks_loop-append zero whole later front rest a few wide last fine = absurd (omega arith)
  blocks_loop-append (suc fuel) zero later front rest a few wide last fine = absurd (omega arith)
  blocks_loop-append (suc fuel) (suc whole) later front rest a few wide last fine =
      elim (Bool-cases (leb size (length front))) [
        | inr short ↦
            let same = blocks_loop_short fuel front a short in
            let left = ap (λ r. length (r.1.0 ++ rest)) same in
            rw (same) (blocks_loop_fuel (suc whole) later (front ++ rest) a wide (omega arith))
        | inl enough ↦ elim (Bool-cases ((step (take size front) a).0)) [
          | inr failed ↦ let bad = blocks_loop_fails fuel front a enough failed in absurd (cc)
          | inl went ↦
              let same = blocks_loop_round fuel front a enough went in
              let left = ap (λ r. length (r.1.0 ++ rest)) same in
              let fits : size ≤ length front = ground (arith, enough) in
              let both = length-append front rest in
              let shorter = length-drop size front in
              let shorter' = length-append (drop size front) rest in
              let cut_block = take-append_le size front rest fits in
              let cut_rest = drop-append_le size front rest fits in
              let rec =
                blocks_loop-append fuel whole later (drop size front) rest
                  (step (take size front) a).1 (omega arith) (omega arith) (omega arith)
                  (ap (λ r. r.0) (sym same) ∙ fine) in
              let enough' : leb size (length (front ++ rest)) ≡ true =
                le→leb size (length (front ++ rest)) (omega arith) in
              let went' : (step (take size (front ++ rest)) a).0 ≡ true = rw (cut_block) went in
              let first = blocks_loop_round whole (front ++ rest) a enough' went' in
              rw (same) (first ∙ rw (cut_block, cut_rest) rec)
        ]
      ]

-- A change of the state that the step neither sees nor undoes can be made after the loop.
pub blocks_loop_natural :
    {A : Type 0} (size : ℕ) (step : List ℕ → A → Bool × A) (f : A → A)
    → ((block : List ℕ) (a : A) → step block (f a) ≡ ((step block a).0, f (step block a).1))
    → (fuel : ℕ) (buffer : List ℕ) (a : A)
    → blocks_loop size step fuel buffer (f a)
      ≡ (let (fine, (rest, a')) = blocks_loop size step fuel buffer a in (fine, (rest, f a')))
unfolding blocks_loop
blocks_loop_natural size step f apart zero buffer a = refl
blocks_loop_natural size step f apart (suc fuel) buffer a = ground (
  arith,
  apart (take size buffer) a,
  blocks_loop_natural size step f apart fuel (drop size buffer) (step (take size buffer) a).1,
)
