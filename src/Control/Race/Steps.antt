-- ===== src/Control/Race/Steps.antt =====
-- Every step keeps the invariant.
use waveguide.Base.{sym, ℕ, ◌≡◌, ◌≢◌, ◌==◌, Bool-cases, none, some, inl, inr, arith}
use waveguide.Control.Types.{Control}
use waveguide.Control.Race.{
  At, looking, at_heartbeat, at_peersnap, at_collector, ending, withdrawing, removing, cancelling,
  returned, Scene, advance,
}
use waveguide.Control.Race.Invariant.{holds, IsMapped, IsPast, Fits, IsFair, Fits-kept}
use waveguide.Control.Race.Changes.{
  IsSent, IsSent-IsKept, IsSent-IsFound, IsSent-IsMapped, IsUnmapped, IsUnmapped-IsKept,
  IsUnmapped-IsFound, IsUnmapped-IsMapped,
}

pub held-IsPast :
    (c : Control) (id : ℕ) (at : At) (a : ℕ) → Fits c id at → holds at ≡ some a → IsPast c id a
unfolding holds
held-IsPast c id looking a f e = absurd (ground arith)
held-IsPast c id (at_heartbeat b) a f e = absurd (ground arith)
held-IsPast c id (at_peersnap b) a (p, _, _, _) e = let same : a ≡ b = ground arith in rw same p
held-IsPast c id (at_collector b) a (p, _, _) e = let same : a ≡ b = ground arith in rw same p
held-IsPast c id (ending b) a (p, _) e = let same : a ≡ b = ground arith in rw same p
held-IsPast c id (withdrawing b) a (p, _) e = let same : a ≡ b = ground arith in rw same p
held-IsPast c id (removing b) a (p, _) e = let same : a ≡ b = ground arith in rw same p
held-IsPast c id (cancelling b removed) a p e = let same : a ≡ b = ground arith in rw same p
held-IsPast c id (returned none x) a f e = absurd (ground arith)
held-IsPast c id (returned (some b) x) a p e = let same : a ≡ b = ground arith in rw same p

-- The stream at `a` is the call's own, or nobody's.
abbrev pub Ours : Scene → ℕ → ℕ → Type 0
Ours s i a = (j : ℕ) → j ≢ i → holds (s.calls j).at ≢ some a

pub Ours-held : (s : Scene) (i a : ℕ) → IsFair s → holds (s.calls i).at ≡ some a → Ours s i a
Ours-held s i a fair e j other f = other (fair.alone j i a f e)

pub Ours-free :
    (s : Scene) (i a : ℕ) → IsFair s → (s.control.heap a).stop_heartbeat ≡ 0 → Ours s i a
Ours-free s i a fair e j other f =
    let p = held-IsPast s.control (s.calls j).channel (s.calls j).at a (fair.fits j) f in
    absurd (ground (arith, p.sent))

-- A step of the call `i` to `at`, after which the manager is `c`.
pub advance-IsFair :
    (s : Scene) (i : ℕ) (at : At) (c : Control)
    → IsFair s
    → ((id a : ℕ) → c.streams id ≡ some a → IsMapped c id a)
    → Fits c (s.calls i).channel at
    → ((j : ℕ) → j ≢ i → Fits c (s.calls j).channel (s.calls j).at)
    → ((a : ℕ) → holds at ≡ some a → Ours s i a)
    → IsFair (advance i (at, c) s)
advance-IsFair s i at c fair mapped mine others ours = record {
  mapped = mapped;
  fits = λ j. elim (Bool-cases (j == i)) [
    | inl same ↦ rw same mine
    | inr other ↦ rw other (others j (ground arith))
  ];
  alone = λ j k a e f. elim (Bool-cases (j == i)) [
    | inl first ↦ elim (Bool-cases (k == i)) [
      | inl second ↦ ground arith
      | inr other ↦
          let clash = ours a (rw first at e) k (ground arith) in absurd (clash (rw other at f))
    ]
    | inr other ↦ elim (Bool-cases (k == i)) [
      | inl second ↦
          let clash = ours a (rw second at f) j (ground arith) in absurd (clash (rw other at e))
      | inr other' ↦ fair.alone j k a (rw other at e) (rw other' at f)
    ]
  ];
}

apart :
    (s : Scene) (i a : ℕ)
    → Ours s i a
    → (j : ℕ) → j ≢ i
    → (b : ℕ) → holds (s.calls j).at ≡ some b
    → b ≢ a
apart s i a ours j other b e same = ours j other (rw (sym same) e)

pub sent_step :
    (s : Scene) (i a : ℕ) (at : At) (c : Control)
    → IsFair s
    → Ours s i a
    → IsSent s.control a c
    → Fits c (s.calls i).channel at
    → holds at ≡ some a
    → IsFair (advance i (at, c) s)
sent_step s i a at c fair ours change mine held =
    advance-IsFair s i at c fair
      (λ id b. IsSent-IsMapped s.control c a id b change (fair.mapped id b)) mine
      (λ j other.
        Fits-kept s.control c (s.calls j).channel (s.calls j).at
          (λ b old e.
            IsSent-IsKept s.control c a (s.calls j).channel b change (apart s i a ours j other b e))
          (λ b. IsSent-IsFound s.control c a (s.calls j).channel b change) (fair.fits j))
      (λ b e. let same : b ≡ a = ground arith in rw same ours)

pub unmapped_step :
    (s : Scene) (i k a : ℕ) (at : At) (c : Control)
    → IsFair s
    → Ours s i a
    → IsUnmapped s.control k a c
    → Fits c (s.calls i).channel at
    → holds at ≡ some a
    → IsFair (advance i (at, c) s)
unmapped_step s i k a at c fair ours change mine held =
    advance-IsFair s i at c fair
      (λ id b. IsUnmapped-IsMapped s.control c k a id b change (fair.mapped id b)) mine
      (λ j other.
        Fits-kept s.control c (s.calls j).channel (s.calls j).at
          (λ b old e.
            IsUnmapped-IsKept s.control c k a (s.calls j).channel b change
              (apart s i a ours j other b e))
          (λ b. IsUnmapped-IsFound s.control c k a (s.calls j).channel b change) (fair.fits j))
      (λ b e. let same : b ≡ a = ground arith in rw same ours)
