-- ===== src/Scanner/Laws.antt =====
-- One step of `drain`, by what the split function returns.
use waveguide.Base.{ℕ, suc, ◌<◌, ◌≤◌, ◌≡◌, Bool, some, none, arith, length, returns, panic}
use waveguide.Base.Slice.{Slice}
use waveguide.Scanner.{SplitFunc, Events, token, ends, advance_too_far, panicked, drain, skip}

module _ (split : SplitFunc) (at_eof : Bool) (fuel : ℕ) (s : Slice) (more : Slice → Events) where
  pub drain_token :
      (n : ℕ) (t : Slice)
      → split s at_eof ≡ returns (record { advance = n; token = some t })
      → 0 < length s.elems
      → n ≤ length s.elems
      → drain split at_eof (suc fuel) s more ≡ token t (drain split at_eof fuel (skip n s) more)
  unfolding drain
  drain_token n t e some_data within = ground arith

  pub drain_more :
      (n : ℕ)
      → split s at_eof ≡ returns (record { advance = n; token = none })
      → 0 < length s.elems
      → n ≤ length s.elems
      → drain split at_eof (suc fuel) s more ≡ more (skip n s)
  unfolding drain
  drain_more n e some_data within = ground arith

  pub drain_far :
      (n : ℕ) (t : Slice)
      → split s at_eof ≡ returns (record { advance = n; token = some t })
      → 0 < length s.elems
      → length s.elems < n
      → drain split at_eof (suc fuel) s more ≡ ends advance_too_far
  unfolding drain
  drain_far n t e some_data beyond = ground arith

  pub drain_panics :
      split s at_eof ≡ panic
      → 0 < length s.elems
      → drain split at_eof (suc fuel) s more ≡ ends panicked
  unfolding drain
  drain_panics e some_data = ground arith
