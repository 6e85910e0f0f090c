-- ===== src/Control/Race/Stages.antt =====
-- Each stage of StopStream keeps the invariant, wherever the other calls stand.
use waveguide.Base.{ℕ, ◌≡◌, refl, Option, none, some, Option-cases, inl, inr, arith}
use waveguide.Control.Types.{Control, Error, Request, update, not_in_state}
use waveguide.Control.Manager.{remove_stream, asks, get_stream}
use waveguide.Control.Race.{
  At, at_heartbeat, at_peersnap, at_collector, ending, removing, cancelling, returned, found,
  cancel, Scene, advance,
}
use waveguide.Control.Race.Invariant.{holds, IsFound, IsPast, Fits, IsFair}
use waveguide.Control.Race.Changes.{IsSent, IsUnmapped, IsPast-unmapped}
use waveguide.Control.Race.Steps.{
  Ours, Ours-held, Ours-free, sent_step, unmapped_step, advance-IsFair,
}

pub looking_stage :
    (s : Scene) (i : ℕ)
    → IsFair s
    → IsFair (advance i (found (get_stream s.control (s.calls i).channel), s.control) s)
unfolding get_stream holds
looking_stage s i fair = elim (Option-cases (s.control.streams (s.calls i).channel)) [
  | inl missing ↦
      rw missing (same (returned none (some not_in_state)) tt (λ a e. absurd (ground arith)))
  | inr (a, e) ↦
      let m = fair.mapped (s.calls i).channel a e in
      rw e (
        same (at_heartbeat a)
          (record { allocated = m.allocated; serves = m.serves; mapped = λ empty. e })
          (λ b f. absurd (ground arith)))
]
  where
    same :
        (at : At)
        → Fits s.control (s.calls i).channel at
        → ((a : ℕ) → holds at ≡ some a → Ours s i a)
        → IsFair (advance i (at, s.control) s)
    same at mine ours =
        advance-IsFair s i at s.control fair fair.mapped mine (λ j other. fair.fits j) ours

-- The stream with a value in its first channel, or in its first two.
abbrev pub signalled : ℕ → Control → Control
signalled a c = record c { heap = update c.heap a (record (c.heap a) { stop_heartbeat = 1 }) }

pub heartbeat_stage :
    (s : Scene) (i a : ℕ)
    → IsFair s
    → IsFound s.control (s.calls i).channel a
    → (s.control.heap a).stop_heartbeat ≡ 0
    → IsFair (advance i (at_peersnap a, signalled a s.control) s)
unfolding holds
heartbeat_stage s i a fair f empty =
    let m = fair.mapped (s.calls i).channel a (f.mapped empty) in
    let change : IsSent s.control a (signalled a s.control) = record {
      next = refl;
      others = λ b other. ground arith;
      serves = ground arith;
      sent = ground arith;
      streams = λ j. refl;
      collectors = λ j. refl;
    } in
    let past : IsPast (signalled a s.control) (s.calls i).channel a = record {
      allocated = f.allocated;
      serves = ground (arith, f.serves);
      sent = ground arith;
    } in
    sent_step s i a (at_peersnap a) (signalled a s.control) fair (Ours-free s i a fair empty) change
      (past, f.mapped empty, ground (arith, m.peersnap_free), m.collector_free empty) refl

-- The stages of a call that has passed the first send of the stream at `a`.
module _ (s : Scene) (i a : ℕ) (fair : IsFair s) (held : holds (s.calls i).at ≡ some a) where
  abbrev c : Control
  c = s.control

  abbrev id : ℕ
  id = (s.calls i).channel

  sends :
      (at : At) (c' : Control)
      → IsSent c a c'
      → Fits c' id at
      → holds at ≡ some a
      → IsFair (advance i (at, c') s)
  sends at c' change mine same =
      sent_step s i a at c' fair (Ours-held s i a fair held) change mine same

  unmaps :
      (at : At) (c' : Control)
      → IsUnmapped c id a c'
      → Fits c' id at
      → holds at ≡ some a
      → IsFair (advance i (at, c') s)
  unmaps at c' change mine same =
      unmapped_step s i id a at c' fair (Ours-held s i a fair held) change mine same

  pub peersnap_stage :
      Fits c id (at_peersnap a)
      → IsFair (
          advance i
            (
              at_collector a,
              record c { heap = update c.heap a (record (c.heap a) { stop_peersnap = 1 }) },
            )
            s)
  unfolding holds
  peersnap_stage (p, m, empty, free) =
      let c' : Control = record c {
        heap = update c.heap a (record (c.heap a) { stop_peersnap = 1 });
      } in
      let past : IsPast c' id a = record {
        allocated = p.allocated;
        serves = ground (arith, p.serves);
        sent = ground (arith, p.sent);
      } in
      sends (at_collector a) c'
        (record {
          next = refl;
          others = λ b other. ground arith;
          serves = ground arith;
          sent = ground (arith, p.sent);
          streams = λ j. refl;
          collectors = λ j. refl;
        })
        (past, m, free) refl

  pub collector_stage :
      Fits c id (at_collector a)
      → IsFair (
          advance i
            (ending a, record c { metadata_collectors = update c.metadata_collectors id (some 1) })
            s)
  unfolding holds
  collector_stage (p, m, free) =
      let c' : Control = record c {
        metadata_collectors = update c.metadata_collectors id (some 1);
      } in
      let change : IsUnmapped c id a c' = record {
        next = refl;
        heap = λ b. refl;
        was = m;
        sent = p.sent;
        streams = λ j other. refl;
        left = λ b e. ground (arith, m);
        collectors = λ j other. ground arith;
      } in
      unmaps (ending a) c' change (IsPast-unmapped c c' id a id a change p, m) refl

  pub asks_stage :
      (at : At) (q : Request)
      → Fits c id (removing a)
      → ((c' : Control) → Fits c' id (removing a) → Fits c' id at)
      → holds at ≡ some a
      → IsFair (advance i (at, asks q c) s)
  asks_stage at q (p, m) fits same =
      let change : IsUnmapped c id a (asks q c) = record {
        next = refl;
        heap = λ b. refl;
        was = m;
        sent = p.sent;
        streams = λ j other. refl;
        left = λ b e. ground (arith, m);
        collectors = λ j other. refl;
      } in
      unmaps at (asks q c) change
        (fits (asks q c) (IsPast-unmapped c (asks q c) id a id a change p, m)) same

  pub removing_stage :
      Fits c id (removing a)
      → IsFair (advance i (cancelling a (remove_stream id c).0, (remove_stream id c).1) s)
  unfolding holds remove_stream
  removing_stage (p, m) =
      let c' = (remove_stream id c).1 in
      let change : IsUnmapped c id a c' = record {
        next = ground (arith, m);
        heap = λ b. ground (arith, m);
        was = m;
        sent = p.sent;
        streams = λ j other. ground (arith, m);
        left = λ b e. absurd (ground (arith, m));
        collectors = λ j other. ground (arith, m);
      } in
      unmaps (cancelling a (remove_stream id c).0) c' change
        (IsPast-unmapped c c' id a id a change p) refl

  pub cancelling_stage :
      (e : Option Error) → IsPast c id a → IsFair (advance i (returned (some a) e, cancel a c) s)
  unfolding holds
  cancelling_stage e p =
      sends (returned (some a) e) (cancel a c)
        (record {
          next = refl;
          others = λ b other. ground arith;
          serves = ground arith;
          sent = ground (arith, p.sent);
          streams = λ j. refl;
          collectors = λ j. refl;
        })
        (record {
          allocated = p.allocated;
          serves = ground (arith, p.serves);
          sent = ground (arith, p.sent);
        })
        refl
