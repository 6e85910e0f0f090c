-- ===== src/Control/Race/Fair.antt =====
-- Every step of every goroutine keeps the invariant.
use waveguide.Base.{ℕ, ◌<◌, ◌≡◌, refl, some, arith}
use waveguide.Control.Types.{Control, update, service_end, orchestrator_stop}
use waveguide.Control.Manager.{remove_stream, new_stream, asks, get_stream, stop_error}
use waveguide.Control.Rules.{IsWell}
use waveguide.Control.Race.{
  At, looking, at_heartbeat, at_peersnap, at_collector, ending, withdrawing, removing, cancelling,
  returned, found, cancel, stop_step, Scene, advance, collected, Step, stop, start, collect, Reach,
  here, later,
}
use waveguide.Control.Race.Invariant.{holds, IsMapped, IsFound, Fits, IsFair, IsKept, Fits-kept}
use waveguide.Control.Race.Changes.{
  new_stream-IsKept, new_stream-IsFound, new_stream-IsMapped, collected-IsKept, collected-IsFound,
  collected-IsMapped,
}
use waveguide.Control.Race.Stages.{
  signalled, looking_stage, heartbeat_stage, peersnap_stage, collector_stage, asks_stage,
  removing_stage, cancelling_stage,
}

step_at-IsFair :
    (s : Scene) (i : ℕ) (at : At) (q : At × Control)
    → IsFair s
    → (s.calls i).at ≡ at
    → Fits s.control (s.calls i).channel at
    → stop_step (s.calls i).answers (s.calls i).channel at s.control ≡ some q
    → IsFair (advance i q s)
unfolding holds stop_step
step_at-IsFair s i looking q fair stands f e =
    let same : q ≡ (found (get_stream s.control (s.calls i).channel), s.control) = ground arith in
    rw same (looking_stage s i fair)
step_at-IsFair s i (at_heartbeat a) q fair stands f e =
    let empty : (s.control.heap a).stop_heartbeat ≡ 0 = ground arith in
    let same : q ≡ (at_peersnap a, signalled a s.control) = ground arith in
    rw same (heartbeat_stage s i a fair f empty)
step_at-IsFair s i (at_peersnap a) q fair stands f e =
    let (_, _, empty, _) = f in
    let same : q ≡ (
      at_collector a,
      record (s.control) {
        heap = update s.control.heap a (record (s.control.heap a) { stop_peersnap = 1 });
      },
    ) =
      ground arith in
    rw same (peersnap_stage s i a fair (rw stands refl) f)
step_at-IsFair s i (at_collector a) q fair stands f e =
    let (_, _, empty) = f in
    let same : q ≡ (
      ending a,
      record (s.control) {
        metadata_collectors = update s.control.metadata_collectors (s.calls i).channel (some 1);
      },
    ) =
      ground arith in
    rw same (collector_stage s i a fair (rw stands refl) f)
step_at-IsFair s i (ending a) q fair stands f e =
    let same : q ≡ (withdrawing a, asks (service_end (s.control.heap a).stream_id) s.control) =
      ground arith in
    rw same (asks_stage s i a fair (rw stands refl) (withdrawing a) _ f (λ c' g. g) refl)
step_at-IsFair s i (withdrawing a) q fair stands f e =
    let told = orchestrator_stop (s.control.heap a).channel_id (s.control.heap a).stream_id in
    let same : q ≡ (removing a, asks told s.control) = ground arith in
    rw same (asks_stage s i a fair (rw stands refl) (removing a) told f (λ c' g. g) refl)
step_at-IsFair s i (removing a) q fair stands f e =
    let same : q ≡ (
      cancelling a (remove_stream (s.calls i).channel s.control).0,
      (remove_stream (s.calls i).channel s.control).1,
    ) =
      ground arith in
    rw same (removing_stage s i a fair (rw stands refl) f)
step_at-IsFair s i (cancelling a removed) q fair stands f e =
    let same : q
        ≡ (returned (some a) (stop_error (s.calls i).answers removed), cancel a s.control) =
      ground arith in
    rw same (cancelling_stage s i a fair (rw stands refl) _ f)
step_at-IsFair s i (returned a x) q fair stands f e = absurd (ground arith)

-- A change of the manager that leaves every call where it stands.
around :
    (s : Scene) (c : Control)
    → IsFair s
    → ((id a : ℕ)
        → (s.control.streams id ≡ some a → IsMapped s.control id a)
        → c.streams id ≡ some a
        → IsMapped c id a)
    → ((id a : ℕ) → a < s.control.next → IsKept s.control c id a)
    → ((id a : ℕ) → IsFound s.control id a → IsFound c id a)
    → IsFair (record s { control = c })
around s c fair mapped keeps finds = record {
  mapped = λ id a. mapped id a (fair.mapped id a);
  fits = λ i.
      Fits-kept s.control c (s.calls i).channel (s.calls i).at
        (λ b old e. keeps (s.calls i).channel b old) (finds (s.calls i).channel) (fair.fits i);
  alone = fair.alone;
}

Step-IsFair : {s t : Scene} → Step s t → IsFair s → IsFair t
Step-IsFair {s} (stop i q e) fair = step_at-IsFair s i (s.calls i).at q fair refl (fair.fits i) e
Step-IsFair {s} (start id now) fair =
    around s (new_stream id now s.control).1 fair (new_stream-IsMapped id now s.control)
      (new_stream-IsKept id now s.control) (new_stream-IsFound id now s.control)
Step-IsFair {s} (collect id n full) fair =
    around s (collected id n s.control) fair
      (λ k a before e. collected-IsMapped id n s.control full k a (before e))
      (λ k a old. collected-IsKept id n s.control full k a) (collected-IsFound id n s.control full)

pub Reach-IsFair : {s t : Scene} → IsFair s → Reach s t → IsFair t
Reach-IsFair fair here = fair
Reach-IsFair fair (later r st) = Step-IsFair st (Reach-IsFair fair r)

-- A manager that satisfies its invariant, and calls that have not begun.
pub record IsStart (s : Scene) : Type 0 where
  pub well : IsWell s.control
  pub idle : (i : ℕ) → (s.calls i).at ≡ looking

pub IsStart-IsFair : (s : Scene) → IsStart s → IsFair s
unfolding holds
IsStart-IsFair s begun = record {
  mapped = λ id a e.
      let live = begun.well id a e in
      record {
        allocated = live.allocated;
        serves = live.serves;
        peersnap_free = λ empty. live.peersnap_free;
        collector_free = λ empty. live.collector_free;
      };
  fits = λ i. rw (begun.idle i) tt;
  alone = λ i j a e f. absurd (ground (arith, begun.idle i));
}
