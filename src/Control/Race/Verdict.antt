-- ===== src/Control/Race/Verdict.antt =====
-- What is true of every run of concurrent calls of StopStream: one of them stops the stream, and one that
-- found the same stream and came too late never returns.
use waveguide.Base.{sym, ℕ, suc, ◌<◌, ◌≡◌, refl, ◌==◌, Bool-cases, none, some, inl, inr, arith}
use waveguide.Control.Types.{Answers, Control, update}
use waveguide.Control.Race.{
  At, looking, at_heartbeat, at_peersnap, at_collector, ending, withdrawing, removing, cancelling,
  returned, stop_step, Scene, step_of, Step, stop, start, collect, Reach, here, later,
}
use waveguide.Control.Race.Invariant.{holds, Fits, IsFair}
use waveguide.Control.Race.Steps.{held-IsPast}
use waveguide.Control.Race.Fair.{IsStart, IsStart-IsFair, Reach-IsFair}

run-IsFair : {s t : Scene} → IsStart s → Reach s t → IsFair t
run-IsFair {s} begun run = Reach-IsFair (IsStart-IsFair s begun) run

-- However the calls interleave with each other, with streams that start and with the heartbeat: two calls
-- that have passed the first send of the same stream are the same call.
pub stops_once :
    {s t : Scene} (i j a : ℕ)
    → IsStart s
    → Reach s t
    → holds (t.calls i).at ≡ some a
    → holds (t.calls j).at ≡ some a
    → i ≡ j
stops_once i j a begun run e f = (run-IsFair begun run).alone i j a e f

-- The steps that a call which has passed the first send has still to make.
unfoldable pub stages_left : At → ℕ
stages_left looking = 8
stages_left (at_heartbeat a) = 7
stages_left (at_peersnap a) = 6
stages_left (at_collector a) = 5
stages_left (ending a) = 4
stages_left (withdrawing a) = 3
stages_left (removing a) = 2
stages_left (cancelling a removed) = 1
stages_left (returned a e) = 0

winner_stage :
    (ans : Answers) (id : ℕ) (c : Control) (at : At) (a : ℕ)
    → Fits c id at
    → holds at ≡ some a
    → 0 < stages_left at
    → (q : At × Control) × (stop_step ans id at c ≡ some q)
      × (holds q.0 ≡ some a)
      × (suc (stages_left q.0) ≡ stages_left at)
unfolding holds stop_step stages_left
winner_stage ans id c looking a f e some_left = absurd (ground arith)
winner_stage ans id c (at_heartbeat b) a f e some_left = absurd (ground arith)
winner_stage ans id c (at_peersnap b) a (p, m, empty, free) e some_left = (
  (at_collector b, record c { heap = update c.heap b (record (c.heap b) { stop_peersnap = 1 }) }),
  rw empty refl,
  e,
  refl,
)
winner_stage ans id c (at_collector b) a (p, m, free) e some_left = (
  (ending b, record c { metadata_collectors = update c.metadata_collectors id (some 1) }),
  rw free refl,
  e,
  refl,
)
winner_stage ans id c (ending b) a f e some_left = (_, refl, e, refl)
winner_stage ans id c (withdrawing b) a f e some_left = (_, refl, e, refl)
winner_stage ans id c (removing b) a f e some_left = (_, refl, e, refl)
winner_stage ans id c (cancelling b removed) a f e some_left = (_, refl, e, refl)
winner_stage ans id c (returned b x) a f e some_left = absurd (omega arith)

-- While no StartStream fails with its stream in the map, the call that has passed the first send never
-- waits: whatever other stops, starts and the heartbeat have done, it can take its next step until it has
-- returned, and each brings it one nearer to that.
pub winner_returns :
    {s t : Scene} (i a : ℕ)
    → IsStart s
    → Reach s t
    → holds (t.calls i).at ≡ some a
    → 0 < stages_left (t.calls i).at
    → (q : At × Control) × (step_of i t ≡ some q)
      × (holds q.0 ≡ some a)
      × (suc (stages_left q.0) ≡ stages_left (t.calls i).at)
winner_returns {t = t} i a begun run e some_left =
    winner_stage (t.calls i).answers (t.calls i).channel t.control (t.calls i).at a
      ((run-IsFair begun run).fits i) e some_left

full_waits :
    (ans : Answers) (id a : ℕ) (at : At) (c : Control)
    → at ≡ at_heartbeat a
    → (c.heap a).stop_heartbeat ≡ 1
    → stop_step ans id at c ≡ none
unfolding stop_step
full_waits ans id a at c waits full = rw waits (rw full refl)

stage_holds :
    (ans : Answers) (id a : ℕ) (at : At) (c : Control) (q : At × Control)
    → stop_step ans id at c ≡ some q
    → holds at ≡ some a
    → holds q.0 ≡ some a
unfolding stop_step holds
stage_holds ans id a looking c q e held = absurd (ground arith)
stage_holds ans id a (at_heartbeat b) c q e held = absurd (ground arith)
stage_holds ans id a (at_peersnap b) c q e held = ground arith
stage_holds ans id a (at_collector b) c q e held = ground arith
stage_holds ans id a (ending b) c q e held = ground arith
stage_holds ans id a (withdrawing b) c q e held = ground arith
stage_holds ans id a (removing b) c q e held = ground arith
stage_holds ans id a (cancelling b removed) c q e held = ground arith
stage_holds ans id a (returned b x) c q e held = absurd (ground arith)

-- A call that waits at the first send of a stream whose channel is full stays there over every step.
step_waits :
    {s t : Scene} (j a : ℕ)
    → Step s t
    → (s.calls j).at ≡ at_heartbeat a
    → (s.control.heap a).stop_heartbeat ≡ 1
    → (t.calls j).at ≡ at_heartbeat a
step_waits {s} j a (stop i q e) waits full = elim (Bool-cases (j == i)) [
  | inr other ↦ rw other waits
  | inl same ↦
      let i_j : i ≡ j = ground arith in
      let stuck =
        full_waits (s.calls j).answers (s.calls j).channel a (s.calls j).at s.control waits full in
      let moved : step_of j s ≡ some q = rw (sym i_j) e in absurd (ground arith)
]
step_waits {s} j a (start id now) waits full = waits
step_waits {s} j a (collect id n filled) waits full = waits

-- A call that holds a stream holds it ever after.
step_holds :
    {s t : Scene} (i a : ℕ)
    → Step s t
    → holds (s.calls i).at ≡ some a
    → holds (t.calls i).at ≡ some a
step_holds {s} i a (stop k q e) held = elim (Bool-cases (i == k)) [
  | inr other ↦ rw other held
  | inl same ↦
      let k_i : k ≡ i = ground arith in
      let moved : step_of i s ≡ some q = rw (sym k_i) e in
      rw same (
        stage_holds (s.calls i).answers (s.calls i).channel a (s.calls i).at s.control q moved held)
]
step_holds {s} i a (start id now) held = held
step_holds {s} i a (collect id n full) held = held

-- Once one call has passed the first send of a stream, another that found the stream too never returns:
-- whatever happens, it stays at that send and cannot take a step.
pub loser_waits :
    {s t u : Scene} (i j a : ℕ)
    → IsStart s
    → Reach s t
    → holds (t.calls i).at ≡ some a
    → (t.calls j).at ≡ at_heartbeat a
    → Reach t u
    → ((u.calls j).at ≡ at_heartbeat a) × (step_of j u ≡ none)
loser_waits {s} {t} {u} i j a begun run held waits rest =
    let (waits', held') = stays rest in
    let fair = Reach-IsFair (run-IsFair begun run) rest in
    let p = held-IsPast u.control (u.calls i).channel (u.calls i).at a (fair.fits i) held' in
    (
      waits',
      full_waits (u.calls j).answers (u.calls j).channel a (u.calls j).at u.control waits' p.sent,
    )
  where
    stays :
        {v : Scene}
        → Reach t v
        → ((v.calls j).at ≡ at_heartbeat a) × (holds (v.calls i).at ≡ some a)
    stays here = (waits, held)
    stays (later {t = w} r st) =
        let (waits', held') = stays r in
        let fair = Reach-IsFair (run-IsFair begun run) r in
        let p = held-IsPast w.control (w.calls i).channel (w.calls i).at a (fair.fits i) held' in
        (step_waits j a st waits' p.sent, step_holds i a st held')
