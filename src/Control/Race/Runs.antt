-- ===== src/Control/Race/Runs.antt =====
-- Two calls of StopStream for one stream, and what the theorems say of them.
use waveguide.Base.{ℕ, suc, ◌<◌, ◌≡◌, refl, true, none, some, arith}
use waveguide.Control.Types.{Answers, Control, update}
use waveguide.Control.Manager.{new_control, new_stream, get_stream}
use waveguide.Control.Rules.{IsWell, new_stream-IsWell}
use waveguide.Control.Race.{
  At, looking, at_heartbeat, at_peersnap, at_collector, stop_step, Scene, advance, step_of, stop,
  Reach, here, later,
}
use waveguide.Control.Race.Invariant.{holds}
use waveguide.Control.Race.Fair.{IsStart}
use waveguide.Control.Race.Verdict.{stops_once, stages_left, winner_returns, loser_waits}

abbrev agreeing : Answers
agreeing = record { now = 100; starts = some 42; announces = true; ends = true; withdraws = true }

new_control-IsWell : IsWell new_control
unfolding new_control
new_control-IsWell id a e = cc

-- A manager with one stream, of channel 7, which any number of calls may be made to stop.
abbrev idle : Scene
idle = record {
  calls = λ i. record { channel = 7; answers = agreeing; at = looking };
  control = (new_stream 7 100 new_control).1;
}

idle-IsStart : IsStart idle
idle-IsStart = record {
  well = new_stream-IsWell 7 100 new_control new_control-IsWell;
  idle = λ i. refl;
}

-- The state after the first send.
abbrev sent : Control
sent = record (idle.control) {
  heap = update idle.control.heap 0 (record (idle.control.heap 0) { stop_heartbeat = 1 });
}

-- The calls 0 and 1 find the stream, and 0 sends first.
abbrev both_found : Scene
both_found =
    advance 1 (at_heartbeat 0, idle.control) (advance 0 (at_heartbeat 0, idle.control) idle)

abbrev raced : Scene
raced = advance 0 (at_peersnap 0, sent) both_found

raced_run : Reach idle raced
unfolding stop_step get_stream new_stream new_control
raced_run =
    later
      (later (later here (stop 0 (at_heartbeat 0, idle.control) refl))
        (stop 1 (at_heartbeat 0, idle.control) refl))
      (stop 0 (at_peersnap 0, sent) refl)

raced_holds : holds (raced.calls 0).at ≡ some 0
unfolding holds
raced_holds = refl

abbrev first : ℕ
first = 0

stops_once_example : first ≡ first
stops_once_example = stops_once first first 0 idle-IsStart raced_run raced_holds raced_holds

raced_left : 0 < stages_left (raced.calls 0).at
unfolding stages_left
raced_left = omega arith

winner_returns_example :
    (q : At × Control) × (step_of 0 raced ≡ some q)
    × (holds q.0 ≡ some 0)
    × (suc (stages_left q.0) ≡ stages_left (raced.calls 0).at)
winner_returns_example = winner_returns 0 0 idle-IsStart raced_run raced_holds raced_left

-- The state after the second send.
abbrev sent_twice : Control
sent_twice = record sent { heap = update sent.heap 0 (record (sent.heap 0) { stop_peersnap = 1 }) }

abbrev collecting : Scene
collecting = advance 0 (at_collector 0, sent_twice) raced

loser_waits_example : ((raced.calls 1).at ≡ at_heartbeat 0) × (step_of 1 raced ≡ none)
loser_waits_example = loser_waits 0 1 0 idle-IsStart raced_run raced_holds refl here
