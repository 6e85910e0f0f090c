-- ===== src/Inputs/Whip/Overlap.antt =====
-- whip.go: a DELETE and the callback that its closing of the connection causes, both of which call
-- StopStream, at the same time.
use waveguide.Base.{ℕ, ◌==◌, if◌then◌else◌}
use waveguide.Control.Types.{Answers, Control, update}
use waveguide.Control.Race.{looking, at_heartbeat, at_peersnap, Scene, advance}
use waveguide.Inputs.Whip.{Source, cleanup_peer}

-- The manager once the DELETE has closed the connection: the call 0 of StopStream is its own, the others
-- are those of callbacks.
abbrev pub overlapping : Answers → Answers → ℕ → Source → Scene
overlapping stopping closing id s = record {
  calls =
      λ i. record { channel = id; answers = if i == 0 then stopping else closing; at = looking };
  control = (cleanup_peer id s).control;
}

-- The first send to the heartbeat of the stream at `a`.
abbrev told : ℕ → Control → Control
told a c = record c { heap = update (c.heap) a (record (c.heap a) { stop_heartbeat = 1 }) }

-- Both calls have found the stream at `a`, and the callback's has sent first.
abbrev pub outrun : Answers → Answers → ℕ → ℕ → Source → Scene
outrun stopping closing id a s =
    let scene = overlapping stopping closing id s in
    let c = scene.control in
    advance 1 (at_peersnap a, told a c)
      (advance 0 (at_heartbeat a, c) (advance 1 (at_heartbeat a, c) scene))
