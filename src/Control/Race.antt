-- ===== src/Control/Race.antt =====
-- control.go: calls of StopStream that run at the same time, beside streams that start and the goroutine
-- of the heartbeat. A step is one send, one call of a remote party or one change of the state.
-- A StartStream that fails after its stream is in the map is no step here: it may make a StopStream wait,
-- as Verdict shows. Left out are torn accesses of the maps, which have no lock.
pub mod Changes
pub mod Invariant
pub mod Steps
pub mod Stages
pub mod Fair
pub mod Verdict
mod Runs
use waveguide.Base.{ℕ, zero, suc, true, Option, none, some, ◌≡◌}
use waveguide.Control.Types.{
  Answers, Control, Error, not_in_state, Progress, finished, blocked, update, service_end,
  orchestrator_stop,
}
use waveguide.Control.Manager.{
  asks, get_stream, remove_stream, new_stream, send_one, send_to, stop_error,
}

-- What a call does next, for the stream at the address: the three sends, the two remote calls, the
-- removal and the cancellation. A call that has returned keeps the stream that it stopped.
pub data At : Type 0 where
  looking : At
  at_heartbeat at_peersnap at_collector ending withdrawing removing : ℕ → At
  cancelling : ℕ → Option Error → At
  returned : Option ℕ → Option Error → At

abbrev pub found : Option ℕ → At
found none = returned none (some not_in_state)
found (some a) = at_heartbeat a

abbrev pub sent_heartbeat : ℕ → Option ℕ → Control → Option (At × Control)
sent_heartbeat a none c = none
sent_heartbeat a (some h) c = some (
  at_peersnap a,
  record c { heap = update (c.heap) a (record (c.heap a) { stop_heartbeat = h }) },
)

abbrev pub sent_peersnap : ℕ → Option ℕ → Control → Option (At × Control)
sent_peersnap a none c = none
sent_peersnap a (some p) c = some (
  at_collector a,
  record c { heap = update (c.heap) a (record (c.heap a) { stop_peersnap = p }) },
)

abbrev pub sent_collector : ℕ → ℕ → Option ℕ → Control → Option (At × Control)
sent_collector id a none c = none
sent_collector id a (some m) c =
    some (ending a, record c { metadata_collectors = update (c.metadata_collectors) id (some m) })

abbrev pub cancel : ℕ → Control → Control
cancel a c = record c { heap = update (c.heap) a (record (c.heap a) { cancelled = true }) }

-- One step of a call, none while it waits or once it has returned.
unfoldable pub stop_step : Answers → ℕ → At → Control → Option (At × Control)
stop_step ans id looking c = some (found (get_stream c id), c)
stop_step ans id (at_heartbeat a) c = sent_heartbeat a (send_one ((c.heap a).stop_heartbeat)) c
stop_step ans id (at_peersnap a) c = sent_peersnap a (send_one ((c.heap a).stop_peersnap)) c
stop_step ans id (at_collector a) c = sent_collector id a (send_to (c.metadata_collectors id)) c
stop_step ans id (ending a) c = some (withdrawing a, asks (service_end ((c.heap a).stream_id)) c)
stop_step ans id (withdrawing a) c =
    some (removing a, asks (orchestrator_stop ((c.heap a).channel_id) ((c.heap a).stream_id)) c)
stop_step ans id (removing a) c = some (cancelling a (remove_stream id c).0, (remove_stream id c).1)
stop_step ans id (cancelling a removed) c =
    some (returned (some a) (stop_error ans removed), cancel a c)
stop_step ans id (returned a e) c = none

pub record Call : Type 0 where
  pub channel : ℕ
  pub answers : Answers
  pub at : At

-- Any number of calls, of which those that are `looking` may not have begun.
pub record Scene : Type 0 where
  pub calls : ℕ → Call
  pub control : Control

abbrev pub advance : ℕ → At × Control → Scene → Scene
advance i q s = record {
  calls = update (s.calls) i (record (s.calls i) { at = q.0 });
  control = q.1;
}

abbrev pub step_of : ℕ → Scene → Option (At × Control)
step_of i s = stop_step ((s.calls i).answers) ((s.calls i).channel) ((s.calls i).at) (s.control)

-- The goroutine of the heartbeat takes a value from the collector's channel.
abbrev pub collected : ℕ → ℕ → Control → Control
collected id n c = record c { metadata_collectors = update (c.metadata_collectors) id (some n) }

pub data Step : Scene → Scene → Type 0 where
  stop : {s : Scene} (i : ℕ) (q : At × Control) → step_of i s ≡ some q → Step s (advance i q s)
  start :
      {s : Scene} (id now : ℕ) → Step s (record s { control = (new_stream id now (s.control)).1 })
  collect :
      {s : Scene} (id n : ℕ)
      → s.control.metadata_collectors id ≡ some (suc n)
      → Step s (record s { control = collected id n (s.control) })

pub data Reach (s : Scene) : Scene → Type 0 where
  here : Reach s s
  later : {t u : Scene} → Reach s t → Step t u → Reach s u
