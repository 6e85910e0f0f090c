-- ===== src/Control/Remote.antt =====
-- service.go, orchestrator.go and control.go: the remote parties behind the manager's interfaces.
-- A party has a state of its own. A call that returns an error is `none` or false.
pub mod Rounds
use waveguide.Base.{ℕ, Bool, true, false, Option, none, some, List, [], ◌∷◌}
use waveguide.Control.Types.{
  Request, service_start, service_end, orchestrator_start, orchestrator_stop, Answers, Control,
  Error, Progress,
}
use waveguide.Control.Manager.{Started, start_stream, stop_stream}
use waveguide.Control.Report.{StreamMetadata}

pub record Service : Type 1 where
  pub State : Type 0
  pub get_hmac_key : ℕ → State → Option (List ℕ) × State
  pub start_stream : ℕ → State → Option ℕ × State
  pub end_stream : ℕ → State → Bool × State
  pub update_stream_metadata : ℕ → StreamMetadata → State → Bool × State
  pub send_jpeg_preview_image : ℕ → List ℕ → State → Bool × State

pub record Orchestrator : Type 1 where
  pub State : Type 0
  pub start_stream : ℕ → ℕ → State → Bool × State
  pub stop_stream : ℕ → ℕ → State → Bool × State
  pub heartbeat : ℕ → State → Bool × State

pub record Parties (S : Service) (O : Orchestrator) : Type 0 where
  pub service : S.State
  pub orchestrator : O.State

module _ (S : Service) (O : Orchestrator) where
  -- What a request of the manager leaves of the parties.
  abbrev pub after_request : Request → Parties S O → Parties S O
  after_request (service_start id) p = record p { service = (S.start_stream id p.service).1 }
  after_request (service_end sid) p = record p { service = (S.end_stream sid p.service).1 }
  after_request (orchestrator_start id sid) p = record p {
    orchestrator = (O.start_stream id sid p.orchestrator).1;
  }
  after_request (orchestrator_stop id sid) p = record p {
    orchestrator = (O.stop_stream id sid p.orchestrator).1;
  }

  -- The parties after a history, the latest request first.
  abbrev pub after : List Request → Parties S O → Parties S O
  after [] p = p
  after (q ∷ qs) p = after_request q (after qs p)

  -- What the parties answer to the stop of a stream.
  unfoldable pub answers_to_stop : ℕ → ℕ → Parties S O → Answers
  answers_to_stop id sid p = record {
    now = 0;
    starts = none;
    announces = false;
    ends = (S.end_stream sid p.service).0;
    withdraws = (O.stop_stream id sid p.orchestrator).0;
  }

  -- What they answer to the start of a stream on a channel.
  unfoldable pub answers_to_start : ℕ → ℕ → Parties S O → Answers
  answers_to_start now id p =
      let (starts, service) = S.start_stream id p.service in
      record {
        now = now;
        starts = starts;
        announces = elim starts [
          | none ↦ false
          | some sid ↦ (O.start_stream id sid p.orchestrator).0
        ];
        ends = false;
        withdraws = false;
      }

  -- What they answer to the stop that follows a failed announcement.
  unfoldable pub answers_to_undo : ℕ → Parties S O → Answers
  unfolding answers_to_stop
  answers_to_undo id p = elim ((S.start_stream id p.service).0) [
    | none ↦ answers_to_stop id 0 p
    | some sid ↦
        answers_to_stop id sid (after (orchestrator_start id sid ∷ service_start id ∷ []) p)
  ]

  -- `StartStream` and `StopStream` with these parties, which were in the state `p` before the manager's first
  -- request.
  unfoldable pub start_with : ℕ → ℕ → Parties S O → Control → Progress Started
  unfolding answers_to_start answers_to_undo start_stream
  start_with now id p c =
      let now_parties = after c.requests p in
      start_stream (answers_to_start now id now_parties) (answers_to_undo id now_parties) id c

  unfoldable pub stop_with : ℕ → Parties S O → Control → Progress (Option Error × Control)
  unfolding answers_to_stop stop_stream
  stop_with id p c = elim (c.streams id) [
    | none ↦ stop_stream (answers_to_stop id 0 (after c.requests p)) id c
    | some a ↦
        let s = c.heap a in
        stop_stream (answers_to_stop s.channel_id s.stream_id (after c.requests p)) id c
  ]
