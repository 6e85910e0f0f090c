-- ===== src/Control/Rules.antt =====
-- The manager's invariant, and that every operation keeps it.
use waveguide.Base.{
  if◌then◌else◌, ◌==◌, ℕ, ◌<◌, ◌≡◌, ◌≢◌, true, false, Option, none, some, ◌∷◌, arith, Option-cases,
  inl, inr,
}
use waveguide.Control.Types.{
  Answers, orchestrator_stop, service_end, Control, Error, finished, update, not_in_state,
}
use waveguide.Control.Manager.{remove_stream, new_stream, stop_error, stop_stream, finish_stop}

-- The stream at `a` serves the channel `id`: it is allocated, its context is open, and nothing has
-- been sent on its channels.
pub record IsLive (c : Control) (id a : ℕ) : Type 0 where
  pub allocated : a < c.next
  pub serves : (c.heap a).channel_id ≡ id
  pub running : (c.heap a).cancelled ≡ false
  pub heartbeat_free : (c.heap a).stop_heartbeat ≡ 0
  pub peersnap_free : (c.heap a).stop_peersnap ≡ 0
  pub collector_free : c.metadata_collectors id ≡ some 0

-- Every stream in the map is live.
abbrev pub IsWell : Control → Type 0
IsWell c = (id a : ℕ) → c.streams id ≡ some a → IsLive c id a

pub new_stream-IsWell : (id now : ℕ) (c : Control) → IsWell c → IsWell (new_stream id now c).1
unfolding new_stream
new_stream-IsWell id now c w j a e = ground (arith, w j a)

-- The stream that `newStream` makes has an open context, also where it is not put into the map.
pub new_stream_running :
    (id now : ℕ) (c : Control) → ((new_stream id now c).1.heap c.next).cancelled ≡ false
unfolding new_stream
new_stream_running id now c = ground arith

pub remove_stream-IsWell : (id : ℕ) (c : Control) → IsWell c → IsWell (remove_stream id c).1
unfolding remove_stream
remove_stream-IsWell id c w j a e = ground (arith, w j a)

-- What the stop of the stream at `a` leaves.
pub record IsStopped (c : Control) (id a : ℕ) (c' : Control) : Type 0 where
  pub gone : c'.streams id ≡ none
  pub uncollected : c'.metadata_collectors id ≡ none
  pub others : (j : ℕ) → j ≢ id → c'.streams j ≡ c.streams j
  pub cancelled : (c'.heap a).cancelled ≡ true
  pub told :
      c'.requests
      ≡ orchestrator_stop id ((c.heap a).stream_id)
        ∷ service_end ((c.heap a).stream_id)
        ∷ c.requests

-- The state after the three sends.
abbrev signalled : ℕ → ℕ → Control → Control
signalled id a c = record c {
  heap = update c.heap a (record (c.heap a) { stop_heartbeat = 1; stop_peersnap = 1 });
  metadata_collectors = update c.metadata_collectors id (some 1);
}

stop_stream_finishes :
    (ans : Answers) (id a : ℕ) (c : Control)
    → c.streams id ≡ some a
    → IsLive c id a
    → stop_stream ans id c ≡ finished (finish_stop ans id a (signalled id a c))
unfolding stop_stream
stop_stream_finishes ans id a c e live = ground arith

pub stop_stream_missing :
    (ans : Answers) (id : ℕ) (c : Control)
    → c.streams id ≡ none
    → stop_stream ans id c ≡ finished (some not_in_state, c)
unfolding stop_stream
stop_stream_missing ans id c e = ground arith

finish_stop_error :
    (ans : Answers) (id a : ℕ) (c : Control)
    → c.streams id ≡ some a
    → (finish_stop ans id a (signalled id a c)).0 ≡ stop_error ans none
unfolding remove_stream
finish_stop_error ans id a c e = ground arith

finish_stop-IsStopped :
    (ans : Answers) (id a : ℕ) (c : Control)
    → c.streams id ≡ some a
    → IsLive c id a
    → IsStopped c id a (finish_stop ans id a (signalled id a c)).1
unfolding remove_stream
finish_stop-IsStopped ans id a c e live = record {
  gone = ground arith;
  uncollected = ground arith;
  others = λ j ne. ground arith;
  cancelled = ground arith;
  told = ground arith;
}

finish_stop-IsWell :
    (ans : Answers) (id a : ℕ) (c : Control)
    → c.streams id ≡ some a
    → IsWell c
    → IsWell (finish_stop ans id a (signalled id a c)).1
unfolding remove_stream
finish_stop-IsWell ans id a c e w j b f = ground (arith, w id a e, w j b)

-- On a stream in the map `StopStream` never waits: it leaves the map, its context is cancelled, and
-- both remote parties have been told, whatever they answer. The error is the service's, if that has
-- one, and else the orchestrator's.
pub stop_stream_mapped :
    (ans : Answers) (id a : ℕ) (c : Control)
    → IsWell c
    → c.streams id ≡ some a
    → (r : Option Error × Control) × (stop_stream ans id c ≡ finished r)
      × (r.0 ≡ stop_error ans none)
      × IsStopped c id a r.1
      × IsWell r.1
stop_stream_mapped ans id a c w e = (
  finish_stop ans id a (signalled id a c),
  stop_stream_finishes ans id a c e (w id a e),
  finish_stop_error ans id a c e,
  finish_stop-IsStopped ans id a c e (w id a e),
  finish_stop-IsWell ans id a c e w,
)

-- On a channel with or without a stream `StopStream` never waits, and keeps the invariant.
pub stop_stream-IsWell :
    (ans : Answers) (id : ℕ) (c : Control)
    → IsWell c
    → (r : Option Error × Control) × (stop_stream ans id c ≡ finished r) × IsWell r.1
stop_stream-IsWell ans id c w = elim (Option-cases (c.streams id)) [
  | inl missing ↦ ((some not_in_state, c), stop_stream_missing ans id c missing, w)
  | inr (a, e) ↦ (
    finish_stop ans id a (signalled id a c),
    stop_stream_finishes ans id a c e (w id a e),
    finish_stop-IsWell ans id a c e w,
  )
]

-- With or without a stream, `StopStream` never waits, and exactly the channel is gone afterwards.
pub stop_stream_map :
    (ans : Answers) (id : ℕ) (c : Control)
    → IsWell c
    → (r : Option Error × Control) × (stop_stream ans id c ≡ finished r)
      × IsWell r.1
      × ((j : ℕ) → r.1.streams j ≡ (if j == id then none else c.streams j))
stop_stream_map ans id c w = elim (Option-cases (c.streams id)) [
  | inl missing ↦
      ((some not_in_state, c), stop_stream_missing ans id c missing, w, λ j. ground arith)
  | inr (a, e) ↦
      let (r, stops, _, stopped, well) = stop_stream_mapped ans id a c w e in
      (r, stops, well, λ j. ground (arith, stopped.gone, stopped.others j))
]
