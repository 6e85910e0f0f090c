-- ===== src/Control/Manager.antt =====
-- control.go: the manager's operations.
use waveguide.Base.{ℕ, suc, ◌+◌, true, Option, none, some, List, [], ◌∷◌, ltb, if◌then◌else◌}
use waveguide.Base.Text.{eq_bytes}
use waveguide.Control.Types.{
  Stream, StreamTrack, Request, service_start, service_end, orchestrator_start, orchestrator_stop,
  Answers, Control, Error, already_exists, not_in_state, remove_missing, service_failed,
  orchestrator_failed, incorrect_stream_key, Progress, finished, blocked, update, zero_stream,
}

abbrev pub asks : Request → Control → Control
asks q c = record c { requests = q ∷ c.requests }

unfoldable pub get_stream : Control → ℕ → Option ℕ
get_stream c id = c.streams id

-- The tracks of the stream, or the error of `getStream`.
unfoldable pub get_tracks : Control → ℕ → Option (List StreamTrack)
get_tracks c id = elim (get_stream c id) [ none ↦ none | some a ↦ some ((c.heap a).tracks) ]

-- `key` is the service's answer to `GetHmacKey`.
unfoldable pub authenticate : Option (List ℕ) → List ℕ → Option Error
authenticate none stream_key = some service_failed
authenticate (some key) stream_key =
    if eq_bytes stream_key key then none else some incorrect_stream_key

unfoldable pub remove_stream : ℕ → Control → Option Error × Control
remove_stream id c = elim (c.streams id) [
  | none ↦ (some remove_missing, c)
  | some a ↦ (
    none,
    record c {
      streams = update c.streams id none;
      metadata_collectors = update c.metadata_collectors id none;
    },
  )
]

abbrev pub fresh_stream : ℕ → ℕ → Stream
fresh_stream id now = record zero_stream { authenticated = true; channel_id = id; start_time = now }

abbrev pub allocated : ℕ → ℕ → Control → Control
allocated id now c = record c {
  heap = update c.heap c.next (fresh_stream id now);
  next = suc c.next;
}

-- The stream is made in any case, at the address `c.next`.
unfoldable pub new_stream : ℕ → ℕ → Control → Option Error × Control
new_stream id now c = elim (c.streams id) [
  | some a ↦ (some already_exists, allocated id now c)
  | none ↦ (
    none,
    record (allocated id now c) {
      streams = update c.streams id (some c.next);
      metadata_collectors = update c.metadata_collectors id (some 0);
    },
  )
]

-- A send on a channel with room for one value; `none` waits for ever.
abbrev pub send_one : ℕ → Option ℕ
send_one n = if ltb n 1 then some (n + 1) else none

abbrev pub send_to : Option ℕ → Option ℕ
send_to none = none
send_to (some n) = send_one n

-- The first error in the order in which `StopStream` looks at them.
abbrev pub stop_error : Answers → Option Error → Option Error
stop_error ans removed =
    if ans.ends
    then (if ans.withdraws then removed else some orchestrator_failed)
    else some service_failed

-- From the sends on, for the stream at `a`.
abbrev pub finish_stop : Answers → ℕ → ℕ → Control → Option Error × Control
finish_stop ans id a c =
    let s = c.heap a in
    let told =
      asks (orchestrator_stop (s.channel_id) (s.stream_id)) (asks (service_end (s.stream_id)) c) in
    let (removed, c') = remove_stream id told in
    (
      stop_error ans removed,
      record c' { heap = update (c'.heap) a (record (c'.heap a) { cancelled = true }) },
    )

unfoldable pub stop_stream : Answers → ℕ → Control → Progress (Option Error × Control)
unfolding get_stream remove_stream
stop_stream ans id c = elim (get_stream c id) [
  | none ↦ finished (some not_in_state, c)
  | some a ↦ elim (send_one ((c.heap a).stop_heartbeat)) [
    | none ↦ blocked
    | some h ↦ elim (send_one ((c.heap a).stop_peersnap)) [
      | none ↦ blocked
      | some p ↦ elim (send_to (c.metadata_collectors id)) [
        | none ↦ blocked
        | some m ↦ finished (
            finish_stop ans id a (record c {
              heap = update c.heap a (record (c.heap a) { stop_heartbeat = h; stop_peersnap = p });
              metadata_collectors = update c.metadata_collectors id (some m);
            }))
      ]
    ]
  ]
]

-- What `StartStream` returns: the stream, which is an empty one beside an error, the stream whose
-- context is returned, and the error.
pub record Started : Type 0 where
  pub stream : Option ℕ
  pub ctx : ℕ
  pub error : Option Error
  pub control : Control

abbrev pub failed_start : Error → ℕ → Control → Started
failed_start e ctx c = record { stream = none; ctx = ctx; error = some e; control = c }

-- The stream takes the id that the service gave it, and the orchestrator is asked.
abbrev pub announced : ℕ → ℕ → Control → Control
announced ctx sid c =
    asks (orchestrator_start ((c.heap ctx).channel_id) sid)
      (record c { heap = update c.heap ctx (record (c.heap ctx) { stream_id = sid }) })

-- What follows the orchestrator's answer. `stopping` is what the remote parties answer to the stop
-- after its failure.
unfoldable pub conclude : Answers → Answers → ℕ → ℕ → Control → Progress Started
conclude ans stopping id ctx c =
    if ans.announces
    then finished (record { stream = some ctx; ctx = ctx; error = none; control = c })
    else elim (stop_stream stopping id c) [
      | blocked ↦ blocked
      | finished r ↦ finished (failed_start orchestrator_failed ctx (r.1))
    ]

unfoldable pub start_stream : Answers → Answers → ℕ → Control → Progress Started
start_stream ans stopping id c =
    let ctx = c.next in
    let (e, c') = new_stream id (ans.now) c in
    elim e [
      | some x ↦ finished (failed_start x ctx c')
      | none ↦
          let told = asks (service_start id) c' in
          elim (ans.starts) [
            | none ↦ finished (failed_start service_failed ctx (remove_stream id told).1)
            | some sid ↦ conclude ans stopping id ctx (announced ctx sid told)
          ]
    ]

-- The channels in the order in which `range` visits them.
unfoldable pub shutdown : List (ℕ × Answers) → Control → Progress Control
shutdown [] c = finished c
shutdown ((id, ans) ∷ rest) c = elim (stop_stream ans id c) [
  | blocked ↦ blocked
  | finished r ↦ shutdown rest (r.1)
]

unfoldable pub new_control : Control
new_control = record {
  streams = λ _. none;
  metadata_collectors = λ _. none;
  heap = λ _. zero_stream;
  next = 0;
  requests = [];
}
