-- ===== src/Control/Lifecycle.antt =====
-- `StartStream` and `Shutdown` as a whole: all or nothing.
use waveguide.Base.{
  ℕ, ◌≡◌, ◌≢◌, refl, ◌∙◌, ◌⊎◌, Bool, true, false, none, some, List, [], ◌∷◌, arith, Option-cases,
  Bool-cases, inl, inr, ◌==◌, ◌||◌, if◌then◌else◌,
}
use waveguide.Control.Types.{
  Answers, Control, finished, orchestrator_failed, service_failed, already_exists, service_start,
}
use waveguide.Control.Manager.{
  asks, remove_stream, new_stream, start_stream, announced, conclude, failed_start, shutdown,
  Started,
}
use waveguide.Control.Rules.{
  IsWell, new_stream-IsWell, remove_stream-IsWell, stop_stream_mapped, stop_stream_missing,
}

-- What a successful start leaves: the new stream is in the map, under the id that the service gave it.
pub record IsStarted (c : Control) (id : ℕ) (ans : Answers) (s : Started) : Type 0 where
  pub no_error : s.error ≡ none
  pub was_free : c.streams id ≡ none
  pub context : s.ctx ≡ c.next
  pub returned : s.stream ≡ some s.ctx
  pub mapped : s.control.streams id ≡ some s.ctx
  pub named : ans.starts ≡ some ((s.control.heap s.ctx).stream_id)
  pub others : (j : ℕ) → j ≢ id → s.control.streams j ≡ c.streams j

-- What a failed one leaves: no stream is returned and the map is as before.
pub record IsRefused (c : Control) (s : Started) : Type 0 where
  pub failed : s.error ≢ none
  pub context : s.ctx ≡ c.next
  pub returned : s.stream ≡ none
  pub unchanged : (j : ℕ) → s.control.streams j ≡ c.streams j

-- The state in which the new stream is in the map and the service has been asked.
abbrev pub entered : ℕ → ℕ → Control → Control
entered id now c = asks (service_start id) (new_stream id now c).1

pub entered-IsWell : (id now : ℕ) (c : Control) → IsWell c → IsWell (entered id now c)
entered-IsWell id now c w j a e =
    let live = new_stream-IsWell id now c w j a e in
    record {
      allocated = live.allocated;
      serves = live.serves;
      running = live.running;
      heartbeat_free = live.heartbeat_free;
      peersnap_free = live.peersnap_free;
      collector_free = live.collector_free;
    }

pub announced-IsWell : (ctx sid : ℕ) (c : Control) → IsWell c → IsWell (announced ctx sid c)
announced-IsWell ctx sid c w j a e = ground (arith, w j a e)

-- The map while the new stream is in it.
pub entered_streams :
    (id now j : ℕ) (c : Control)
    → c.streams id ≡ none
    → (entered id now c).streams j ≡ (if j == id then some c.next else c.streams j)
unfolding new_stream
entered_streams id now j c free = ground arith

pub conclude_succeeds :
    (ans stopping : Answers) (id sid : ℕ) (c : Control)
    → c.streams id ≡ none
    → ans.starts ≡ some sid
    → ans.announces ≡ true
    → let c' = announced c.next sid (entered id ans.now c) in
      let s : Started = record { stream = some c.next; ctx = c.next; error = none; control = c' } in
      (conclude ans stopping id c.next c' ≡ finished s) × IsStarted c id ans s
unfolding conclude
conclude_succeeds ans stopping id sid c free e told = (
  rw told,
  record {
    no_error = refl;
    was_free = free;
    context = refl;
    returned = refl;
    mapped = ground (arith, entered_streams id ans.now id c free);
    named = ground arith;
    others = λ j ne. ground (arith, entered_streams id ans.now j c free);
  },
)

conclude_fails :
    (ans stopping : Answers) (id sid : ℕ) (c : Control)
    → IsWell c
    → c.streams id ≡ none
    → ans.announces ≡ false
    → (s : Started) × (conclude ans stopping id c.next (announced c.next sid (entered id ans.now c))
        ≡ finished s)
      × IsWell s.control
      × IsRefused c s
unfolding conclude
conclude_fails ans stopping id sid c w free told =
    let c' : Control = announced c.next sid (entered id ans.now c) in
    let well : IsWell c' =
      announced-IsWell c.next sid (entered id ans.now c) (entered-IsWell id ans.now c w) in
    let mapped : c'.streams id ≡ some c.next =
      ground (arith, entered_streams id ans.now id c free) in
    let (r, e, error, stopped, well') = stop_stream_mapped stopping id c.next c' well mapped in
    (
      failed_start orchestrator_failed c.next r.1,
      rw (told, e),
      well',
      record {
        failed = λ h. cc;
        context = refl;
        returned = refl;
        unchanged = λ j.
            ground (arith, stopped.gone, stopped.others j, entered_streams id ans.now j c free);
      },
    )

pub new_stream_taken :
    (id now a : ℕ) (c : Control)
    → c.streams id ≡ some a
    → ((new_stream id now c).0 ≡ some already_exists)
      × ((j : ℕ) → (new_stream id now c).1.streams j ≡ c.streams j)
unfolding new_stream
new_stream_taken id now a c e = (ground arith, λ j. ground arith)

-- A channel that is live is not started again; the stream that was made for it is not in the map.
pub start_stream_taken :
    (ans stopping : Answers) (id a : ℕ) (c : Control)
    → c.streams id ≡ some a
    → start_stream ans stopping id c
      ≡ finished (failed_start already_exists c.next (new_stream id ans.now c).1)
unfolding start_stream
start_stream_taken ans stopping id a c taken =
    rw ((new_stream_taken id ans.now a c taken).0, start_stream)

new_stream_free : (id now : ℕ) (c : Control) → c.streams id ≡ none → (new_stream id now c).0 ≡ none
unfolding new_stream
new_stream_free id now c e = ground arith

removed_streams :
    (id now : ℕ) (c : Control)
    → c.streams id ≡ none
    → (j : ℕ) → (remove_stream id (entered id now c)).1.streams j ≡ c.streams j
unfolding remove_stream
removed_streams id now c free j =
    ground (arith, entered_streams id now j c free, entered_streams id now id c free)

pub start_named :
    (ans stopping : Answers) (id sid : ℕ) (c : Control)
    → c.streams id ≡ none
    → ans.starts ≡ some sid
    → start_stream ans stopping id c
      ≡ conclude ans stopping id c.next (announced c.next sid (entered id ans.now c))
unfolding start_stream conclude
start_named ans stopping id sid c free named =
    rw (new_stream_free id ans.now c free, named, start_stream)

-- `StartStream` never waits. It starts the stream and returns no error, or it returns an error and
-- the map is as it was; the manager's invariant is kept.
pub start_stream_atomic :
    (ans stopping : Answers) (id : ℕ) (c : Control)
    → IsWell c
    → (s : Started) × (start_stream ans stopping id c ≡ finished s)
      × IsWell s.control
      × (IsStarted c id ans s ⊎ IsRefused c s)
unfolding start_stream
start_stream_atomic ans stopping id c w = elim (Option-cases (c.streams id)) [
  | inr (a, taken) ↦
      let (_, same) = new_stream_taken id ans.now a c taken in
      (
        failed_start already_exists c.next (new_stream id ans.now c).1,
        start_stream_taken ans stopping id a c taken,
        new_stream-IsWell id ans.now c w,
        inr (record { failed = λ h. cc; context = refl; returned = refl; unchanged = same }),
      )
  | inl free ↦ elim (Option-cases (ans.starts)) [
    | inl down ↦ (
      failed_start service_failed c.next (remove_stream id (entered id ans.now c)).1,
      rw (new_stream_free id ans.now c free, down, start_stream),
      remove_stream-IsWell id (entered id ans.now c) (entered-IsWell id ans.now c w),
      inr (record {
        failed = λ h. cc;
        context = refl;
        returned = refl;
        unchanged = removed_streams id ans.now c free;
      }),
    )
    | inr (sid, named) ↦ elim (Bool-cases (ans.announces)) [
      | inl told ↦
          let (e, started) = conclude_succeeds ans stopping id sid c free named told in
          (
            _,
            start_named ans stopping id sid c free named ∙ e,
            announced-IsWell c.next sid (entered id ans.now c) (entered-IsWell id ans.now c w),
            inl started,
          )
      | inr untold ↦
          let (s, e, well, refused) = conclude_fails ans stopping id sid c w free untold in
          (s, start_named ans stopping id sid c free named ∙ e, well, inr refused)
    ]
  ]
]

-- The channels of a map that a run of stops goes through.
abbrev pub listed : ℕ → List (ℕ × Answers) → Bool
listed j [] = false
listed j ((id, ans) ∷ rest) = j == id || listed j rest

-- `Shutdown` never waits, and stops the stream of every channel that it visits.
pub shutdown_stops :
    (visits : List (ℕ × Answers)) (c : Control)
    → IsWell c
    → (c' : Control) × (shutdown visits c ≡ finished c')
      × IsWell c'
      × ((j : ℕ) → c'.streams j ≡ (if listed j visits then none else c.streams j))
unfolding shutdown
shutdown_stops [] c w = (c, refl, w, λ j. refl)
shutdown_stops ((id, ans) ∷ rest) c w = elim (Option-cases (c.streams id)) [
  | inl missing ↦
      let (c', e, w', map) = shutdown_stops rest c w in
      (c', rw (stop_stream_missing ans id c missing, shutdown) e, w', λ j. ground (arith, map j))
  | inr (a, there) ↦
      let (r, s, _, stopped, w₁) = stop_stream_mapped ans id a c w there in
      let (c', e, w', map) = shutdown_stops rest r.1 w₁ in
      (c', rw (s, shutdown) e, w', λ j. ground (arith, map j, stopped.gone, stopped.others j))
]
