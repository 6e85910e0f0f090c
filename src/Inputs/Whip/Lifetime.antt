-- ===== src/Inputs/Whip/Lifetime.antt =====
-- whip.go: the connections of the source over any run of requests, changes of state and timeouts that are
-- handled one after another.
use waveguide.Base.{
  ℕ, ◌<◌, ◌≤◌, ◌≡◌, refl, ◌⊎◌, inl, inr, Bool, true, false, Option, none, some, List, [], ◌∷◌,
  arith, Option-cases, Bool-cases,
}
use waveguide.Base.Split.{atoi_uint32}
use waveguide.Control.Types.{Answers, Control, finished}
use waveguide.Control.Manager.{authenticate, Started}
use waveguide.Control.Stream.{report_metadata, apply_metadata, add_track}
use waveguide.Control.Rules.{IsWell}
use waveguide.Control.Lifecycle.{start_stream_atomic}
use waveguide.Inputs.Whip.{
  Source, Request, World, Response, unauthorized, wrong_params, deleted, silent, credentials,
  cleanup_peer, stop_channel, connect_peer, after_start, begin_stream, publish, with_header,
  is_over, take_offer, dispatch, endpoint, add_peer, describe_stream, modify, on_state_change,
  on_timeout, PeerState,
}
use waveguide.Inputs.Whip.Access.{cleanup_peer_control, stop_channel_map}

-- The connections in the map are open and are those of one channel each, and the manager is well.
pub record IsSound (s : Source) : Type 0 where
  pub well : IsWell s.control
  pub mapped_open : (id p : ℕ) → s.peers id ≡ some p → s.closed p ≡ false
  pub made : (id p : ℕ) → s.peers id ≡ some p → p < s.next_peer
  pub unmade_open : (p : ℕ) → s.next_peer ≤ p → s.closed p ≡ false
  pub one_channel : (id j p : ℕ) → s.peers id ≡ some p → s.peers j ≡ some p → id ≡ j

cleanup_peer-IsSound :
    (id : ℕ) (s : Source) (c : Control)
    → IsSound s
    → IsWell c
    → IsSound (record (cleanup_peer id s) { control = c })
unfolding cleanup_peer
cleanup_peer-IsSound id s c sound well = record {
  well = well;
  mapped_open = λ j p e. ground (arith, sound.mapped_open j p, sound.one_channel j id p);
  made = λ j p e. ground (arith, sound.made j p);
  unmade_open = λ p fresh. ground (arith, sound.unmade_open p, sound.made id p);
  one_channel = λ i j p e f. ground (arith, sound.one_channel i j p);
}

add_peer-IsSound : (id : ℕ) (s : Source) → IsSound s → IsSound (add_peer id s)
unfolding add_peer
add_peer-IsSound id s sound = record {
  well = sound.well;
  mapped_open = λ j p e. ground (arith, sound.mapped_open j p, sound.unmade_open s.next_peer);
  made = λ j p e. ground (arith, sound.made j p);
  unmade_open = λ p fresh. ground (arith, sound.unmade_open p);
  one_channel =
      λ i j p e f. ground (arith, sound.one_channel i j p, sound.made i p, sound.made j p);
}

with_control-IsSound :
    (s : Source) (c : Control) → IsSound s → IsWell c → IsSound (record s { control = c })
with_control-IsSound s c sound well = record {
  well = well;
  mapped_open = sound.mapped_open;
  made = sound.made;
  unmade_open = sound.unmade_open;
  one_channel = sound.one_channel;
}

modify-IsWell : (a : ℕ) (c : Control) → IsWell c → IsWell (modify a describe_stream c)
unfolding report_metadata apply_metadata add_track
modify-IsWell a c well j b e = ground (arith, well j b e)

-- The stream at `a` with its tracks.
abbrev described : ℕ → Source → Source
described a s = record s { control = modify a describe_stream s.control }

-- The negotiation changes nothing, describes the stream, or adds the connection as well.
connect_peer_cases :
    (w : World) (id a : ℕ) (s : Source)
    → let s' = (connect_peer w id a s).1 in
      (s' ≡ s) ⊎ ((s' ≡ described a s) ⊎ (s' ≡ add_peer id (described a s)))
unfolding connect_peer
connect_peer_cases w id a s = ground arith

connect_peer-IsSound :
    (w : World) (id a : ℕ) (s : Source) → IsSound s → IsSound (connect_peer w id a s).1
connect_peer-IsSound w id a s sound =
    let kept : IsSound (described a s) =
      with_control-IsSound s (modify a describe_stream s.control) sound
        (modify-IsWell a s.control sound.well) in
    elim (connect_peer_cases w id a s) [
      | inl same ↦ rw same sound
      | inr (inl e) ↦ rw e kept
      | inr (inr e) ↦ rw e (add_peer-IsSound id (described a s) kept)
    ]

after_start-IsSound :
    (w : World) (id : ℕ) (s : Source) (t : Started)
    → IsSound s
    → IsWell t.control
    → IsSound (after_start w id s t).1
after_start-IsSound w id s t sound well =
    let kept = with_control-IsSound s t.control sound well in
    elim (Option-cases t.error) [
      | inl fine ↦ rw fine (connect_peer-IsSound w id t.ctx (record s { control = t.control }) kept)
      | inr (e, failed) ↦ rw failed kept
    ]

stop_channel-IsSound :
    (ans : Answers) (id : ℕ) (resp : Response) (s : Source)
    → IsSound s
    → (r : Response × Source) × (stop_channel ans id resp s ≡ finished r) × IsSound r.1
stop_channel-IsSound ans id resp s sound =
    let (c, stops, well, _) = stop_channel_map ans id resp s sound.well in
    (
      (resp, record (cleanup_peer id s) { control = c }),
      stops,
      cleanup_peer-IsSound id s c sound well,
    )

begin_stream-IsSound :
    (w : World) (id : ℕ) (s : Source)
    → IsSound s
    → (r : Response × Source) × (begin_stream w id s ≡ finished r) × IsSound r.1
unfolding begin_stream
begin_stream-IsSound w id s sound =
    let (t, starts, well, _) = start_stream_atomic w.starting w.stopping id s.control sound.well in
    (after_start w id s t, rw (starts, begin_stream) refl, after_start-IsSound w id s t sound well)

take_offer-IsSound :
    (w : World) (body : Option (List ℕ)) (id : ℕ) (s : Source)
    → IsSound s
    → (r : Response × Source) × (take_offer w body id s ≡ finished r) × IsSound r.1
take_offer-IsSound w none id s sound = ((wrong_params, s), refl, sound)
take_offer-IsSound w (some []) id s sound = ((wrong_params, s), refl, sound)
take_offer-IsSound w (some (b ∷ offer)) id s sound = begin_stream-IsSound w id s sound

publish-IsSound :
    (w : World) (body : Option (List ℕ)) (id : ℕ) (key : List ℕ) (s : Source)
    → IsSound s
    → (r : Response × Source) × (publish w body id key s ≡ finished r) × IsSound r.1
unfolding publish
publish-IsSound w body id key s sound = elim (Option-cases (authenticate (w.hmac_keys id) key)) [
  | inr (e, refused) ↦ ((unauthorized, s), rw (refused, publish) refl, sound)
  | inl passed ↦ rw (passed, publish) (take_offer-IsSound w body id s sound)
]

dispatch-IsSound :
    (w : World) (r : Request) (id : Option ℕ) (key : List ℕ) (s : Source)
    → IsSound s
    → (q : Response × Source) × (dispatch w r id key s ≡ finished q) × IsSound q.1
dispatch-IsSound w r none key s sound = ((wrong_params, s), refl, sound)
dispatch-IsSound w r (some id) key s sound = elim (Bool-cases r.is_delete) [
  | inl delete ↦ rw delete (stop_channel-IsSound w.stopping id deleted s sound)
  | inr other ↦ rw other (publish-IsSound w r.body id key s sound)
]

with_header-IsSound :
    (w : World) (r : Request) (authorization : List ℕ) (s : Source)
    → IsSound s
    → (q : Response × Source) × (with_header w r authorization s ≡ finished q) × IsSound q.1
with_header-IsSound w r [] s sound = ((unauthorized, s), refl, sound)
with_header-IsSound w r (b ∷ bytes) s sound =
    dispatch-IsSound w r (atoi_uint32 (credentials r).0) (credentials r).1 s sound

endpoint-IsSound :
    (w : World) (r : Request) (s : Source)
    → IsSound s
    → (q : Response × Source) × (endpoint w r s ≡ finished q) × IsSound q.1
unfolding endpoint
endpoint-IsSound w r s sound = with_header-IsSound w r r.authorization s sound

on_state_change-IsSound :
    (ans : Answers) (id : ℕ) (state : PeerState) (s : Source)
    → IsSound s
    → (q : Response × Source) × (on_state_change ans id state s ≡ finished q) × IsSound q.1
unfolding on_state_change
on_state_change-IsSound ans id state s sound = elim (Bool-cases (is_over state)) [
  | inl over ↦ rw (over, on_state_change) (stop_channel-IsSound ans id silent s sound)
  | inr lasts ↦ ((silent, s), rw (lasts, on_state_change) refl, sound)
]

on_timeout-IsSound :
    (id : ℕ) (is_connected : Bool) (s : Source) → IsSound s → IsSound (on_timeout id is_connected s)
unfolding on_timeout
on_timeout-IsSound id true s sound = sound
on_timeout-IsSound id false s sound =
    cleanup_peer-IsSound id s (cleanup_peer id s).control sound
      (rw (cleanup_peer_control id s) sound.well)

-- What may happen to a source: a request, a change of a connection's state, a timeout.
pub data Step : Source → Source → Type 0 where
  request :
      {s s' : Source} (w : World) (r : Request) (resp : Response)
      → endpoint w r s ≡ finished (resp, s')
      → Step s s'
  change :
      {s s' : Source} (ans : Answers) (id : ℕ) (state : PeerState) (resp : Response)
      → on_state_change ans id state s ≡ finished (resp, s')
      → Step s s'
  timeout : {s : Source} (id : ℕ) (is_connected : Bool) → Step s (on_timeout id is_connected s)

pub data Reach (s : Source) : Source → Type 0 where
  here : Reach s s
  later : {t u : Source} → Reach s t → Step t u → Reach s u

Step-IsSound : {s t : Source} → Step s t → IsSound s → IsSound t
Step-IsSound {s} {t} (request w r resp e) sound =
    let (q, e', sound') = endpoint-IsSound w r s sound in
    let same : t ≡ q.1 = ground arith in rw same sound'
Step-IsSound {s} {t} (change ans id state resp e) sound =
    let (q, e', sound') = on_state_change-IsSound ans id state s sound in
    let same : t ≡ q.1 = ground arith in rw same sound'
Step-IsSound {s} (timeout id is_connected) sound = on_timeout-IsSound id is_connected s sound

Reach-IsSound : {s t : Source} → IsSound s → Reach s t → IsSound t
Reach-IsSound sound here = sound
Reach-IsSound sound (later r st) = Step-IsSound st (Reach-IsSound sound r)

-- Where requests, changes of state and timeouts are handled one after another, each to its end: whatever
-- has come before, the connections in the map are open and belong to one channel each, and the next
-- request is answered. A change of state that a DELETE causes by closing the connection counts as handled after
-- the DELETE here; at the same time it may wait for ever.
pub Reach-answers :
    {s t : Source} (w : World) (r : Request)
    → IsSound s
    → Reach s t
    → IsSound t × ((q : Response × Source) × (endpoint w r t ≡ finished q) × IsSound q.1)
Reach-answers {t} w r sound reached =
    let sound' = Reach-IsSound sound reached in (sound', endpoint-IsSound w r t sound')
