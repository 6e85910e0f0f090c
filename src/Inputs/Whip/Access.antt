-- ===== src/Inputs/Whip/Access.antt =====
-- whip.go: who may start and stop a stream over HTTP.
use waveguide.Base.{
  ℕ, ◌≡◌, ◌≢◌, refl, sym, ap, ◌∙◌, inl, inr, true, false, Option, none, some, List, [], ◌∷◌, arith,
  All, Option-cases, Bool-cases, ◌==◌, if◌then◌else◌,
}
use waveguide.Base.Text.{eq_bytes→eq}
use waveguide.Base.Split.{split, split-Lacks, split-ne-nil, split-one, Lacks, atoi_uint32}
use waveguide.Control.Types.{Answers, Control, finished}
use waveguide.Control.Manager.{authenticate, Started}
use waveguide.Control.Rules.{IsWell, IsStopped, stop_stream_mapped, stop_stream_map}
use waveguide.Control.Lifecycle.{start_stream_atomic}
use waveguide.Inputs.Whip.{
  Source, Request, World, Response, unauthorized, deleted, named_by, bare_key, credentials,
  cleanup_peer, stop_channel, connect_peer, after_start, begin_stream, publish, endpoint, add_peer,
}

pub cleanup_peer_control : (id : ℕ) (s : Source) → (cleanup_peer id s).control ≡ s.control
unfolding cleanup_peer
cleanup_peer_control id s = ground arith

pub stop_channel_mapped :
    (ans : Answers) (id a : ℕ) (resp : Response) (s : Source)
    → IsWell s.control
    → s.control.streams id ≡ some a
    → (s' : Source) × (stop_channel ans id resp s ≡ finished (resp, s'))
      × IsStopped s.control id a s'.control
unfolding stop_channel
stop_channel_mapped ans id a resp s w e =
    let (r, stops, _, stopped, _) = stop_stream_mapped ans id a s.control w e in
    (
      record (cleanup_peer id s) { control = r.1 },
      rw (cleanup_peer_control id s, stops, stop_channel) refl,
      stopped,
    )

-- A DELETE with any authorization at all that names a live channel stops its stream: no key is compared.
pub endpoint_deletes :
    (w : World) (r : Request) (s : Source) (id a : ℕ)
    → r.authorization ≢ []
    → r.is_delete ≡ true
    → atoi_uint32 (credentials r).0 ≡ some id
    → IsWell s.control
    → s.control.streams id ≡ some a
    → (s' : Source) × (endpoint w r s ≡ finished (deleted, s'))
      × IsStopped s.control id a s'.control
unfolding endpoint
endpoint_deletes w r s id a some_text delete names well live =
    let (s', stops, stopped) = stop_channel_mapped w.stopping id a deleted s well live in
    (s', ground (arith, stops), stopped)

authenticate_sound :
    (key : Option (List ℕ)) (presented : List ℕ)
    → authenticate key presented ≡ none
    → key ≡ some presented
unfolding authenticate
authenticate_sound none presented e = cc
authenticate_sound (some key) presented e = ground (arith, eq_bytes→eq presented key)

connect_peer_streams :
    (w : World) (id a j : ℕ) (s : Source)
    → (connect_peer w id a s).1.control.streams j ≡ s.control.streams j
unfolding connect_peer add_peer
connect_peer_streams w id a j s = ground arith

pub after_start_streams :
    (w : World) (id j : ℕ) (s : Source) (t : Started)
    → (after_start w id s t).1.control.streams j ≡ t.control.streams j
after_start_streams w id j s t =
    ground (arith, connect_peer_streams w id t.ctx j (record s { control = t.control }))

-- No other channel is started.
begin_stream_streams :
    (w : World) (id j : ℕ) (s : Source) {r : Response × Source}
    → IsWell s.control
    → begin_stream w id s ≡ finished r
    → j ≢ id
    → r.1.control.streams j ≡ s.control.streams j
unfolding begin_stream
begin_stream_streams w id j s {r} well e ne =
    let (t, starts, _, outcome) = start_stream_atomic w.starting w.stopping id s.control well in
    let done : after_start w id s t ≡ r = ground arith in
    ap (λ (q : Response × Source). q.1.control.streams j) (sym done)
    ∙ after_start_streams w id j s t
    ∙ elim outcome [ inl started ↦ started.others j ne | inr refused ↦ refused.unchanged j ]

-- `StopStream` of a handler never waits, and exactly the channel is gone from the manager's map.
pub stop_channel_map :
    (ans : Answers) (id : ℕ) (resp : Response) (s : Source)
    → IsWell s.control
    → (c : Control) × (stop_channel ans id resp s
        ≡ finished (resp, record (cleanup_peer id s) { control = c }))
      × IsWell c
      × ((j : ℕ) → c.streams j ≡ (if j == id then none else s.control.streams j))
unfolding stop_channel
stop_channel_map ans id resp s well =
    let (r, stops, well', map) = stop_stream_map ans id s.control well in
    (r.1, rw (cleanup_peer_control id s, stops, stop_channel) refl, well', map)

stop_channel_starts :
    (ans : Answers) (id j a : ℕ) (resp : Response) (s : Source) {r : Response × Source}
    → IsWell s.control
    → stop_channel ans id resp s ≡ finished r
    → s.control.streams j ≡ none
    → r.1.control.streams j ≢ some a
stop_channel_starts ans id j a resp s {r} well e free taken =
    let (c, stops, _, map) = stop_channel_map ans id resp s well in ground (arith, map j)

publish_starts :
    (w : World) (body : Option (List ℕ)) (id j a : ℕ) (key : List ℕ) (s : Source)
    {r : Response × Source}
    → IsWell s.control
    → publish w body id key s ≡ finished r
    → s.control.streams j ≡ none
    → r.1.control.streams j ≡ some a
    → (id ≡ j) × (w.hmac_keys id ≡ some key)
unfolding publish
publish_starts w body id j a key s {r} well e free taken = (
  ground (arith, begin_stream_streams w id j s {r = r} well),
  ground (arith, authenticate_sound (w.hmac_keys id) key),
)

-- A request after which a channel that had no stream has one is no DELETE, names that channel, and
-- presents the key that the service holds for it.
pub endpoint_starts :
    (w : World) (r : Request) (s s' : Source) (resp : Response) (j a : ℕ)
    → IsWell s.control
    → endpoint w r s ≡ finished (resp, s')
    → s.control.streams j ≡ none
    → s'.control.streams j ≡ some a
    → (r.is_delete ≡ false)
      × (atoi_uint32 (credentials r).0 ≡ some j)
      × (w.hmac_keys j ≡ some (credentials r).1)
unfolding endpoint
endpoint_starts w r s s' resp j a well e free taken =
    elim (Option-cases (atoi_uint32 (credentials r).0)) [
      | inl nameless ↦ absurd (ground arith)
      | inr (id, names) ↦ elim (Bool-cases r.is_delete) [
        | inl delete ↦
            absurd (
              ground (arith, stop_channel_starts w.stopping id j a deleted s {r = (resp, s')} well))
        | inr other ↦
            let (same, keyed) =
              publish_starts w r.body id j a (credentials r).1 s {r = (resp, s')} well
                (ground arith) free taken in
            (other, names ∙ ap some same, ap w.hmac_keys (sym same) ∙ keyed)
      ]
    ]

-- The key that a request presents holds no dash.
presented_Lacks : (r : Request) → Lacks b'-' (credentials r).1
unfolding credentials
presented_Lacks r = presented (split b'-' bare) refl (split-Lacks b'-' bare)
  where
    bare : List ℕ
    bare = bare_key r.authorization

    presented :
        (parts : List (List ℕ))
        → split b'-' bare ≡ parts
        → All (Lacks b'-') (split b'-' bare)
        → Lacks b'-' (named_by r.channel (bare_key r.authorization) parts).1
    presented [] e lacks = absurd (split-ne-nil b'-' bare e)
    presented (p ∷ []) e lacks = rw (split-one b'-' bare p e) ((rw e at lacks).0)
    presented (p ∷ q ∷ parts) e lacks = (rw e at lacks).1.0

-- If the service's key for a channel holds a dash, no request but a DELETE gets past the authentication
-- of that channel: the key is cut at its dashes before it is compared.
endpoint_dashed_key :
    (w : World) (r : Request) (s : Source) (id : ℕ) (key : List ℕ)
    → r.authorization ≢ []
    → r.is_delete ≡ false
    → atoi_uint32 (credentials r).0 ≡ some id
    → w.hmac_keys id ≡ some key
    → ¬ Lacks b'-' key
    → endpoint w r s ≡ finished (unauthorized, s)
unfolding endpoint publish
endpoint_dashed_key w r s id key some_text other names keyed dashed =
    let presented = (credentials r).1 in
    elim (Option-cases (authenticate (w.hmac_keys id) presented)) [
      | inl passed ↦
          let same : key ≡ presented =
            ground (arith, authenticate_sound (w.hmac_keys id) presented passed) in
          absurd (dashed (rw same (presented_Lacks r)))
      | inr (e, refused) ↦ ground arith
    ]
