-- ===== src/Inputs/Whip.antt =====
-- internal/inputs/whip/whip.go: a publisher offers a WebRTC connection over HTTP.
-- pion and net/http are answers to a request here. A peer connection is a number on a heap of which only
-- `closed` matters.
pub mod Access
pub mod Lifetime
pub mod Overlap
use waveguide.Base.{
  ℕ, suc, ◌+◌, Bool, true, false, not, ◌||◌, Option, none, some, List, [], ◌∷◌, ◌==◌, if◌then◌else◌,
}
use waveguide.Base.Text.{ascii, strip_prefix}
use waveguide.Base.Split.{split, atoi_uint32}
use waveguide.Control.Types.{
  Stream, Answers, Control, Progress, finished, blocked, update, audio, video,
}
use waveguide.Control.Manager.{authenticate, start_stream, stop_stream, Started}
use waveguide.Control.Stream.{
  Metadata, add_track, report_metadata, audio_packets, video_packets, client_vendor_name,
  client_vendor_version, audio_codec, video_codec,
}

-- `WHIPSource` and its control. `peers` is the map by channel.
pub record Source : Type 0 where
  pub control : Control
  pub peers : ℕ → Option ℕ
  pub closed : ℕ → Bool
  pub next_peer : ℕ

-- `channel` is the base of the path; the authorization is empty where the header is missing, and the body
-- is none where it cannot be read.
pub record Request : Type 0 where
  pub channel : List ℕ
  pub authorization : List ℕ
  pub is_delete : Bool
  pub body : Option (List ℕ)

-- What the service, the orchestrator and pion answer while one request is handled.
pub record World : Type 0 where
  pub hmac_keys : ℕ → Option (List ℕ)
  pub starting : Answers
  pub stopping : Answers
  pub makes_peer : Bool
  pub makes_video : Bool
  pub makes_audio : Bool
  pub takes_transceivers : Bool
  pub takes_offer : Bool
  pub answer : Option (List ℕ)

-- `silent` is a return that writes nothing, which net/http answers with 200.
pub data Response : Type 0 where
  unauthorized wrong_params start_failed peer_failed deleted silent : Response
  answered : List ℕ → Response

abbrev pub Result : Type 0
Result = Progress (Response × Source)

-- `Bearer ` is removed once from the front.
unfoldable pub bare_key : List ℕ → List ℕ
bare_key authorization = elim (strip_prefix (ascii "Bearer ") authorization) [
  | none ↦ authorization
  | some key ↦ key
]

-- The channel and the key that a request names: `1234-key`, or the path's channel.
abbrev pub named_by : List ℕ → List ℕ → List (List ℕ) → List ℕ × List ℕ
named_by channel key (a ∷ b ∷ parts) = (a, b)
named_by channel key _ = (channel, key)

unfoldable pub credentials : Request → List ℕ × List ℕ
credentials r =
    named_by (r.channel) (bare_key (r.authorization)) (split b'-' (bare_key (r.authorization)))

-- `cleanupPeerConnection`
unfoldable pub cleanup_peer : ℕ → Source → Source
cleanup_peer id s = elim (s.peers id) [
  | none ↦ s
  | some p ↦ record s { closed = update s.closed p true; peers = update s.peers id none }
]

abbrev pub with_control : Response → Source → Control → Response × Source
with_control resp s c = (resp, record s { control = c })

-- The error of `StopStream` is dropped.
unfoldable pub stop_channel : Answers → ℕ → Response → Source → Result
stop_channel ans id resp s = elim (stop_stream ans id (cleanup_peer id s).control) [
  | blocked ↦ blocked
  | finished r ↦ finished (with_control resp (cleanup_peer id s) (r.1))
]

-- The two tracks and what the stream is said to be.
abbrev pub describe_stream : Stream → Stream
describe_stream s =
    report_metadata
      (audio_codec (ascii "audio/opus")
        ∷ video_codec (ascii "video/H264")
        ∷ client_vendor_name (ascii "waveguide-whip-input")
        ∷ client_vendor_version (ascii "0.0.1")
        ∷ [])
      (add_track audio 1 (ascii "audio/opus") (add_track video 0 (ascii "video/H264") s).1).1

abbrev pub modify : ℕ → (Stream → Stream) → Control → Control
modify a f c = record c { heap = update c.heap a (f (c.heap a)) }

-- `addPeerConnection` for the connection at `next_peer`.
unfoldable pub add_peer : ℕ → Source → Source
add_peer id s = record s {
  peers = update s.peers id (some s.next_peer);
  next_peer = suc s.next_peer;
}

-- The offer of the client, on the connection that was added.
abbrev pub take_description : World → Source → Response × Source
take_description w s =
    if not w.takes_offer
    then (wrong_params, s)
    else elim (w.answer) [ none ↦ (wrong_params, s) | some sdp ↦ (answered sdp, s) ]

-- From the tracks on, for the stream at `a`.
abbrev pub negotiate : World → ℕ → ℕ → Source → Response × Source
negotiate w id a s =
    let described = record s { control = modify a describe_stream (s.control) } in
    if not w.takes_transceivers
    then (silent, described)
    else take_description w (add_peer id described)

-- Once the stream is started.
unfoldable pub connect_peer : World → ℕ → ℕ → Source → Response × Source
connect_peer w id a s =
    if not w.makes_peer
    then (peer_failed, s)
    else if not w.makes_video || not w.makes_audio
    then (silent, s)
    else negotiate w id a s

abbrev pub after_start : World → ℕ → Source → Started → Response × Source
after_start w id s t = elim (t.error) [
  | some e ↦ with_control start_failed s (t.control)
  | none ↦ connect_peer w id (t.ctx) (record s { control = t.control })
]

unfoldable pub begin_stream : World → ℕ → Source → Result
begin_stream w id s = elim (start_stream (w.starting) (w.stopping) id (s.control)) [
  | blocked ↦ blocked
  | finished t ↦ finished (after_start w id s t)
]

-- From the reading of the body on.
abbrev pub take_offer : World → Option (List ℕ) → ℕ → Source → Result
take_offer w none id s = finished (wrong_params, s)
take_offer w (some []) id s = finished (wrong_params, s)
take_offer w (some (b ∷ offer)) id s = begin_stream w id s

-- Any method but DELETE.
unfoldable pub publish : World → Option (List ℕ) → ℕ → List ℕ → Source → Result
publish w body id key s = elim (authenticate (w.hmac_keys id) key) [
  | some e ↦ finished (unauthorized, s)
  | none ↦ take_offer w body id s
]

abbrev pub dispatch : World → Request → Option ℕ → List ℕ → Source → Result
dispatch w r none key s = finished (wrong_params, s)
dispatch w r (some id) key s =
    if r.is_delete then stop_channel (w.stopping) id deleted s else publish w (r.body) id key s

-- With the authorization of the request.
abbrev pub with_header : World → Request → List ℕ → Source → Result
with_header w r [] s = finished (unauthorized, s)
with_header w r (b ∷ bytes) s = dispatch w r (atoi_uint32 ((credentials r).0)) ((credentials r).1) s

-- `/whip/endpoint/`
unfoldable pub endpoint : World → Request → Source → Result
endpoint w r s = with_header w r (r.authorization) s

pub data PeerState : Type 0 where
  new connecting connected disconnected failed closed_down : PeerState

abbrev pub is_over : PeerState → Bool
is_over disconnected = true
is_over failed = true
is_over closed_down = true
is_over _ = false

-- The callback on a connection's state, for a connection that was made for the channel.
unfoldable pub on_state_change : Answers → ℕ → PeerState → Source → Result
on_state_change ans id state s =
    if is_over state then stop_channel ans id silent s else finished (silent, s)

-- The end of the wait of `startPeerConnectionTimeout`, where `is_connected` is about the connection that
-- the map holds then.
unfoldable pub on_timeout : ℕ → Bool → Source → Source
on_timeout id is_connected s = if is_connected then s else cleanup_peer id s

-- The loop over a remote track: the payload's length of each packet, or an error of the read. `kind` is
-- how its packets are reported.
unfoldable pub relay : (ℕ → Metadata) → ℕ → List (Option ℕ) → Control → Control
relay kind a [] c = c
relay kind a (p ∷ packets) c = elim ((c.heap a).cancelled) [
  | true ↦ c
  | false ↦ elim p [
    | none ↦ c
    | some n ↦ relay kind a packets (modify a (report_metadata (kind n ∷ [])) c)
  ]
]
