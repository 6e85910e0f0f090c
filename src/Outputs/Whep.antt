-- ===== src/Outputs/Whep.antt =====
-- internal/outputs/whep/whep.go: a viewer is offered a WebRTC connection over HTTP.
-- pion and net/http are answers to a request here. A connection is a number, which stands for its uuid
-- too: uuid.New does not repeat itself. AddTrack succeeds.
pub mod Leak
pub mod Thumbs
use waveguide.Base.{
  ℕ, suc, ◌+◌, Bool, true, false, Option, none, some, List, [], ◌∷◌, ◌++◌, ◌==◌, if◌then◌else◌,
}
use waveguide.Base.Text.{ascii}
use waveguide.Base.Split.{atoi_uint32}
use waveguide.Control.Http.{Config, http_server_url}
use waveguide.Control.Types.{StreamTrack, Control, update}
use waveguide.Control.Manager.{get_tracks}

-- `WHEPServer` and its control. `peers` and `debug` tell which connections are in the maps, `tracks` what a
-- connection carries, `answers` the viewer's answer that it has taken, and `reports` what has been
-- sent on its debug channel.
pub record Server : Type 0 where
  pub control : Control
  pub peers : ℕ → Bool
  pub debug : ℕ → Bool
  pub closed : ℕ → Bool
  pub tracks : ℕ → List StreamTrack
  pub answers : ℕ → Option (List ℕ)
  pub reports : ℕ → List (List ℕ)
  pub next_peer : ℕ

unfoldable pub new_server : Control → Server
new_server c = record {
  control = c;
  peers = λ p. false;
  debug = λ p. false;
  closed = λ p. false;
  tracks = λ p. [];
  answers = λ p. none;
  reports = λ p. [];
  next_peer = 0;
}

-- What pion answers while one request is handled; the offer is none where it cannot be made.
pub record World : Type 0 where
  pub makes_peer : Bool
  pub offer : Option (List ℕ)
  pub takes_offer : Bool

-- `created` has the connection that the `Location` header names.
pub data Response : Type 0 where
  wrong_params not_found peer_failed offer_failed local_failed : Response
  no_such_peer remote_failed no_content : Response
  created : ℕ → List ℕ → Response

unfoldable pub endpoint_url : Config → List ℕ → List ℕ
endpoint_url config channel = http_server_url config ++ ascii "/whep/endpoint/" ++ channel

unfoldable pub resource_url : Config → List ℕ → List ℕ
resource_url config uuid = http_server_url config ++ ascii "/whep/resource/" ++ uuid

-- `webrtc.NewPeerConnection`, for the number `next_peer`.
abbrev pub open_peer : Server → Server
open_peer s = record s { next_peer = suc (s.next_peer) }

abbrev pub add_tracks : ℕ → List StreamTrack → Server → Server
add_tracks p tracks s = record s { tracks = update (s.tracks) p tracks }

abbrev pub add_peer : ℕ → Server → Server
add_peer p s = record s { peers = update (s.peers) p true }

-- `cleanupPeerConnection`
unfoldable pub cleanup_peer : ℕ → Server → Server
cleanup_peer p s =
    if s.peers p
    then record s { closed = update (s.closed) p true; peers = update (s.peers) p false }
    else s

-- From the offer on.
abbrev pub create_offer : Option (List ℕ) → Bool → ℕ → Server → Response × Server
create_offer none takes p s = (offer_failed, s)
create_offer (some sdp) false p s = (local_failed, s)
create_offer (some sdp) true p s = (created p sdp, s)

-- From the tracks on, for the connection `p`.
abbrev pub offer_tracks : World → Option (List StreamTrack) → ℕ → Server → Response × Server
offer_tracks w none p s = (not_found, s)
offer_tracks w (some tracks) p s =
    create_offer (w.offer) (w.takes_offer) p (add_peer p (add_tracks p tracks s))

abbrev pub with_channel : World → Option ℕ → Server → Response × Server
with_channel w none s = (wrong_params, s)
with_channel w (some id) s =
    if w.makes_peer
    then offer_tracks w (get_tracks (s.control) id) (s.next_peer) (open_peer s)
    else (peer_failed, s)

-- `/whep/endpoint/`, with the base of the path.
unfoldable pub endpoint : World → List ℕ → Server → Response × Server
endpoint w channel s = with_channel w (atoi_uint32 channel) s

-- `SetRemoteDescription` that succeeds.
abbrev pub add_answer : ℕ → List ℕ → Server → Server
add_answer p answer s = record s { answers = update (s.answers) p (some answer) }

-- The viewer's answer, for a connection that is looked up.
abbrev pub take_answer : List ℕ → Bool → ℕ → Bool → Server → Response × Server
take_answer answer takes p false s = (no_such_peer, s)
take_answer answer true p true s = (no_content, add_answer p answer s)
take_answer answer false p true s = (remote_failed, cleanup_peer p s)

abbrev pub with_peer : List ℕ → Bool → Option ℕ → Server → Response × Server
with_peer answer takes none s = (no_such_peer, s)
with_peer answer takes (some p) s = take_answer answer takes p (s.peers p) s

-- `/whep/resource/`. The body is none where it cannot be read, the connection where the path's base is the
-- uuid of none that was made.
unfoldable pub resource : Bool → Option (List ℕ) → Bool → Option ℕ → Server → Response × Server
resource is_options body takes p s =
    if is_options
    then (no_content, s)
    else elim body [ none ↦ (wrong_params, s) | some answer ↦ with_peer answer takes p s ]

pub data PeerState : Type 0 where
  new connecting connected disconnected failed closed_down : PeerState

-- The callback on the state of the connection `p`.
unfoldable pub on_state_change : ℕ → PeerState → Server → Server
on_state_change p closed_down s = cleanup_peer p s
on_state_change p disconnected s = cleanup_peer p s
on_state_change p failed s = cleanup_peer p s
on_state_change p _ s = s

-- The end of the wait of `startPeerConnectionTimeout`.
unfoldable pub on_timeout : ℕ → Bool → Server → Server
on_timeout p is_connected s = if is_connected then s else cleanup_peer p s

-- `OnOpen` and `OnClose` of the debug channel.
unfoldable pub on_debug : ℕ → Bool → Server → Server
on_debug p opens s = record s { debug = update (s.debug) p opens }

abbrev pub texts : List (Option (List ℕ)) → List (List ℕ)
texts [] = []
texts (none ∷ packets) = texts packets
texts (some t ∷ packets) = t ∷ texts packets

-- The RTCP packets of one read, each with the text that is sent for it, if any.
unfoldable pub forward : ℕ → List (Option (List ℕ)) → Server → Server
forward p packets s =
    if s.debug p
    then record s { reports = update (s.reports) p (s.reports p ++ texts packets) }
    else s
