-- ===== src/Ftl/Connection.antt =====
-- server.go: the state of a connection, the handler that it calls and what the system does.
use waveguide.Base.{ℕ, Bool, true, false, Option, List, [], Outcome}

pub record Metadata : Type 0 where
  pub protocol_version : List ℕ
  pub vendor_name : List ℕ
  pub vendor_version : List ℕ
  pub has_video : Bool
  pub video_codec : List ℕ
  pub video_height : ℕ
  pub video_width : ℕ
  pub video_payload_type : ℕ
  pub video_ingest_ssrc : ℕ
  pub has_audio : Bool
  pub audio_codec : List ℕ
  pub audio_payload_type : ℕ
  pub audio_ingest_ssrc : ℕ

abbrev pub no_metadata : Metadata
no_metadata = record {
  protocol_version = [];
  vendor_name = [];
  vendor_version = [];
  has_video = false;
  video_codec = [];
  video_height = 0;
  video_width = 0;
  video_payload_type = 0;
  video_ingest_ssrc = 0;
  has_audio = false;
  audio_codec = [];
  audio_payload_type = 0;
  audio_ingest_ssrc = 0;
}

-- The interface `Handler`, over a state of its own. A method that returns an error returns false;
-- `OnClose` may panic.
pub record Handler : Type 1 where
  pub State : Type 0
  pub on_connect : ℕ → State → Bool × State
  pub get_hmac_key : State → Option (List ℕ)
  pub on_play : Metadata → State → Bool × State
  pub on_close : State → Outcome State

-- `FtlConnection` less the logger. `sent` holds what was written to the control connection, and
-- `media_sockets` tells of every UDP socket that was made whether it is open. The latest stands first: it is
-- the one of `mediaTransport`.
pub record Connection : Type 0 where
  pub connected : Bool
  pub media_connected : Bool
  pub media_sockets : List Bool
  pub channel_id : ℕ
  pub assigned_media_port : ℕ
  pub hmac_payload : List ℕ
  pub client_hmac_hash : List ℕ
  pub has_authenticated : Bool
  pub hmac_requested : Bool
  pub metadata : Metadata
  pub sent : List (List ℕ)

-- The connection that `Serve` makes for a socket.
abbrev pub new_connection : Connection
new_connection = record {
  connected = true;
  media_connected = false;
  media_sockets = [];
  channel_id = 0;
  assigned_media_port = 0;
  hmac_payload = [];
  client_hmac_hash = [];
  has_authenticated = false;
  hmac_requested = false;
  metadata = no_metadata;
  sent = [];
}

-- What the system answers while one command is handled: the bytes of `rand.Read`, whether the
-- control connection can be written and closed without an error, the port of `net.ListenUDP` or its
-- failure, and whether the NACK generator is made.
pub record System : Type 0 where
  pub random : List ℕ
  pub writes : Bool
  pub closes : Bool
  pub udp_port : Option ℕ
  pub nack_ready : Bool

pub data Error : Type 0 where
  unexpected_arguments connect_before_auth multiple_connect invalid_hmac_hash invalid_hmac_hex :
      Error
  write_failed close_failed handler_failed nack_failed : Error

-- A connection and the state of its handler.
pub record Session (S : Type 0) : Type 0 where
  pub conn : Connection
  pub state : S

-- The error that a command returns, and what it leaves.
pub record Reply (S : Type 0) : Type 0 where
  pub error : Option Error
  pub session : Session S
