-- ===== src/Control/Types.antt =====
-- stream.go, control.go: a stream, the manager's state and what the remote parties answer.
use waveguide.Base.{ℕ, Bool, false, Option, List, [], ◌==◌, if◌then◌else◌}

pub data CodecType : Type 0 where
  audio video other_kind : CodecType

-- A track, with the id of its pion object.
pub record StreamTrack : Type 0 where
  pub kind : CodecType
  pub codec : List ℕ
  pub track : ℕ

-- `cancelled` is the state of the stream's context. A channel that only carries `true` is the number
-- of values in its buffer.
pub record Stream : Type 0 where
  pub cancelled : Bool
  pub authenticated : Bool
  pub media_started : Bool
  pub has_some_audio : Bool
  pub has_some_video : Bool
  pub stop_heartbeat : ℕ
  pub stop_peersnap : ℕ
  pub last_thumbnail : List (List ℕ)
  pub channel_id : ℕ
  pub stream_id : ℕ
  pub tracks : List StreamTrack
  pub start_time : ℕ
  pub last_time : ℕ
  pub total_audio_packets : ℕ
  pub total_video_packets : ℕ
  pub client_vendor_name : List ℕ
  pub client_vendor_version : List ℕ
  pub video_codec : List ℕ
  pub audio_codec : List ℕ
  pub video_height : ℕ
  pub video_width : ℕ

-- What is asked of the service and of the orchestrator.
pub data Request : Type 0 where
  service_start : ℕ → Request
  service_end : ℕ → Request
  orchestrator_start : ℕ → ℕ → Request
  orchestrator_stop : ℕ → ℕ → Request

-- What they answer during one call, and the clock. A call that returns an error is `none` or false.
pub record Answers : Type 0 where
  pub now : ℕ
  pub starts : Option ℕ
  pub announces : Bool
  pub ends : Bool
  pub withdraws : Bool

-- `requests` is the history of the calls, the latest first.
pub record Control : Type 0 where
  pub streams : ℕ → Option ℕ
  pub metadata_collectors : ℕ → Option ℕ
  pub heap : ℕ → Stream
  pub next : ℕ
  pub requests : List Request

pub data Error : Type 0 where
  already_exists not_in_state remove_missing service_failed orchestrator_failed : Error
  incorrect_stream_key unexpected_track_kind : Error

-- A call finishes, or waits for ever on a channel that nobody reads.
pub data Progress {ℓ} (A : Type ℓ) : Type ℓ where
  finished : A → Progress A
  blocked : Progress A

-- `m[k] = v`, and `delete(m, k)` at `none`.
abbrev pub update {ℓ} : {V : Type ℓ} → (ℕ → V) → ℕ → V → ℕ → V
update m k v j = if j == k then v else m j

-- A zero `Stream{}`.
abbrev pub zero_stream : Stream
zero_stream = record {
  cancelled = false;
  authenticated = false;
  media_started = false;
  has_some_audio = false;
  has_some_video = false;
  stop_heartbeat = 0;
  stop_peersnap = 0;
  last_thumbnail = [];
  channel_id = 0;
  stream_id = 0;
  tracks = [];
  start_time = 0;
  last_time = 0;
  total_audio_packets = 0;
  total_video_packets = 0;
  client_vendor_name = [];
  client_vendor_version = [];
  video_codec = [];
  audio_codec = [];
  video_height = 0;
  video_width = 0;
}
