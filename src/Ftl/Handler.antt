-- ===== src/Ftl/Handler.antt =====
-- internal/inputs/ftl/ftl.go: the handler of a connection, which drives the control module.
-- The answers of the remote parties and of pion are part of the handler's state here. A call of the
-- manager that waits for ever is no return: `on_close` panics there and `on_connect` fails. The
-- theorems are about managers on which no call waits.
pub mod Attack
pub mod Keeping
mod Runs
use waveguide.Base.{
  ℕ, ◌+◌, Bool, true, false, Option, none, some, List, [], ◌∷◌, if◌then◌else◌, Outcome, returns,
  panic,
}
use waveguide.Base.Text.{ascii}
use waveguide.Control.Types.{
  Stream, Answers, Control, Progress, finished, blocked, update, audio, video,
}
use waveguide.Control.Manager.{start_stream, stop_stream, Started}
use waveguide.Control.Stream.{
  add_track, report_metadata, audio_packets, video_packets, client_vendor_name,
  client_vendor_version, audio_codec, video_codec,
}
use waveguide.Ftl.Connection.{Metadata, Handler}

-- What the world answers to this handler: to the start of the stream and the stop that may follow,
-- to the last stop, and to the making of the two tracks.
pub record World : Type 0 where
  pub starting : Answers
  pub stopping : Answers
  pub closing : Answers
  pub video_track_made : Bool
  pub audio_track_made : Bool
  pub hmac_keys : ℕ → Option (List ℕ)

-- `control_ctx` and `stream` are none while they are nil; beside an error `stream` is an empty one,
-- which nothing reads.
pub record ConnHandler : Type 0 where
  pub world : World
  pub control : Control
  pub control_ctx : Option ℕ
  pub stream : Option ℕ
  pub channel_id : ℕ

abbrev pub new_handler : World → Control → ConnHandler
new_handler w c = record {
  world = w;
  control = c;
  control_ctx = none;
  stream = none;
  channel_id = 0;
}

abbrev pub mime_h264 : List ℕ
mime_h264 = ascii "video/H264"

abbrev pub mime_opus : List ℕ
mime_opus = ascii "audio/opus"

-- A change of the stream at `a`.
abbrev pub modify : ℕ → (Stream → Stream) → Control → Control
modify a f c = record c { heap = update c.heap a (f (c.heap a)) }

-- `AddTrack` twice, and the two codecs.
abbrev pub describe_stream : Stream → Stream
describe_stream s =
    report_metadata (audio_codec mime_opus ∷ video_codec mime_h264 ∷ [])
      (add_track audio 1 mime_opus (add_track video 0 mime_h264 s).1).1

-- Once `StartStream` has returned.
abbrev pub after_start : ConnHandler → Started → Bool × ConnHandler
after_start c s =
    let c' = record c { control = s.control; control_ctx = some s.ctx; stream = s.stream } in
    elim s.error [
      | some e ↦ (false, c')
      | none ↦
          if c.world.video_track_made
          then (if c.world.audio_track_made
              then (true, record c' { control = modify s.ctx describe_stream (s.control) })
              else (false, c'))
          else (false, c')
    ]

unfoldable pub on_connect : ℕ → ConnHandler → Bool × ConnHandler
on_connect channel_id c =
    let c' = record c { channel_id = channel_id } in
    elim (start_stream (c.world.starting) (c.world.stopping) channel_id (c.control)) [
      | blocked ↦ (false, c')
      | finished s ↦ after_start c' s
    ]

unfoldable pub get_hmac_key : ConnHandler → Option (List ℕ)
get_hmac_key c = c.world.hmac_keys (c.channel_id)

abbrev pub report : ConnHandler → (Stream → Stream) → ConnHandler
report c f = elim (c.stream) [ none ↦ c | some a ↦ record c { control = modify a f (c.control) } ]

unfoldable pub on_play : Metadata → ConnHandler → Bool × ConnHandler
on_play m c = (
  true,
  report c (
      report_metadata
        (client_vendor_name (m.vendor_name) ∷ client_vendor_version (m.vendor_version) ∷ [])),
)

-- A packet with a payload of `n` bytes; `writes` is whether the track takes it. False is an error.
unfoldable pub on_audio : ℕ → Bool → ConnHandler → Outcome (Bool × ConnHandler)
on_audio n writes c = elim (c.control_ctx) [
  | none ↦ panic
  | some ctx ↦
      if (c.control.heap ctx).cancelled
      then returns (false, c)
      else returns (writes, report c (report_metadata (audio_packets n ∷ [])))
]

unfoldable pub on_video : ℕ → Bool → ConnHandler → Outcome (Bool × ConnHandler)
on_video n writes c = elim (c.control_ctx) [
  | none ↦ panic
  | some ctx ↦
      if (c.control.heap ctx).cancelled
      then returns (false, c)
      else returns (writes, report c (report_metadata (video_packets n ∷ [])))
]

-- `c.controlCtx.Err()` panics on a nil context. The error of `StopStream` is dropped.
unfoldable pub on_close : ConnHandler → Outcome ConnHandler
on_close c = elim (c.control_ctx) [
  | none ↦ panic
  | some ctx ↦
      if (c.control.heap ctx).cancelled
      then returns c
      else elim (stop_stream (c.world.closing) (c.channel_id) (c.control)) [
        | blocked ↦ panic
        | finished r ↦ returns (record c { control = r.1 })
      ]
]

abbrev pub handler : Handler
handler = record {
  State = ConnHandler;
  on_connect = on_connect;
  get_hmac_key = get_hmac_key;
  on_play = on_play;
  on_close = on_close;
}
