-- ===== src/Inputs/Rtmp.antt =====
-- internal/inputs/rtmp/rtmp.go: the handler of an RTMP connection, from its publication to its end.
-- The answers of the service, of the orchestrator and of pion are arguments. The media is in Media.
pub mod Kept
pub mod Session
pub mod Media
mod Runs
use waveguide.Base.{
  ℕ, ◌+◌, Bool, true, false, ◌&&◌, Option, none, some, List, [], ◌∷◌, ltb, if◌then◌else◌, Outcome,
  returns, panic,
}
use waveguide.Base.Text.{ascii}
use waveguide.Base.Split.{split_two, parse_uint32}
use waveguide.Control.Types.{
  Stream, Answers, Control, Progress, finished, blocked, update, audio, video,
}
use waveguide.Control.Manager.{authenticate, start_stream, stop_stream, send_one, Started}
use waveguide.Control.Stream.{
  add_track, report_metadata, client_vendor_name, client_vendor_version, audio_codec, video_codec,
}

pub record World : Type 0 where
  pub hmac_keys : ℕ → Option (List ℕ)
  pub starting : Answers
  pub stopping : Answers
  pub closing : Answers
  pub makes_video : Bool
  pub makes_audio : Bool
  pub makes_encoder : Bool

-- `connHandler` less its media. `control_ctx` and `stream` are none while they are nil; beside an error
-- `stream` is an empty one, which is none here. `collection` counts the values in the buffer of
-- `stopMetadataCollection`.
pub record ConnHandler : Type 0 where
  pub control : Control
  pub control_ctx : Option ℕ
  pub stream : Option ℕ
  pub channel_id : ℕ
  pub stream_key : List ℕ
  pub stream_id : ℕ
  pub started : Bool
  pub authenticated : Bool
  pub has_decoder : Bool
  pub collection : ℕ

unfoldable pub new_handler : Control → ConnHandler
new_handler c = record {
  control = c;
  control_ctx = none;
  stream = none;
  channel_id = 0;
  stream_key = [];
  stream_id = 0;
  started = false;
  authenticated = false;
  has_decoder = false;
  collection = 0;
}

pub data Error : Type 0 where
  empty_name not_a_channel wrong_key start_failed no_video_track no_audio_track no_encoder : Error

-- A method that returns an error or none, panics, or waits for ever.
abbrev pub Result : Type 0
Result = Progress (Outcome (Option Error × ConnHandler))

abbrev pub ends : Option Error → ConnHandler → Result
ends e h = finished (returns (e, h))

abbrev pub modify : ℕ → (Stream → Stream) → ConnHandler → ConnHandler
modify a f h = record h {
  control = record (h.control) { heap = update (h.control.heap) a (f (h.control.heap a)) };
}

abbrev pub add_video : Stream → Stream
add_video s =
    report_metadata (video_codec (ascii "video/H264") ∷ [])
      (add_track video 0 (ascii "video/H264") s).1

abbrev pub add_audio : Stream → Stream
add_audio s =
    report_metadata (audio_codec (ascii "audio/opus") ∷ [])
      (add_track audio 1 (ascii "audio/opus") s).1

-- `initAudio`, for the stream at `a`.
unfoldable pub init_audio : World → ℕ → ConnHandler → Option Error × ConnHandler
init_audio w a h =
    if w.makes_audio
    then (if w.makes_encoder
        then (none, modify a add_audio (record h { has_decoder = true }))
        else (some no_encoder, h))
    else (some no_audio_track, h)

abbrev pub init_video : World → ℕ → ConnHandler → Option Error × ConnHandler
init_video w a h = if w.makes_video then (none, modify a add_video h) else (some no_video_track, h)

-- `initVideo` and then `initAudio`.
unfoldable pub init_media : World → ℕ → ConnHandler → Option Error × ConnHandler
init_media w a h =
    let (e, h') = init_video w a h in
    elim e [ some failed ↦ (some failed, h') | none ↦ init_audio w a h' ]

abbrev pub name_client : Stream → Stream
name_client s =
    report_metadata
      (client_vendor_name (ascii "waveguide-rtmp-input")
        ∷ client_vendor_version (ascii "0.0.1")
        ∷ [])
      s

-- Once `StartStream` has returned.
abbrev pub after_start : World → ConnHandler → Started → Option Error × ConnHandler
after_start w h t =
    let h' = record h { control = t.control; control_ctx = some t.ctx; stream = t.stream } in
    elim (t.error) [
      | some e ↦ (some start_failed, h')
      | none ↦ init_media w (t.ctx) (
          modify t.ctx name_client
            (record h' { authenticated = true; stream_id = (t.control.heap t.ctx).stream_id }))
    ]

-- From `Authenticate` on.
unfoldable pub begin_stream : World → ConnHandler → Result
begin_stream w h = elim (authenticate (w.hmac_keys (h.channel_id)) (h.stream_key)) [
  | some e ↦ ends (some wrong_key) h
  | none ↦ elim (start_stream (w.starting) (w.stopping) (h.channel_id) (h.control)) [
    | blocked ↦ blocked
    | finished t ↦ finished (returns (after_start w h t))
  ]
]

-- `auth[1]` is out of range where the name has no dash.
abbrev pub with_key : World → ℕ → Option (List ℕ) → ConnHandler → Result
with_key w id none h = finished panic
with_key w id (some key) h =
    begin_stream w (record h { channel_id = id; stream_key = key; started = true })

abbrev pub with_channel : World → Option ℕ → Option (List ℕ) → ConnHandler → Result
with_channel w none key h = ends (some not_a_channel) h
with_channel w (some id) key h = with_key w id key h

unfoldable pub on_publish : World → List ℕ → ConnHandler → Result
on_publish w [] h = ends (some empty_name) h
on_publish w (c ∷ name) h =
    with_channel w (parse_uint32 ((split_two b'-' (c ∷ name)).0)) ((split_two b'-' (c ∷ name)).1) h

abbrev pub reset_session : ConnHandler → ConnHandler
reset_session h = record h { authenticated = false; started = false; has_decoder = false }

-- The stop of `OnClose`, for the context at `a`.
abbrev pub stop_ours : World → ℕ → ConnHandler → Progress ConnHandler
stop_ours w a h =
    if (h.control.heap a).cancelled
    then finished (reset_session h)
    else elim (stop_stream (w.closing) (h.channel_id) (h.control)) [
      | blocked ↦ blocked
      | finished r ↦ finished (reset_session (record h { control = r.1 }))
    ]

abbrev pub close_session : World → ConnHandler → Progress (Outcome ConnHandler)
close_session w h =
    if h.authenticated
    then elim (h.control_ctx) [
      | none ↦ finished panic
      | some a ↦ elim (stop_ours w a h) [ blocked ↦ blocked | finished h' ↦ finished (returns h') ]
    ]
    else finished (returns (reset_session h))

unfoldable pub on_close : World → ConnHandler → Progress (Outcome ConnHandler)
on_close w h = elim (send_one (h.collection)) [
  | none ↦ blocked
  | some n ↦ close_session w (record h { collection = n })
]
