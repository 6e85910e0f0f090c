-- ===== src/Control/Stream.antt =====
-- stream.go and metadata.go: the methods of a stream.
use waveguide.Base.{ℕ, ◌+◌, Option, none, some, true, List, [], ◌∷◌, ◌++◌}
use waveguide.Control.Types.{
  Stream, CodecType, audio, video, other_kind, Error, unexpected_track_kind,
}

abbrev pub append_track : CodecType → ℕ → List ℕ → Stream → Stream
append_track kind track codec s = record s {
  tracks = s.tracks ++ (record { kind = kind; codec = codec; track = track } ∷ []);
}

unfoldable pub add_track : CodecType → ℕ → List ℕ → Stream → Option Error × Stream
add_track audio track codec s =
    (none, append_track audio track codec (record s { has_some_audio = true; audio_codec = codec }))
add_track video track codec s =
    (none, append_track video track codec (record s { has_some_video = true; video_codec = codec }))
add_track other_kind track codec s = (some unexpected_track_kind, s)

-- The values of `Metadata`. `int` is 64 bits wide, which the counters do not reach.
pub data Metadata : Type 0 where
  audio_packets video_packets video_height video_width : ℕ → Metadata
  client_vendor_name client_vendor_version audio_codec video_codec : List ℕ → Metadata

unfoldable pub apply_metadata : Metadata → Stream → Stream
apply_metadata (audio_packets n) s = record s { total_audio_packets = s.total_audio_packets + n }
apply_metadata (video_packets n) s = record s { total_video_packets = s.total_video_packets + n }
apply_metadata (client_vendor_name x) s = record s { client_vendor_name = x }
apply_metadata (client_vendor_version x) s = record s { client_vendor_version = x }
apply_metadata (audio_codec x) s = record s { audio_codec = x }
apply_metadata (video_codec x) s = record s { video_codec = x }
apply_metadata (video_height n) s = record s { video_height = n }
apply_metadata (video_width n) s = record s { video_width = n }

unfoldable pub report_metadata : List Metadata → Stream → Stream
report_metadata [] s = s
report_metadata (m ∷ ms) s = report_metadata ms (apply_metadata m s)
