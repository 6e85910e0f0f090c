-- ===== src/Inputs/Rtmp/Runs.antt =====
-- An RTMP connection in one run, and what the theorems say of it.
use waveguide.Base.{
  ℕ, zero, suc, ◌+◌, ◌<◌, ◌≡◌, ◌↔◌, refl, true, false, Option, none, some, List, [], ◌∷◌, ◌++◌,
  length, returns, panic,
}
use waveguide.Base.Text.{ascii}
use waveguide.Base.Split.{split_two, parse_uint32}
use waveguide.Control.Types.{Answers, finished, zero_stream}
use waveguide.Control.Manager.{new_control, new_stream, start_stream, authenticate, conclude}
use waveguide.Control.Rules.{IsWell}
use waveguide.Inputs.Rtmp.{
  World, ConnHandler, Error, Result, new_handler, on_publish, on_close, begin_stream, init_media,
  init_audio,
}
use waveguide.Inputs.Rtmp.Session.{on_close-on_publish, on_publish_panics}
use waveguide.Inputs.Rtmp.Media.{Codecs, Media, block_bytes, blocks_loop, take_pcm}
use waveguide.Inputs.Rtmp.Media.Pcm.{take_pcm-append}

abbrev agreeing : Answers
agreeing = record { now = 100; starts = some 42; announces = true; ends = true; withdraws = true }

new_control-IsWell : IsWell new_control
unfolding new_control
new_control-IsWell id a e = cc

-- The service's key of every channel is `secret`.
abbrev world : World
world = record {
  hmac_keys = λ id. some (ascii "secret");
  starting = agreeing;
  stopping = agreeing;
  closing = agreeing;
  makes_video = true;
  makes_audio = true;
  makes_encoder = true;
}

abbrev published_of : Result → Option Error × ConnHandler
published_of (finished (returns r)) = r
published_of _ = (none, new_handler new_control)

abbrev published : Option Error × ConnHandler
published = published_of (on_publish world (ascii "7-secret") (new_handler new_control))

published_lem :
    on_publish world (ascii "7-secret") (new_handler new_control) ≡ finished (returns published)
unfolding on_publish parse_uint32 split_two begin_stream authenticate start_stream conclude
    new_stream new_control new_handler init_media init_audio
published_lem = refl

on_close-on_publish_example :
    (h : ConnHandler) × (on_close world published.1 ≡ finished (returns h))
    × IsWell h.control
    × ((j : ℕ) → h.control.streams j ≡ new_control.streams j)
on_close-on_publish_example =
    on_close-on_publish world (ascii "7-secret") new_control {r = published} new_control-IsWell
      published_lem

on_publish_panics_example :
    (on_publish world (ascii "7") (new_handler new_control) ≡ finished panic) ↔ (
      (id : ℕ) × (parse_uint32 (split_two b'-' (ascii "7")).0 ≡ some id)
      × ((split_two b'-' (ascii "7")).1 ≡ none))
on_publish_panics_example = on_publish_panics world (ascii "7") new_control new_control-IsWell

-- An encoder that counts the blocks, and a track that takes every packet.
abbrev codecs : Codecs
codecs = record {
  Decoder = Unit;
  Encoder = ℕ;
  Packetizer = ℕ;
  Packet = List ℕ;
  decode_audio_tag = λ bytes. some (record { is_sequence_header = false; bytes = bytes });
  decode_video_tag = λ bytes. none;
  init_raw = λ bytes d. some d;
  decode = λ bytes d. (some bytes, d);
  encode = λ block n. (some (n ∷ length block ∷ []), n + 1);
  packetize = λ opus n p. ((opus ∷ []), p + n);
  write = λ packet. true;
  decoder_config = λ bytes. none;
  split_nalus = λ bytes. bytes ∷ [];
  join_annexb = λ units. [];
}

abbrev media : Media codecs
media = record {
  decoder = some tt;
  encoder = 0;
  audio_packetizer = 0;
  audio_written = [];
  audio_buffer = [];
  video_packetizer = 0;
  video_written = [];
  video_clock_rate = 90000;
  video_codec = none;
  keyframes = 0;
  last_key_frames = 0;
  last_inter_frames = 0;
  stream = zero_stream;
}

abbrev quiet : ℕ → ℕ → List ℕ
quiet zero b = []
quiet (suc n) b = b ∷ quiet n b

quiet_lem : (take_pcm codecs (quiet 2000 1) media).0 ≡ true
unfolding blocks_loop
quiet_lem = refl

-- Two reads that make one block between them.
take_pcm-append_example :
    (length (take_pcm codecs (quiet 2000 1) media).1.audio_buffer < block_bytes)
    × (take_pcm codecs (quiet 2000 1 ++ quiet 2000 2) media
        ≡ take_pcm codecs (quiet 2000 2) (take_pcm codecs (quiet 2000 1) media).1)
take_pcm-append_example = take_pcm-append codecs (quiet 2000 1) (quiet 2000 2) media quiet_lem
