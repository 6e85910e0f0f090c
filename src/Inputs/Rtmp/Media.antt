-- ===== src/Inputs/Rtmp/Media.antt =====
-- rtmp.go: OnAudio and OnVideo. The FLV tags, the AAC decoder, the Opus encoder, the packetizers, the
-- NAL units of joy5 and pion's tracks are parameters.
pub mod Blocks
pub mod Pcm
use waveguide.Base.{
  ℕ, zero, suc, ◌+◌, ◌*◌, ◌%◌, ◌^◌, Bool, true, false, Option, none, some, List, [], ◌∷◌, ◌++◌, leb,
  if◌then◌else◌, Outcome, returns, panic, length, take, drop,
}
use waveguide.Control.Types.{Stream}
use waveguide.Control.Stream.{report_metadata, audio_packets, video_packets}

-- `flvtag.AudioData` with its bytes read, and `flvtag.VideoData`, with none where the read fails.
pub record AudioTag : Type 0 where
  pub is_sequence_header : Bool
  pub bytes : List ℕ

pub data FrameType : Type 0 where
  key_frame inter_frame other_frame : FrameType

pub record VideoTag : Type 0 where
  pub frame : FrameType
  pub is_sequence_header : Bool
  pub bytes : Option (List ℕ)

-- Where the source drops an error or returns it, the result here is none or false.
pub record Codecs : Type 1 where
  pub Decoder : Type 0
  pub Encoder : Type 0
  pub Packetizer : Type 0
  pub Packet : Type 0
  pub decode_audio_tag : List ℕ → Option AudioTag
  pub decode_video_tag : List ℕ → Option VideoTag
  pub init_raw : List ℕ → Decoder → Option Decoder
  pub decode : List ℕ → Decoder → Option (List ℕ) × Decoder
  pub encode : List ℕ → Encoder → Option (List ℕ) × Encoder
  pub packetize : List ℕ → ℕ → Packetizer → List Packet × Packetizer
  pub write : Packet → Bool
  pub decoder_config : List ℕ → Option (List (List ℕ))
  pub split_nalus : List ℕ → List (List ℕ)
  pub join_annexb : List (List ℕ) → List ℕ

-- `blockSize * 4`: 960 samples of two bytes on two channels.
abbrev pub block_bytes : ℕ
block_bytes = 3840

-- `int16(binary.LittleEndian.Uint16(…))` of every two bytes, as bit patterns.
unfoldable pub samples : List ℕ → List ℕ
samples [] = []
samples (b ∷ []) = []
samples (b ∷ c ∷ bytes) = (b % 256 + c % 256 * 256) ∷ samples bytes

-- The loop over the blocks of `size` bytes of a buffer: `step` takes a block and may fail. On an error
-- the buffer still begins with the block that failed.
module _ {A : Type 0} (size : ℕ) (step : List ℕ → A → Bool × A) where
  unfoldable pub blocks_loop : ℕ → List ℕ → A → Bool × (List ℕ × A)
  blocks_loop zero buffer a = (true, (buffer, a))
  blocks_loop (suc fuel) buffer a = elim (leb size (length buffer)) [
    | false ↦ (true, (buffer, a))
    | true ↦ elim ((step (take size buffer) a).0) [
      | false ↦ (false, (buffer, (step (take size buffer) a).1))
      | true ↦ blocks_loop fuel (drop size buffer) (step (take size buffer) a).1
    ]
  ]

module _ (C : Codecs) where
  open C use {
    Decoder, Encoder, Packetizer, Packet, decode_audio_tag, decode_video_tag, init_raw, decode,
    encode, packetize, write, decoder_config, split_nalus, join_annexb,
  }

  -- The packets up to the first that the track does not take, and whether it takes them all.
  unfoldable pub write_packets : List Packet → Bool × List Packet
  write_packets [] = (true, [])
  write_packets (p ∷ packets) =
      let (all, written) = write_packets packets in
      if write p then (all, p ∷ written) else (false, [])

  -- The media of a `connHandler`. `decoder` is none while it is nil, and `video_codec`, the parameter
  -- sets of the last sequence header, too.
  pub record Media : Type 0 where
    pub decoder : Option Decoder
    pub encoder : Encoder
    pub audio_packetizer : Packetizer
    pub audio_written : List Packet
    pub audio_buffer : List ℕ
    pub video_packetizer : Packetizer
    pub video_written : List Packet
    pub video_clock_rate : ℕ
    pub video_codec : Option (List (List ℕ))
    pub keyframes : ℕ
    pub last_key_frames : ℕ
    pub last_inter_frames : ℕ
    pub stream : Stream

  unfoldable pub on_connect : Media → Media
  on_connect m = record m { video_clock_rate = 90000 }

  -- For the packets of a block. The report is made only if all are written.
  abbrev send_block : List Packet → Media → Bool × Media
  send_block packets m =
      let (all, written) = write_packets packets in
      let m' = record m { audio_written = m.audio_written ++ written } in
      if all
      then (
        true,
        record m' { stream = report_metadata (audio_packets (length packets) ∷ []) (m.stream) },
      )
      else (false, m')

  abbrev packetize_block : Option (List ℕ) → Media → Bool × Media
  packetize_block none m = (false, m)
  packetize_block (some opus) m =
      let (packets, packetizer) = packetize opus 960 m.audio_packetizer in
      send_block packets (record m { audio_packetizer = packetizer })

  -- One round of the loop of `OnAudio`, on the first 3840 bytes of the buffer. False is an error.
  unfoldable pub encode_block : List ℕ → Media → Bool × Media
  encode_block block m =
      let (opus, encoder) = encode (samples block) m.encoder in
      packetize_block opus (record m { encoder = encoder })

  -- The rest of `OnAudio`, once the AAC frame is decoded.
  abbrev pub take_pcm : List ℕ → Media → Bool × Media
  take_pcm pcm m =
      let buffer = m.audio_buffer ++ pcm in
      let (fine, (rest, m')) =
        blocks_loop block_bytes encode_block (suc (length buffer)) buffer m in
      (fine, record m' { audio_buffer = rest })

  abbrev decode_frame : Decoder → List ℕ → Media → Bool × Media
  decode_frame d bytes m =
      let (pcm, d') = decode bytes d in
      elim pcm [
        | none ↦ (false, record m { decoder = some d' })
        | some p ↦ take_pcm p (record m { decoder = some d' })
      ]

  abbrev init_decoder : Option Decoder → Media → Bool × Media
  init_decoder none m = (false, m)
  init_decoder (some d) m = (true, record m { decoder = some d })

  -- A method of the decoder panics while that is nil.
  abbrev take_audio_tag : AudioTag → Option Decoder → Media → Outcome (Bool × Media)
  take_audio_tag tag none m = panic
  take_audio_tag tag (some d) m =
      if tag.is_sequence_header
      then returns (init_decoder (init_raw tag.bytes d) m)
      else returns (decode_frame d tag.bytes m)

  abbrev decode_audio : Option AudioTag → Media → Outcome (Bool × Media)
  decode_audio none m = returns (false, m)
  decode_audio (some tag) m = take_audio_tag tag m.decoder m

  -- `cancelled` is the state of the stream's context, none while that is nil. Nothing sets `errored`.
  unfoldable pub on_audio : Option Bool → List ℕ → Media → Outcome (Bool × Media)
  on_audio none payload m = panic
  on_audio (some true) payload m = returns (false, m)
  on_audio (some false) payload m = decode_audio (decode_audio_tag payload) m

  abbrev count_frame : FrameType → Media → Media
  count_frame key_frame m = record m {
    keyframes = m.keyframes + 1;
    last_key_frames = m.last_key_frames + 1;
  }
  count_frame inter_frame m = record m { last_inter_frames = m.last_inter_frames + 1 }
  count_frame other_frame m = m

  -- For the packets of a frame.
  abbrev send_frame : List Packet → Media → Bool × Media
  send_frame packets m =
      let (all, written) = write_packets packets in
      let m' = record m { video_written = m.video_written ++ written } in
      if all
      then (
        true,
        record m' { stream = report_metadata (video_packets (length packets) ∷ []) (m.stream) },
      )
      else (false, m')

  abbrev packetize_frame : List ℕ → Media → Bool × Media
  packetize_frame out m =
      let (packets, packetizer) =
        packetize out ((length out % 2 ^ 32 + m.video_clock_rate) % 2 ^ 32) m.video_packetizer in
      send_frame packets (record m { video_packetizer = packetizer })

  -- A key frame is sent behind the parameter sets, which panics while there are none.
  unfoldable pub send_video :
      FrameType → List ℕ → Option (List (List ℕ)) → Media → Outcome (Bool × Media)
  send_video key_frame bytes none m = panic
  send_video key_frame bytes (some sets) m =
      returns (packetize_frame (join_annexb (sets ++ split_nalus bytes)) m)
  send_video inter_frame bytes sets m =
      returns (packetize_frame (join_annexb (split_nalus bytes)) m)
  send_video other_frame bytes sets m =
      returns (packetize_frame (join_annexb (split_nalus bytes)) m)

  -- A sequence header is stored, and then sent like a frame. One that is refused leaves a nil codec.
  abbrev take_video : Bool → FrameType → List ℕ → Media → Outcome (Bool × Media)
  take_video false frame bytes m = send_video frame bytes m.video_codec m
  take_video true frame bytes m = elim (decoder_config bytes) [
    | none ↦ returns (false, record m { video_codec = none })
    | some sets ↦ send_video frame bytes (some sets) (record m { video_codec = some sets })
  ]

  -- The frame is counted before its bytes are read.
  abbrev take_video_tag : VideoTag → Option (List ℕ) → Media → Outcome (Bool × Media)
  take_video_tag tag none m = returns (false, m)
  take_video_tag tag (some bytes) m = take_video tag.is_sequence_header tag.frame bytes m

  abbrev decode_video : Option VideoTag → Media → Outcome (Bool × Media)
  decode_video none m = returns (false, m)
  decode_video (some tag) m = take_video_tag tag tag.bytes (count_frame tag.frame m)

  unfoldable pub on_video : Option Bool → List ℕ → Media → Outcome (Bool × Media)
  on_video none payload m = panic
  on_video (some true) payload m = returns (false, m)
  on_video (some false) payload m = decode_video (decode_video_tag payload) m
