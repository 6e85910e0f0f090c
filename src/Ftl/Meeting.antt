-- ===== src/Ftl/Meeting.antt =====
-- client.go against server.go: a client meets the server of the same package.
pub mod Texts
pub mod Commands
pub mod Serving
pub mod Replies
pub mod Calling
pub mod Dial
use waveguide.Base.{ℕ, ◌+◌, ◌%◌, ◌^◌, true, List, [], ◌∷◌, ◌++◌, map}
use waveguide.Base.Text.{ascii, decimal}
use waveguide.Ftl.Connection.{Metadata, System}
use waveguide.Ftl.Client.{metadata_batch, connect_message}

-- The messages of `Dial`, in order, for a hash.
abbrev pub messages : ℕ → List ℕ → List (List ℕ)
messages id hash = ascii "HMAC" ∷ connect_message id hash ∷ metadata_batch id ++ (ascii "." ∷ [])

-- The lines that the server reads: each message ends in two line ends.
abbrev pub with_gaps : List (List ℕ) → List (List ℕ)
with_gaps [] = []
with_gaps (m ∷ ms) = m ∷ [] ∷ with_gaps ms

-- What the client says of its media.
abbrev pub described : ℕ → Metadata
described id = record {
  protocol_version = ascii "0.2";
  vendor_name = ascii "rtmp-ingest";
  vendor_version = ascii "1.0";
  has_video = true;
  video_codec = ascii "H264";
  video_height = 720;
  video_width = 1280;
  video_payload_type = 96;
  video_ingest_ssrc = (id + 1) % 2 ^ 32;
  has_audio = true;
  audio_codec = ascii "OPUS";
  audio_payload_type = 97;
  audio_ingest_ssrc = id;
}

-- The lines with one and the same system throughout.
abbrev pub under : System → List (List ℕ) → List (System × List ℕ)
under sys [] = []
under sys (l ∷ ls) = (sys, l) ∷ under sys ls
