-- ===== src/Messaging/Faults.antt =====
-- Frames that cannot be built, or that are not read back.
use waveguide.Base.{
  ℕ, ◌+◌, ◌*◌, ◌/◌, ◌%◌, ◌^◌, ◌<◌, ◌≤◌, ◌≡◌, refl, List, [], ◌∷◌, ◌++◌, arith, length, returns,
  panic, inl, inr,
}
use waveguide.Base.Words.{IsU32, le16, le32}
use waveguide.Base.Slice.{Slice, cut, cut-append, cut_outside, cut_within}
use waveguide.Messaging.Types.{IntroMessage, StreamRelayingMessage, StreamPublishingMessage}
use waveguide.Messaging.Encode.{encode_intro, encode_stream_relaying, encode_stream_publishing}
use waveguide.Messaging.Decode.{decode_intro, decode_stream_relaying, decode_stream_publishing}
use waveguide.Messaging.RoundTrip.{relaying_frame, decode_stream_relaying-relaying_frame}

-- A region code of 65530 to 65535 bytes is written with its true length, and the receiver's 16-bit
-- end position wraps round below its start: the receiver panics.
pub decode_intro_wraps :
    (m : IntroMessage) (spare : List ℕ)
    → 65530 ≤ length m.region_code
    → length m.region_code < 2 ^ 16
    → decode_intro (record { elems = encode_intro m; spare = spare }) ≡ panic
unfolding decode_intro encode_intro
decode_intro_wraps m spare lo hi = rw (size, region)
  where
    n : ℕ
    n = length m.region_code

    front : List ℕ
    front = m.version_major ∷ m.version_minor ∷ m.version_revision ∷ m.relay_layer ∷ []

    buf : Slice
    buf = record {
      elems = front ++ (le16 (n % 2 ^ 16) ++ (m.region_code ++ m.hostname));
      spare = spare;
    }

    size :
        cut buf 4 6
        ≡ returns
            (record { elems = le16 (n % 2 ^ 16); spare = m.region_code ++ m.hostname ++ spare })
    size = cut-append front (le16 (n % 2 ^ 16)) (m.region_code ++ m.hostname) spare 4 6 refl refl

    region : cut buf 6 ((6 + (n % 2 ^ 16 % 256 + n % 2 ^ 16 / 256 % 256 * 256)) % 2 ^ 16) ≡ panic
    region = cut_outside buf 6 _ (inl (omega arith))

-- `Encode` of a relaying message panics on every message, though the decoder reads the frame that
-- it means to build back, for 32-bit ids and a host name shorter than 65525 bytes.
stream_relaying_one_way :
    (m : StreamRelayingMessage) (spare : List ℕ)
    → IsU32 m.channel_id
    → IsU32 m.stream_id
    → length m.target_hostname < 65525
    → (encode_stream_relaying m ≡ panic)
      × (decode_stream_relaying (record { elems = relaying_frame m; spare = spare }) ≡ returns m)
unfolding encode_stream_relaying
stream_relaying_one_way m spare hc hs h =
    (refl, decode_stream_relaying-relaying_frame m spare hc hs h)

-- A publishing message takes nine bytes and is decoded from twelve: with fewer than three bytes
-- behind the buffer the decoder panics, and with three or more it returns the context with two
-- other ids, which straddle the fields and are six too large.
pub decode_stream_publishing_shifted :
    (m : StreamPublishingMessage) (a b c : ℕ) (spare : List ℕ)
    → (length spare < 3
        → decode_stream_publishing (record { elems = encode_stream_publishing m; spare = spare })
          ≡ panic)
      × (decode_stream_publishing
            (record { elems = encode_stream_publishing m; spare = a ∷ b ∷ c ∷ spare })
          ≡ returns (record {
            mode = m.mode;
            channel_id =
                (6 + (m.channel_id / 16777216 % 256 + m.stream_id % 16777216 * 256)) % 2 ^ 32;
            stream_id =
                (6 + (m.stream_id / 16777216 % 256 + a * 256 + b * 65536 + c * 16777216)) % 2 ^ 32;
          }))
unfolding decode_stream_publishing encode_stream_publishing
decode_stream_publishing_shifted m a b c spare = (
  λ short. rw (channel spare, cut_outside (buf spare) 8 12 (inr (omega arith))),
  rw (
    channel (a ∷ b ∷ c ∷ spare),
    cut_within (buf (a ∷ b ∷ c ∷ spare)) 8 12 (omega arith) (omega arith),
    straddle (m.channel_id / 16777216 % 256) m.stream_id,
  ),
)
  where
    buf : List ℕ → Slice
    buf behind = record { elems = m.mode ∷ (le32 m.channel_id ++ le32 m.stream_id); spare = behind }

    channel :
        (behind : List ℕ)
        → cut (buf behind) 4 8
          ≡ returns (record {
            elems =
                m.channel_id / 16777216 % 256
                ∷ m.stream_id % 256
                ∷ m.stream_id / 256 % 256
                ∷ m.stream_id / 65536 % 256
                ∷ [];
            spare = m.stream_id / 16777216 % 256 ∷ behind;
          })
    channel behind = cut_within (buf behind) 4 8 (omega arith) (omega arith)

    straddle :
        (t n : ℕ)
        → t + n % 256 * 256 + n / 256 % 256 * 65536 + n / 65536 % 256 * 16777216
          ≡ t + n % 16777216 * 256
    straddle t n = omega arith
