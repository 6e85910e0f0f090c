-- ===== src/Messaging/RoundTrip.antt =====
-- What the encoders write and the decoders read back.
use waveguide.Base.{
  ℕ, ◌+◌, ◌*◌, ◌/◌, ◌%◌, ◌^◌, ◌<◌, ◌≡◌, refl, List, [], ◌∷◌, ◌++◌, arith, length, returns,
}
use waveguide.Base.Words.{IsU32, le16, le32}
use waveguide.Base.Slice.{Slice, cut-append, cut, cut_from, cut_from-append_two}
use waveguide.Messaging.Types.{IntroMessage, StreamRelayingMessage}
use waveguide.Messaging.Encode.{encode_intro}
use waveguide.Messaging.Decode.{decode_intro, decode_stream_relaying}

-- The introduction is read back, whatever bytes stand behind the buffer, if the region code is
-- shorter than 65530 bytes.
pub decode_intro-encode_intro :
    (m : IntroMessage) (spare : List ℕ)
    → length m.region_code < 65530
    → decode_intro (record { elems = encode_intro m; spare = spare }) ≡ returns m
unfolding decode_intro encode_intro
decode_intro-encode_intro m spare h = rw (size, region, host)
  where
    n : ℕ
    n = length m.region_code

    front : List ℕ
    front =
        m.version_major ∷ m.version_minor ∷ m.version_revision ∷ m.relay_layer ∷ le16 (n % 2 ^ 16)

    region_end : ℕ
    region_end = (6 + (n % 2 ^ 16 % 256 + n % 2 ^ 16 / 256 % 256 * 256)) % 2 ^ 16

    size :
        cut (record { elems = front ++ (m.region_code ++ m.hostname); spare = spare }) 4 6
        ≡ returns
            (record { elems = le16 (n % 2 ^ 16); spare = m.region_code ++ m.hostname ++ spare })
    size =
        cut-append (m.version_major ∷ m.version_minor ∷ m.version_revision ∷ m.relay_layer ∷ [])
          (le16 (n % 2 ^ 16)) (m.region_code ++ m.hostname) spare 4 6 refl refl

    region :
        cut (record { elems = front ++ (m.region_code ++ m.hostname); spare = spare }) 6 region_end
        ≡ returns (record { elems = m.region_code; spare = m.hostname ++ spare })
    region = cut-append front m.region_code m.hostname spare 6 region_end refl (omega arith)

    host :
        cut_from
          (record { elems = front ++ (m.region_code ++ m.hostname); spare = spare })
          region_end
        ≡ returns (record { elems = m.hostname; spare = spare })
    host = cut_from-append_two front m.region_code m.hostname spare region_end (omega arith)

-- The frame that the receiver expects, which `Encode` sets out to build.
abbrev pub relaying_frame : StreamRelayingMessage → List ℕ
relaying_frame m =
    m.mode ∷ []
    ++ (le32 m.channel_id
        ++ (le32 m.stream_id
            ++ (le16 (length m.target_hostname % 2 ^ 16) ++ (m.target_hostname ++ m.stream_key))))

-- The value of the four bytes that `PutUint32` writes.
bytes_sum :
    (n : ℕ)
    → IsU32 n
    → n % 256 + n / 256 % 256 * 256 + n / 65536 % 256 * 65536 + n / 16777216 % 256 * 16777216 ≡ n
bytes_sum n h = omega arith

-- A relaying message is read back from the frame that `Encode` sets out to build, for 32-bit ids and a
-- host name shorter than 65525 bytes.
pub decode_stream_relaying-relaying_frame :
    (m : StreamRelayingMessage) (spare : List ℕ)
    → IsU32 m.channel_id
    → IsU32 m.stream_id
    → length m.target_hostname < 65525
    → decode_stream_relaying (record { elems = relaying_frame m; spare = spare }) ≡ returns m
unfolding decode_stream_relaying
decode_stream_relaying-relaying_frame m spare hc hs h =
    rw (channel, stream, size, host, key, bytes_sum m.channel_id hc, bytes_sum m.stream_id hs)
  where
    n : ℕ
    n = length m.target_hostname

    host_end : ℕ
    host_end = (11 + (n % 2 ^ 16 % 256 + n % 2 ^ 16 / 256 % 256 * 256)) % 2 ^ 16

    names : List ℕ
    names = m.target_hostname ++ m.stream_key

    ids : List ℕ
    ids = m.mode ∷ (le32 m.channel_id ++ le32 m.stream_id)

    buf : Slice
    buf = record { elems = relaying_frame m; spare = spare }

    channel :
        cut buf 1 5
        ≡ returns (record {
          elems = le32 m.channel_id;
          spare = le32 m.stream_id ++ (le16 (n % 2 ^ 16) ++ names) ++ spare;
        })
    channel =
        cut-append (m.mode ∷ []) (le32 m.channel_id)
          (le32 m.stream_id ++ (le16 (n % 2 ^ 16) ++ names)) spare 1 5 refl refl

    stream :
        cut buf 5 9
        ≡ returns
            (record { elems = le32 m.stream_id; spare = (le16 (n % 2 ^ 16) ++ names) ++ spare })
    stream =
        cut-append (m.mode ∷ le32 m.channel_id) (le32 m.stream_id) (le16 (n % 2 ^ 16) ++ names)
          spare 5 9 refl refl

    size : cut buf 9 11 ≡ returns (record { elems = le16 (n % 2 ^ 16); spare = names ++ spare })
    size = cut-append ids (le16 (n % 2 ^ 16)) names spare 9 11 refl refl

    host :
        cut buf 11 host_end
        ≡ returns (record { elems = m.target_hostname; spare = m.stream_key ++ spare })
    host =
        cut-append (ids ++ le16 (n % 2 ^ 16)) m.target_hostname m.stream_key spare 11 host_end refl
          (omega arith)

    key : cut_from buf host_end ≡ returns (record { elems = m.stream_key; spare = spare })
    key =
        cut_from-append_two (ids ++ le16 (n % 2 ^ 16)) m.target_hostname m.stream_key spare host_end
          (omega arith)
