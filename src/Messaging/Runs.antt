-- ===== src/Messaging/Runs.antt =====
-- Messages of one run, and what the theorems say of them.
use waveguide.Base.{
  ℕ, zero, suc, ap, refl, ◌+◌, ◌<◌, ◌≡◌, true, false, List, [], ◌∷◌, ◌++◌, arith, length, returns,
  panic,
}
use waveguide.Base.Text.{ascii}
use waveguide.Messaging.Types.{
  IntroMessage, StreamPublishingMessage, StreamRelayingMessage, MessageHeader,
}
use waveguide.Messaging.Encode.{encode_intro, encode_stream_publishing, encode_header}
use waveguide.Messaging.Decode.{decode_intro, decode_stream_publishing, decode_header}
use waveguide.Messaging.Header.{decode_header-encode_header}
use waveguide.Messaging.RoundTrip.{decode_intro-encode_intro}
use waveguide.Messaging.Faults.{decode_stream_publishing_shifted}

abbrev some_header : MessageHeader
some_header = record { request = false; success = true; kind = 20; id = 200; payload_length = 1000 }

decode_header-encode_header_example :
    decode_header (record { elems = encode_header some_header ++ (9 ∷ []); spare = 8 ∷ [] })
    ≡ returns some_header
decode_header-encode_header_example =
    decode_header-encode_header some_header (9 ∷ []) (8 ∷ [])
      (record { kind_fits = omega arith; id_fits = omega arith; length_fits = omega arith })

abbrev some_intro : IntroMessage
some_intro = record {
  version_major = 0;
  version_minor = 1;
  version_revision = 2;
  relay_layer = 0;
  region_code = ascii "sea";
  hostname = ascii "node.example";
}

decode_intro-encode_intro_example :
    decode_intro (record { elems = encode_intro some_intro; spare = [] }) ≡ returns some_intro
decode_intro-encode_intro_example = decode_intro-encode_intro some_intro [] (omega arith)

abbrev some_relaying : StreamRelayingMessage
some_relaying = record {
  mode = 1;
  channel_id = 70000;
  stream_id = 5;
  target_hostname = ascii "edge";
  stream_key = ascii "key";
}

unfoldable many : ℕ → List ℕ
many zero = []
many (suc n) = b'a' ∷ many n

length-many : (n : ℕ) → length (many n) ≡ n
unfolding many
length-many zero = refl
length-many (suc n) = ap suc (length-many n)

abbrev long_region : IntroMessage
long_region = record some_intro { region_code = many 65530 }

abbrev some_publishing : StreamPublishingMessage
some_publishing = record { mode = 1; channel_id = 1234; stream_id = 5678 }

decode_stream_publishing_shifted_example :
    (length {A = ℕ} [] < 3
      → decode_stream_publishing
          (record { elems = encode_stream_publishing some_publishing; spare = [] })
        ≡ panic)
    × (decode_stream_publishing
          (record { elems = encode_stream_publishing some_publishing; spare = 0 ∷ 0 ∷ 0 ∷ [] })
        ≡ returns (record { mode = 1; channel_id = 1453574; stream_id = 6 + 0 }))
decode_stream_publishing_shifted_example = decode_stream_publishing_shifted some_publishing 0 0 0 []
