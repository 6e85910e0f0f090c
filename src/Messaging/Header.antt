-- ===== src/Messaging/Header.antt =====
-- The four-byte header: it is read back, and any four bytes are a header.
use waveguide.Base.{
  ℕ, ◌+◌, ◌<◌, ◌≡◌, refl, Bool, true, false, List, [], ◌∷◌, ◌++◌, arith, returns, ◌==◌, bit_and,
}
use waveguide.Base.Bits.{and_top, and_second, and_low_six, or_top, or_second, or_second_top}
use waveguide.Base.Words.{IsU8, IsU16, le16}
use waveguide.Base.Slice.{cut-append}
use waveguide.Messaging.Types.{MessageHeader}
use waveguide.Messaging.Encode.{describe, encode_header}
use waveguide.Messaging.Decode.{decode_header}

-- What fits the header's fields: a type of six bits, an id of eight and a length of sixteen.
pub record IsHeader (m : MessageHeader) : Type 0 where
  pub kind_fits : m.kind < 64
  pub id_fits : IsU8 m.id
  pub length_fits : IsU16 m.payload_length

-- The descriptor as a sum: 128 marks a response and 64 a failure.
abbrev flag : Bool → ℕ → ℕ
flag true weight = 0
flag false weight = weight

describe-eq :
    (m : MessageHeader) → m.kind < 64 → describe m ≡ m.kind + flag m.request 128 + flag m.success 64
unfolding describe
describe-eq m h = ground (arith, or_top m.kind, or_second m.kind, or_second_top m.kind)

flags_of_sum :
    (r s : Bool) (k d : ℕ)
    → k < 64
    → d ≡ k + flag r 128 + flag s 64
    → (d < 256) × ((bit_and d 0x80 == 0) ≡ r) × ((bit_and d 0x40 == 0) ≡ s) × (bit_and d 0x3f ≡ k)
flags_of_sum r s k d h e = ground (arith, and_top d, and_second d, and_low_six d)

-- The descriptor byte keeps the two flags and the type apart.
pub describe_fields :
    (m : MessageHeader)
    → m.kind < 64
    → (describe m < 256)
      × ((bit_and (describe m) 0x80 == 0) ≡ m.request)
      × ((bit_and (describe m) 0x40 == 0) ≡ m.success)
      × (bit_and (describe m) 0x3f ≡ m.kind)
describe_fields m h = flags_of_sum m.request m.success m.kind (describe m) h (describe-eq m h)

-- A header that fits is read back from its four bytes, whatever follows them.
pub decode_header-encode_header :
    (m : MessageHeader) (rest spare : List ℕ)
    → IsHeader m
    → decode_header (record { elems = encode_header m ++ rest; spare = spare }) ≡ returns m
unfolding decode_header encode_header
decode_header-encode_header m rest spare h =
    rw (cut-append (describe m ∷ m.id ∷ []) (le16 m.payload_length) rest spare 2 4 refl refl)
      (ground (arith, describe_fields m h.kind_fits, h.length_fits))
