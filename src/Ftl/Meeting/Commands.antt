-- ===== src/Ftl/Meeting/Commands.antt =====
-- server.go: what the server makes of the client's messages.
use waveguide.Base.{ℕ, ◌+◌, ◌%◌, ◌^◌, ◌<◌, ◌≡◌, refl, true, false, some, List, [], ◌∷◌, ◌++◌, arith}
use waveguide.Base.Text.{ascii, eq_bytes, contains, decimal, is_digit}
use waveguide.Base.Split.{Lacks}
use waveguide.Base.Decimal.{decimal-Lacks, decimal-ne-nil}
use waveguide.Ftl.Regex.{match_attribute}
use waveguide.Ftl.Connection.{Metadata, no_metadata}
use waveguide.Ftl.Server.{set_attribute, parse_attribute_to_uint, parse_attribute_to_uint8}
use waveguide.Ftl.Client.{metadata_batch}
use waveguide.Ftl.Meeting.{described}
use waveguide.Ftl.Meeting.Texts.{
  contains-Lacks, is_free, is_free-Lacks, append-Lacks, parse_uint-decimal, match_attribute-append,
}

-- A message that is read as an attribute.
pub record Attribute : Type 0 where
  pub message : List ℕ
  pub key : List ℕ
  pub value : List ℕ
  pub not_hmac : eq_bytes message (ascii "HMAC") ≡ false
  pub no_disconnect : contains message (ascii "DISCONNECT") ≡ false
  pub no_connect : contains message (ascii "CONNECT") ≡ false
  pub no_ping : contains message (ascii "PING") ≡ false
  pub matches : match_attribute message ≡ some (key, value)

-- A name and a number.
abbrev numbered : List ℕ → ℕ → List ℕ
numbered name n = name ++ b':' ∷ b' ' ∷ decimal n

numbered-Lacks :
    (c : ℕ) (name : List ℕ) (n : ℕ)
    → is_free c name ≡ true
    → is_free c (b':' ∷ b' ' ∷ []) ≡ true
    → is_digit c ≡ false
    → Lacks c (numbered name n)
numbered-Lacks c name n free gap other =
    append-Lacks c name (b':' ∷ b' ' ∷ decimal n) (is_free-Lacks c name free) (
      append-Lacks c (b':' ∷ b' ' ∷ []) (decimal n) (is_free-Lacks c (b':' ∷ b' ' ∷ []) gap)
        (decimal-Lacks n c other))

numbered_attribute :
    (k : ℕ) (name : List ℕ) (n : ℕ)
    → eq_bytes (numbered (k ∷ name) n) (ascii "HMAC") ≡ false
    → is_free b'D' (k ∷ name) ≡ true
    → is_free b'O' (k ∷ name) ≡ true
    → is_free b'P' (k ∷ name) ≡ true
    → is_free b'\n' (k ∷ name) ≡ true
    → Attribute
numbered_attribute k name n not_hmac no_d no_o no_p one_line = record {
  message = numbered (k ∷ name) n;
  key = k ∷ name;
  value = decimal n;
  not_hmac = not_hmac;
  no_disconnect =
      contains-Lacks [] (ascii "ISCONNECT") (numbered (k ∷ name) n) b'D'
        (numbered-Lacks b'D' (k ∷ name) n no_d refl refl);
  no_connect =
      contains-Lacks (ascii "C") (ascii "NNECT") (numbered (k ∷ name) n) b'O'
        (numbered-Lacks b'O' (k ∷ name) n no_o refl refl);
  no_ping =
      contains-Lacks [] (ascii "ING") (numbered (k ∷ name) n) b'P'
        (numbered-Lacks b'P' (k ∷ name) n no_p refl refl);
  matches =
      match_attribute-append k name (decimal n)
        (numbered-Lacks b'\n' (k ∷ name) n one_line refl refl) (decimal-Lacks n b':' refl)
        (decimal-ne-nil n);
}

abbrev fixed :
    (message key value : List ℕ)
    → eq_bytes message (ascii "HMAC") ≡ false
    → contains message (ascii "DISCONNECT") ≡ false
    → contains message (ascii "CONNECT") ≡ false
    → contains message (ascii "PING") ≡ false
    → match_attribute message ≡ some (key, value)
    → Attribute
fixed message key value a b c d e = record {
  message = message;
  key = key;
  value = value;
  not_hmac = a;
  no_disconnect = b;
  no_connect = c;
  no_ping = d;
  matches = e;
}

-- The attributes of the client's batch.
pub batch : ℕ → List Attribute
unfolding match_attribute
batch id =
    fixed (ascii "ProtocolVersion: 0.2") (ascii "ProtocolVersion") (ascii "0.2") refl refl refl refl
      refl
    ∷ fixed (ascii "VendorName: rtmp-ingest") (ascii "VendorName") (ascii "rtmp-ingest") refl refl
        refl refl refl
    ∷ fixed (ascii "VendorVersion: 1.0") (ascii "VendorVersion") (ascii "1.0") refl refl refl refl
        refl
    ∷ fixed (ascii "Video: true") (ascii "Video") (ascii "true") refl refl refl refl refl
    ∷ fixed (ascii "VideoCodec: H264") (ascii "VideoCodec") (ascii "H264") refl refl refl refl refl
    ∷ fixed (ascii "VideoHeight: 720") (ascii "VideoHeight") (ascii "720") refl refl refl refl refl
    ∷ fixed (ascii "VideoWidth: 1280") (ascii "VideoWidth") (ascii "1280") refl refl refl refl refl
    ∷ fixed (ascii "VideoPayloadType: 96") (ascii "VideoPayloadType") (ascii "96") refl refl refl
        refl refl
    ∷ numbered_attribute b'V' (ascii "ideoIngestSSRC") ((id + 1) % 2 ^ 32) refl refl refl refl refl
    ∷ fixed (ascii "Audio: true") (ascii "Audio") (ascii "true") refl refl refl refl refl
    ∷ fixed (ascii "AudioCodec: OPUS") (ascii "AudioCodec") (ascii "OPUS") refl refl refl refl refl
    ∷ fixed (ascii "AudioPayloadType: 97") (ascii "AudioPayloadType") (ascii "97") refl refl refl
        refl refl
    ∷ numbered_attribute b'A' (ascii "udioIngestSSRC") id refl refl refl refl refl
    ∷ []

abbrev pub texts : List Attribute → List (List ℕ)
texts [] = []
texts (t ∷ ts) = t.message ∷ texts ts

pub texts-batch : (id : ℕ) → texts (batch id) ≡ metadata_batch id
unfolding batch numbered_attribute
texts-batch id = refl

abbrev pub set_all : List Attribute → Metadata → Metadata
set_all [] m = m
set_all (t ∷ ts) m = set_all ts (set_attribute t.key t.value m)

-- The batch describes the client's media.
pub set_all-batch : (id : ℕ) → id < 2 ^ 32 → set_all (batch id) no_metadata ≡ described id
unfolding batch numbered_attribute set_attribute parse_attribute_to_uint parse_attribute_to_uint8
set_all-batch id small =
    let next = parse_uint-decimal ((id + 1) % 2 ^ 32) (omega arith) in
    let own = parse_uint-decimal id small in rw (next, own) refl
