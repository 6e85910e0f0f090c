-- ===== src/Orchestrator/Framing.antt =====
-- The stream of the orchestrator as `splitOrchestratorMessages` cuts it.
use waveguide.Base.{
  ℕ, zero, suc, ◌+◌, ◌<◌, ◌≤◌, ◌≡◌, refl, ap, Bool, true, false, some, List, [], ◌∷◌, ◌++◌, arith,
  length, All, map, le→leb, lt→leb_false, leb, ◌&&◌, length-append, drop-append, append_assoc,
  returns, ◌>>=◌, ◌∙◌, drop,
}
use waveguide.Base.Slice.{Slice, cut, cut-append}
use waveguide.Scanner.{Read, Events, token, ends, eof, drain, scan}
use waveguide.Scanner.Laws.{drain_token}
use waveguide.Messaging.Types.{MessageHeader}
use waveguide.Messaging.Encode.{encode_header}
use waveguide.Messaging.Header.{IsHeader, decode_header-encode_header}
use waveguide.Orchestrator.Receive.{split_messages}

pub record Message : Type 0 where
  pub header : MessageHeader
  pub payload : List ℕ

-- The header fits its four bytes and states the payload's length.
pub record IsMessage (m : Message) : Type 0 where
  pub header_fits : IsHeader m.header
  pub measured : m.header.payload_length ≡ length m.payload

abbrev pub frame : Message → List ℕ
frame m = encode_header m.header ++ m.payload

abbrev pub frames : List Message → List ℕ
frames [] = []
frames (m ∷ ms) = frame m ++ frames ms

pub length-encode_header : (h : MessageHeader) → length (encode_header h) ≡ 4
unfolding encode_header
length-encode_header h = refl

-- The header of a buffer that begins with one, by any payload.
pub split_reads_header :
    (h : MessageHeader) (rest spare : List ℕ) (at_eof : Bool)
    → IsHeader h
    → split_messages (record { elems = encode_header h ++ rest; spare = spare }) at_eof
      ≡ cut (record { elems = encode_header h ++ rest; spare = spare }) 0 (h.payload_length + 4)
        >>= λ t. returns (record { advance = h.payload_length + 4; token = some t })
unfolding split_messages
split_reads_header h rest spare at_eof fits =
    rw (no_end at_eof, long, decode_header-encode_header h rest spare fits)
  where
    buf : List ℕ
    buf = encode_header h ++ rest

    long : leb 4 (length buf) ≡ true
    long =
        le→leb 4 (length buf)
          (omega (arith, length-append (encode_header h) rest, length-encode_header h))

    no_end : (b : Bool) → b && leb (length buf) 0 ≡ false
    no_end true =
        lt→leb_false (length buf) 0
          (omega (arith, length-append (encode_header h) rest, length-encode_header h))
    no_end false = refl

-- Where a whole message is buffered it is the token, and what follows it stays.
pub split_messages-frame :
    (m : Message) (rest spare : List ℕ) (at_eof : Bool)
    → IsMessage m
    → split_messages (record { elems = frame m ++ rest; spare = spare }) at_eof
      ≡ returns (record {
        advance = length (frame m);
        token = some (record { elems = frame m; spare = rest ++ spare });
      })
split_messages-frame m rest spare at_eof fits =
    rw
      (
        append_assoc (encode_header m.header) m.payload rest,
        split_reads_header m.header (m.payload ++ rest) spare at_eof fits.header_fits,
        ← append_assoc (encode_header m.header) m.payload rest,
        cut-append [] (frame m) rest spare 0 (m.header.payload_length + 4) refl
            (omega (arith, size)),
      )
      (cc size)
  where
    size : m.header.payload_length + 4 ≡ length (frame m)
    size = omega (
      arith,
      fits.measured,
      length-append (encode_header m.header) m.payload,
      length-encode_header m.header,
    )

-- The tokens of whole messages, each with what is buffered behind it.
abbrev pub tokens : List Message → List ℕ → Events → Events
tokens [] behind later = later
tokens (m ∷ ms) behind later =
    token (record { elems = frame m; spare = frames ms ++ behind }) (tokens ms behind later)

length-frame : (m : Message) → length (frame m) ≡ 4 + length m.payload
length-frame m =
    omega (arith, length-append (encode_header m.header) m.payload, length-encode_header m.header)

skip_frame : (m : Message) (rest : List ℕ) → drop (length (frame m)) (frame m ++ rest) ≡ rest
skip_frame m rest = drop-append (frame m) rest

drain-frames :
    (ms : List Message) (fuel : ℕ) (spare : List ℕ) (more : Slice → Events)
    → All IsMessage ms
    → length ms < fuel
    → drain split_messages false fuel (record { elems = frames ms; spare = spare }) more
      ≡ tokens ms spare (more (record { elems = []; spare = spare }))
unfolding drain
drain-frames ms zero spare more fits enough = absurd (omega arith)
drain-frames [] (suc fuel) spare more fits enough = refl
drain-frames (m ∷ ms) (suc fuel) spare more (fit, fits) enough =
    drain_token split_messages false fuel _ more (length (frame m)) _
      (split_messages-frame m (frames ms) spare false fit)
      (omega (arith, length-frame m, length-append (frame m) (frames ms)))
      (omega (arith, length-append (frame m) (frames ms)))
    ∙ rw (skip_frame m (frames ms)) (
        ap (token (record { elems = frame m; spare = frames ms ++ spare }))
          (drain-frames ms fuel spare more fits (omega arith)))

length-le-frames : (ms : List Message) → length ms ≤ length (frames ms)
length-le-frames [] = omega arith
length-le-frames (m ∷ ms) =
    omega (arith, length-le-frames ms, length-frame m, length-append (frame m) (frames ms))

-- What one read brings: whole messages, and the bytes behind them.
pub record Group : Type 0 where
  pub messages : List Message
  pub behind : List ℕ

abbrev pub read_of : Group → Read
read_of g = record { bytes = frames g.messages; behind = g.behind }

abbrev pub AreMessages : Group → Type 0
AreMessages g = All IsMessage g.messages

abbrev pub all_tokens : List Group → Events
all_tokens [] = ends eof
all_tokens (g ∷ gs) = tokens g.messages g.behind (all_tokens gs)

at_end :
    (spare : List ℕ)
    → drain split_messages true 1 (record { elems = []; spare = spare }) (λ _. ends eof) ≡ ends eof
unfolding drain split_messages
at_end spare = refl

scan-frames :
    (gs : List Group) (ms : List Message) (spare : List ℕ)
    → All IsMessage ms
    → All AreMessages gs
    → scan split_messages (map read_of gs) (record { elems = frames ms; spare = spare })
      ≡ tokens ms spare (all_tokens gs)
unfolding scan
scan-frames [] ms spare fit fits =
    drain-frames ms (suc (length (frames ms))) spare _ fit (omega (arith, length-le-frames ms))
    ∙ ap (tokens ms spare) (at_end spare)
scan-frames (g ∷ gs) ms spare fit (fit', fits) =
    drain-frames ms (suc (length (frames ms))) spare _ fit (omega (arith, length-le-frames ms))
    ∙ ap (tokens ms spare) (scan-frames gs g.messages g.behind fit' fits)

-- Where every read ends with a message, the scanner yields exactly the messages, in order, and then
-- the end of the input.
pub scan-reads :
    (gs : List Group) (spare : List ℕ)
    → All AreMessages gs
    → scan split_messages (map read_of gs) (record { elems = []; spare = spare }) ≡ all_tokens gs
scan-reads gs spare fits = scan-frames gs [] spare tt fits
