-- ===== src/Orchestrator/Truncated.antt =====
-- A read that ends inside a message of the orchestrator.
use waveguide.Base.{
  ℕ, suc, ◌+◌, ◌-◌, ◌<◌, ◌≤◌, ◌≡◌, Bool, false, some, inl, inr, List, [], ◌∷◌, ◌++◌, arith, length,
  ltb, ltb→lt, length-append, if◌then◌else◌, returns, panic, ◌∙◌, drop, take, Bool-cases,
}
use waveguide.Base.Slice.{Slice, cut_outside, cut_within}
use waveguide.Scanner.{Read, Events, ends, advance_too_far, panicked, drain, scan}
use waveguide.Scanner.Laws.{drain_far, drain_panics}
use waveguide.Messaging.Types.{MessageHeader}
use waveguide.Messaging.Encode.{encode_header}
use waveguide.Messaging.Header.{IsHeader}
use waveguide.Orchestrator.Receive.{split_messages}
use waveguide.Orchestrator.Framing.{length-encode_header, split_reads_header}

-- Where the payload is not yet whole the message is cut all the same: it reaches beyond the buffered
-- bytes, or beyond the buffer's capacity.
split_messages_far :
    (h : MessageHeader) (part spare : List ℕ) (at_eof : Bool)
    → IsHeader h
    → h.payload_length ≤ length part + length spare
    → (t : Slice) × (split_messages
          (record { elems = encode_header h ++ part; spare = spare })
          at_eof
        ≡ returns (record { advance = h.payload_length + 4; token = some t }))
split_messages_far h part spare at_eof fits within = (
  record {
    elems = take (h.payload_length + 4 - 0) (drop 0 (encode_header h ++ part ++ spare));
    spare = drop (h.payload_length + 4) (encode_header h ++ part ++ spare);
  },
  split_reads_header h part spare at_eof fits
      ∙ rw (
          cut_within (record { elems = encode_header h ++ part; spare = spare }) 0
            (h.payload_length + 4) (omega arith)
            (omega (arith, length-append (encode_header h) part, length-encode_header h))),
)

split_messages_panics :
    (h : MessageHeader) (part spare : List ℕ) (at_eof : Bool)
    → IsHeader h
    → length part + length spare < h.payload_length
    → split_messages (record { elems = encode_header h ++ part; spare = spare }) at_eof ≡ panic
split_messages_panics h part spare at_eof fits beyond = rw (
  split_reads_header h part spare at_eof fits,
  cut_outside (record { elems = encode_header h ++ part; spare = spare }) 0 (h.payload_length + 4)
      (inr (omega (arith, length-append (encode_header h) part, length-encode_header h))),
)

-- How the scanner ends on a message whose payload has begun to arrive.
abbrev pub cut_short : MessageHeader → List ℕ → List ℕ → Events
cut_short h part behind =
    if ltb (length part + length behind) h.payload_length
    then ends panicked
    else ends advance_too_far

drain_short :
    (h : MessageHeader) (part behind : List ℕ) (fuel : ℕ) (more : Slice → Events)
    → IsHeader h
    → length part < h.payload_length
    → drain split_messages false
        (suc fuel)
        (record { elems = encode_header h ++ part; spare = behind })
        more
      ≡ cut_short h part behind
drain_short h part behind fuel more fits short =
    elim (Bool-cases (ltb (length part + length behind) h.payload_length)) [
      | inl beyond ↦ rw beyond (
          drain_panics split_messages false fuel buf more
            (split_messages_panics h part behind false fits (ltb→lt _ _ beyond))
            (omega (arith, size)))
      | inr within ↦
          let (t, split) = split_messages_far h part behind false fits (ground arith) in
          rw within (
            drain_far split_messages false fuel buf more (h.payload_length + 4) t split
              (omega (arith, size)) (omega (arith, size)))
    ]
  where
    buf : Slice
    buf = record { elems = encode_header h ++ part; spare = behind }

    size : length (encode_header h ++ part) ≡ 4 + length part
    size = omega (arith, length-append (encode_header h) part, length-encode_header h)

scan_short :
    (h : MessageHeader) (part behind : List ℕ) (rs : List Read)
    → IsHeader h
    → length part < h.payload_length
    → scan split_messages rs (record { elems = encode_header h ++ part; spare = behind })
      ≡ cut_short h part behind
unfolding scan
scan_short h part behind [] fits short = drain_short h part behind _ _ fits short
scan_short h part behind (r ∷ rs) fits short = drain_short h part behind _ _ fits short

-- A read that ends inside a message, after its header, ends the scanner: no later read is made. The
-- split function panics if the message is longer than the buffer's capacity, and otherwise claims
-- more bytes than there are.
pub scan_split_message :
    (h : MessageHeader) (part behind spare : List ℕ) (rs : List Read)
    → IsHeader h
    → length part < h.payload_length
    → scan split_messages
        (record { bytes = encode_header h ++ part; behind = behind } ∷ rs)
        (record { elems = []; spare = spare })
      ≡ cut_short h part behind
unfolding scan drain
scan_split_message h part behind spare rs fits short = scan_short h part behind rs fits short
