-- ===== src/Orchestrator/Dispatch.antt =====
-- From the orchestrator's messages to the client's callbacks.
use waveguide.Base.{
  ℕ, ◌+◌, ◌<◌, ◌≡◌, refl, Bool, true, false, Option, some, none, List, [], ◌∷◌, ◌++◌, arith, length,
  All, map, if◌then◌else◌, returns, append-nil,
}
use waveguide.Base.Words.{IsU8, IsU16, IsU32}
use waveguide.Base.Slice.{cut, cut-append}
use waveguide.Scanner.{Events, scan}
use waveguide.Messaging.Types.{
  IntroMessage, StreamRelayingMessage, MessageHeader, type_intro, type_stream_relaying,
}
use waveguide.Messaging.Encode.{encode_intro, encode_header}
use waveguide.Messaging.Header.{IsHeader, decode_header-encode_header}
use waveguide.Messaging.RoundTrip.{
  decode_intro-encode_intro, relaying_frame, decode_stream_relaying-relaying_frame,
}
use waveguide.Orchestrator.Receive.{
  Call, Callbacks, on_intro, on_stream_relaying, handle_message, parse_message, eternal_read,
  returned, split_messages, after_call,
}
use waveguide.Orchestrator.Framing.{
  Message, IsMessage, frame, frames, tokens, length-encode_header, Group, read_of, AreMessages,
  all_tokens, scan-reads,
}

-- What the orchestrator sends: an introduction, an order to relay, or a response to a request.
pub data Order : Type 0 where
  intro : ℕ → IntroMessage → Order
  relaying : ℕ → StreamRelayingMessage → Order
  response : MessageHeader → List ℕ → Order

abbrev pub request : ℕ → ℕ → List ℕ → Message
request kind id payload = record {
  header = record {
    request = true;
    success = true;
    kind = kind;
    id = id;
    payload_length = length payload;
  };
  payload = payload;
}

abbrev pub message : Order → Message
message (intro id m) = request type_intro id (encode_intro m)
message (relaying id m) = request type_stream_relaying id (relaying_frame m)
message (response h payload) = record { header = h; payload = payload }

-- The fields fit the widths that the protocol gives them, and a name leaves room in its frame.
abbrev pub IsOrder : Order → Type 0
IsOrder (intro id m) = IsU8 id × (length m.region_code < 65530) × IsU16 (length (encode_intro m))
IsOrder (relaying id m) =
    IsU8 id
    × IsU32 m.channel_id
    × IsU32 m.stream_id
    × (length m.target_hostname < 65525)
    × IsU16 (length (relaying_frame m))
IsOrder (response h payload) =
    (h.request ≡ false) × IsHeader h × (h.payload_length ≡ length payload)

-- The callback that an order is for, if it is set.
abbrev pub callback : Callbacks → Order → Option Call
callback cb (intro id m) = if cb.intro then some (on_intro m) else none
callback cb (relaying id m) = if cb.stream_relaying then some (on_stream_relaying m) else none
callback cb (response h payload) = none

abbrev pub callbacks : Callbacks → List Order → List Call
callbacks cb [] = []
callbacks cb (o ∷ os) = elim (callback cb o) [
  | none ↦ callbacks cb os
  | some c ↦ c ∷ callbacks cb os
]

message-IsMessage : (o : Order) → IsOrder o → IsMessage (message o)
message-IsMessage (intro id m) (hi, hr, hl) = record { header_fits = omega arith; measured = refl }
message-IsMessage (relaying id m) (hi, hc, hs, hn, hl) = record {
  header_fits = omega arith;
  measured = refl;
}
message-IsMessage (response h payload) (hq, fits, len) = record {
  header_fits = fits;
  measured = len;
}

-- A whole message is taken apart into its header and its payload.
parse_message-frame :
    (cb : Callbacks) (m : Message) (behind : List ℕ)
    → IsMessage m
    → parse_message cb (record { elems = frame m; spare = behind })
      ≡ handle_message cb m.header (record { elems = m.payload; spare = behind })
unfolding parse_message
parse_message-frame cb m behind fits =
    rw (decode_header-encode_header m.header m.payload behind fits.header_fits, payload)
  where
    payload :
        cut (record { elems = frame m; spare = behind }) 4 (4 + m.header.payload_length)
        ≡ returns (record { elems = m.payload; spare = behind })
    payload = rw (append-nil m.payload) at (
        cut-append (encode_header m.header) m.payload [] behind 4 (4 + m.header.payload_length)
          (omega (arith, length-encode_header m.header)) (omega (arith, fits.measured)))

handle_message-callback :
    (cb : Callbacks) (o : Order) (behind : List ℕ)
    → IsOrder o
    → handle_message cb (message o).header (record { elems = (message o).payload; spare = behind })
      ≡ returns (callback cb o)
unfolding handle_message
handle_message-callback cb (intro id m) behind (hi, hr, hl) =
    rw (decode_intro-encode_intro m behind hr) (ground arith)
handle_message-callback cb (relaying id m) behind (hi, hc, hs, hn, hl) =
    rw (decode_stream_relaying-relaying_frame m behind hc hs hn) (ground arith)
handle_message-callback cb (response h payload) behind (hq, fits, len) = rw hq

-- The orders of one read, and what the buffer holds behind them.
pub record Batch : Type 0 where
  pub orders : List Order
  pub behind : List ℕ

abbrev pub group : Batch → Group
group b = record { messages = map message b.orders; behind = b.behind }

abbrev pub batch_calls : Callbacks → List Batch → List Call
batch_calls cb [] = []
batch_calls cb (b ∷ bs) = callbacks cb b.orders ++ batch_calls cb bs

abbrev always : ℕ → Bool
always i = true

eternal_read-tokens :
    (cb : Callbacks) (os : List Order) (behind : List ℕ) (later : Events) (calls : List Call)
    → All IsOrder os
    → eternal_read cb always later ≡ record { calls = calls; outcome = returned }
    → eternal_read cb always (tokens (map message os) behind later)
      ≡ record { calls = callbacks cb os ++ calls; outcome = returned }
unfolding eternal_read
eternal_read-tokens cb [] behind later calls fits e = e
eternal_read-tokens cb (o ∷ os) behind later calls (fit, fits) e =
    rw
      (
        parse_message-frame cb (message o) (frames (map message os) ++ behind)
            (message-IsMessage o fit),
        handle_message-callback cb o (frames (map message os) ++ behind) fit,
        eternal_read-tokens cb os behind later calls fits e,
      )
      (after (callback cb o))
  where
    after :
        (c : Option Call)
        → after_call c (record { calls = callbacks cb os ++ calls; outcome = returned }) ≡ record {
          calls = elim c [ none ↦ callbacks cb os | some d ↦ d ∷ callbacks cb os ] ++ calls;
          outcome = returned;
        }
    after none = refl
    after (some c) = refl

eternal_read-all_tokens :
    (cb : Callbacks) (bs : List Batch)
    → All (λ b. All IsOrder b.orders) bs
    → eternal_read cb always (all_tokens (map group bs))
      ≡ record { calls = batch_calls cb bs; outcome = returned }
unfolding eternal_read
eternal_read-all_tokens cb [] fits = refl
eternal_read-all_tokens cb (b ∷ bs) (fit, fits) =
    eternal_read-tokens cb b.orders b.behind (all_tokens (map group bs)) (batch_calls cb bs) fit
      (eternal_read-all_tokens cb bs fits)

groups_fit : (bs : List Batch) → All (λ b. All IsOrder b.orders) bs → All AreMessages (map group bs)
groups_fit [] fits = tt
groups_fit (b ∷ bs) (fit, fits) = (orders b.orders fit, groups_fit bs fits)
  where
    orders : (os : List Order) → All IsOrder os → All IsMessage (map message os)
    orders [] h = tt
    orders (o ∷ os) (h, hs) = (message-IsMessage o h, orders os hs)

-- While the client stays connected and every read ends with a message, each introduction and each
-- order to relay reaches its callback, if that is set, with the struct that was sent and in order,
-- responses are passed over, and the reader returns at the end of the input.
pub eternal_read-orders :
    (cb : Callbacks) (bs : List Batch) (spare : List ℕ)
    → All (λ b. All IsOrder b.orders) bs
    → eternal_read cb
        (λ _. true)
        (scan split_messages (map read_of (map group bs)) (record { elems = []; spare = spare }))
      ≡ record { calls = batch_calls cb bs; outcome = returned }
eternal_read-orders cb bs spare fits =
    rw (scan-reads (map group bs) spare (groups_fit bs fits)) (eternal_read-all_tokens cb bs fits)
