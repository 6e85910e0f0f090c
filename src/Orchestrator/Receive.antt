-- ===== src/Orchestrator/Receive.antt =====
-- Splitting the stream of the orchestrator into messages, and dispatching them.
use waveguide.Base.{
  ℕ, suc, ◌+◌, Bool, not, ◌&&◌, Option, none, some, List, [], ◌∷◌, length, leb, ◌==◌, if◌then◌else◌,
  Outcome, returns, panic, ◌>>=◌,
}
use waveguide.Base.Slice.{Slice, cut}
use waveguide.Scanner.{SplitFunc, End, Events, token, ends}
use waveguide.Messaging.Types.{
  type_intro, type_outro, type_node_state, type_channel_subscription, type_stream_publishing,
  type_stream_relaying, IntroMessage, OutroMessage, NodeStateMessage, ChannelSubscriptionMessage,
  StreamPublishingMessage, StreamRelayingMessage, MessageHeader,
}
use waveguide.Messaging.Decode.{
  decode_intro, decode_outro, decode_node_state, decode_channel_subscription,
  decode_stream_publishing, decode_stream_relaying, decode_header,
}

unfoldable pub split_messages : SplitFunc
split_messages buf at_eof =
    if at_eof && leb (length buf.elems) 0
    then returns (record { advance = 0; token = none })
    else if leb 4 (length buf.elems)
    then (do
      header ← decode_header buf
      let size = header.payload_length + 4
      message ← cut buf 0 size
      returns (record { advance = size; token = some message }))
    else if at_eof
    then returns (record { advance = length buf.elems; token = some buf })
    else returns (record { advance = 0; token = none })

-- A call of one of the client's callbacks.
pub data Call : Type 0 where
  on_intro : IntroMessage → Call
  on_outro : OutroMessage → Call
  on_node_state : NodeStateMessage → Call
  on_channel_subscription : ChannelSubscriptionMessage → Call
  on_stream_publishing : StreamPublishingMessage → Call
  on_stream_relaying : StreamRelayingMessage → Call

-- Which callbacks are set.
pub record Callbacks : Type 0 where
  pub intro : Bool
  pub outro : Bool
  pub node_state : Bool
  pub channel_subscription : Bool
  pub stream_publishing : Bool
  pub stream_relaying : Bool

abbrev calling {ℓ} : {M : Type ℓ} → (M → Call) → Outcome M → Outcome (Option Call)
calling f m = m >>= λ message. returns (some (f message))

-- The `switch` on the type, and then the test that the callback is set: a payload is decoded only
-- for a callback.
unfoldable pub handle_message : Callbacks → MessageHeader → Slice → Outcome (Option Call)
handle_message cb header payload =
    if not header.request
    then returns none
    else if header.kind == type_intro
    then (if cb.intro then calling on_intro (decode_intro payload) else returns none)
    else if header.kind == type_outro
    then (if cb.outro then returns (some (on_outro (decode_outro payload))) else returns none)
    else if header.kind == type_node_state
    then (if cb.node_state
        then returns (some (on_node_state (decode_node_state payload)))
        else returns none)
    else if header.kind == type_channel_subscription
    then (if cb.channel_subscription
        then returns (some (on_channel_subscription (decode_channel_subscription payload)))
        else returns none)
    else if header.kind == type_stream_publishing
    then (if cb.stream_publishing
        then calling on_stream_publishing (decode_stream_publishing payload)
        else returns none)
    else if header.kind == type_stream_relaying
    then (if cb.stream_relaying
        then calling on_stream_relaying (decode_stream_relaying payload)
        else returns none)
    else returns none

unfoldable pub parse_message : Callbacks → Slice → Outcome (Option Call)
parse_message cb raw = do
  header ← decode_header raw
  message ← cut raw 4 (4 + header.payload_length)
  handle_message cb header message

-- How the reading goroutine ends: it returns, `logger.Fatal` ends the process, or it panics.
pub data ReadEnd : Type 0 where
  returned fatal crashed : ReadEnd

pub record Reading : Type 0 where
  pub calls : List Call
  pub outcome : ReadEnd

abbrev pub at_end : End → ReadEnd
at_end End.eof = returned
at_end End.panicked = crashed
at_end _ = fatal

abbrev pub after_call : Option Call → Reading → Reading
after_call none r = r
after_call (some c) r = record r { calls = c ∷ r.calls }

-- `connected i` is the flag when the i-th token from here has been read.
unfoldable pub eternal_read : Callbacks → (ℕ → Bool) → Events → Reading
eternal_read cb connected (ends e) = record { calls = []; outcome = at_end e }
eternal_read cb connected (token t rest) =
    let later = eternal_read cb (λ i. connected (suc i)) rest in
    if not (connected 0)
    then record { calls = []; outcome = returned }
    else elim (parse_message cb t) [
      | panic ↦ record { calls = []; outcome = crashed }
      | returns c ↦ after_call c later
    ]
