-- ===== src/Messaging/Decode.antt =====
-- The `Decode…` functions. They check no length: a short slice makes them panic, or read the bytes
-- behind its end.
use waveguide.Base.{◌+◌, ◌%◌, ◌^◌, bit_and, [], Outcome, returns, ◌>>=◌, ◌==◌}
use waveguide.Base.Words.{uint16, uint32}
use waveguide.Base.Slice.{Slice, index, cut, cut_from}
use waveguide.Messaging.Types.{
  IntroMessage, OutroMessage, NodeStateMessage, ChannelSubscriptionMessage, StreamPublishingMessage,
  StreamRelayingMessage, MessageHeader,
}

-- `regionEnd` is a uint16, as its right operand is.
unfoldable pub decode_intro : Slice → Outcome IntroMessage
decode_intro buf = do
  region_length ← uint16 (← cut buf 4 6).elems
  let region_end = (6 + region_length) % 2 ^ 16
  b0 ← index buf 0
  b1 ← index buf 1
  b2 ← index buf 2
  b3 ← index buf 3
  region ← cut buf 6 region_end
  host ← cut_from buf region_end
  returns (record {
    version_major = b0;
    version_minor = b1;
    version_revision = b2;
    relay_layer = b3;
    region_code = region.elems;
    hostname = host.elems;
  })

unfoldable pub decode_outro : Slice → OutroMessage
decode_outro buf = record { reason = [] }

unfoldable pub decode_node_state : Slice → NodeStateMessage
decode_node_state buf = record { current_load = 0; maximum_load = 0 }

unfoldable pub decode_channel_subscription : Slice → ChannelSubscriptionMessage
decode_channel_subscription buf = record { mode = 0; channel_id = 0; stream_key = [] }

unfoldable pub decode_stream_publishing : Slice → Outcome StreamPublishingMessage
decode_stream_publishing buf = do
  channel ← uint32 (← cut buf 4 8).elems
  stream ← uint32 (← cut buf 8 12).elems
  b0 ← index buf 0
  returns
      (record { mode = b0; channel_id = (6 + channel) % 2 ^ 32; stream_id = (6 + stream) % 2 ^ 32 })

unfoldable pub decode_stream_relaying : Slice → Outcome StreamRelayingMessage
decode_stream_relaying buf = do
  channel ← uint32 (← cut buf 1 5).elems
  stream ← uint32 (← cut buf 5 9).elems
  host_length ← uint16 (← cut buf 9 11).elems
  let hostname_end = (11 + host_length) % 2 ^ 16
  b0 ← index buf 0
  host ← cut buf 11 hostname_end
  key ← cut_from buf hostname_end
  returns (record {
    mode = b0;
    channel_id = channel;
    stream_id = stream;
    target_hostname = host.elems;
    stream_key = key.elems;
  })

unfoldable pub decode_header : Slice → Outcome MessageHeader
decode_header buf = do
  payload_length ← uint16 (← cut buf 2 4).elems
  b0 ← index buf 0
  b1 ← index buf 1
  returns (record {
    request = bit_and b0 0x80 == 0;
    success = bit_and b0 0x40 == 0;
    kind = bit_and b0 0x3f;
    id = b1;
    payload_length = payload_length;
  })
