-- ===== src/Messaging/Encode.antt =====
-- The `Encode` methods. Lengths are truncated to 16 bits as `uint16(len(s))` does.
use waveguide.Base.{
  ℕ, ◌%◌, ◌^◌, bit_or, not, List, [], ◌∷◌, ◌++◌, length, if◌then◌else◌, Outcome, returns, ◌>>=◌,
}
use waveguide.Base.Words.{le16, le32, put_uint32}
use waveguide.Messaging.Types.{
  IntroMessage, OutroMessage, NodeStateMessage, ChannelSubscriptionMessage, StreamPublishingMessage,
  StreamRelayingMessage, MessageHeader,
}

unfoldable pub encode_intro : IntroMessage → List ℕ
encode_intro im =
    im.version_major ∷ im.version_minor ∷ im.version_revision ∷ im.relay_layer ∷ []
    ++ (le16 (length im.region_code % 2 ^ 16) ++ (im.region_code ++ im.hostname))

unfoldable pub encode_outro : OutroMessage → List ℕ
encode_outro im = im.reason

unfoldable pub encode_node_state : NodeStateMessage → List ℕ
encode_node_state im = le32 im.current_load ++ le32 im.maximum_load

unfoldable pub encode_channel_subscription : ChannelSubscriptionMessage → List ℕ
encode_channel_subscription im = im.mode ∷ [] ++ (le32 im.channel_id ++ im.stream_key)

unfoldable pub encode_stream_publishing : StreamPublishingMessage → List ℕ
encode_stream_publishing im = im.mode ∷ [] ++ (le32 im.channel_id ++ le32 im.stream_id)

-- `var channelID []byte` is nil, and `PutUint32` is called on it.
unfoldable pub encode_stream_relaying : StreamRelayingMessage → Outcome (List ℕ)
encode_stream_relaying im = do
  channel_id ← put_uint32 [] im.channel_id
  stream_id ← put_uint32 [] im.stream_id
  returns (
      im.mode ∷ []
      ++ (channel_id
          ++ (stream_id
              ++ (le16 (length im.target_hostname % 2 ^ 16)
                  ++ (im.target_hostname ++ im.stream_key)))))

-- `msgDesc`: the type with the two flag bits.
unfoldable pub describe : MessageHeader → ℕ
describe msg =
    let desc = if not msg.request then bit_or msg.kind 0x80 else msg.kind in
    if not msg.success then bit_or desc 0x40 else desc

unfoldable pub encode_header : MessageHeader → List ℕ
unfolding describe
encode_header msg = describe msg ∷ msg.id ∷ [] ++ le16 msg.payload_length
