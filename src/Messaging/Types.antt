-- ===== src/Messaging/Types.antt =====
-- The message types and their structs.
use waveguide.Base.{ℕ, Bool, List}

abbrev pub type_intro : ℕ
type_intro = 0

abbrev pub type_outro : ℕ
type_outro = 1

abbrev pub type_node_state : ℕ
type_node_state = 2

abbrev pub type_channel_subscription : ℕ
type_channel_subscription = 16

abbrev pub type_stream_publishing : ℕ
type_stream_publishing = 17

abbrev pub type_stream_relaying : ℕ
type_stream_relaying = 20

pub record IntroMessage : Type 0 where
  pub version_major : ℕ
  pub version_minor : ℕ
  pub version_revision : ℕ
  pub relay_layer : ℕ
  pub region_code : List ℕ
  pub hostname : List ℕ

pub record OutroMessage : Type 0 where
  pub reason : List ℕ

pub record NodeStateMessage : Type 0 where
  pub current_load : ℕ
  pub maximum_load : ℕ

-- The `Context` field of this and the next two structs is named `mode`.
pub record ChannelSubscriptionMessage : Type 0 where
  pub mode : ℕ
  pub channel_id : ℕ
  pub stream_key : List ℕ

pub record StreamPublishingMessage : Type 0 where
  pub mode : ℕ
  pub channel_id : ℕ
  pub stream_id : ℕ

pub record StreamRelayingMessage : Type 0 where
  pub mode : ℕ
  pub channel_id : ℕ
  pub stream_id : ℕ
  pub target_hostname : List ℕ
  pub stream_key : List ℕ

-- `Type` is named `kind`.
pub record MessageHeader : Type 0 where
  pub request : Bool
  pub success : Bool
  pub kind : ℕ
  pub id : ℕ
  pub payload_length : ℕ
