-- ===== src/Orchestrator/Client.antt =====
-- Connecting, sending and closing.
use waveguide.Base.{
  ℕ, ◌+◌, ◌%◌, ◌^◌, Bool, true, false, not, Option, none, some, List, [], ◌∷◌, ◌++◌, length,
  if◌then◌else◌, Outcome, returns, panic, ◌>>=◌,
}
use waveguide.Messaging.Types.{type_intro, type_outro, type_stream_publishing, MessageHeader}
use waveguide.Messaging.Encode.{encode_intro, encode_outro, encode_stream_publishing, encode_header}

pub record Config : Type 0 where
  pub region_code : List ℕ
  pub hostname : List ℕ

-- `has_logger` is false while the `logger` interface is nil.
pub record Client : Type 0 where
  pub config : Config
  pub has_logger : Bool
  pub connected : Bool
  pub last_message_id : ℕ

pub data Error : Type 0 where
  dial_failed closed write_failed : Error

-- What a method leaves: the client, the frame handed to `transport.Write` and the error.
pub record Sent : Type 0 where
  pub client : Client
  pub frame : Option (List ℕ)
  pub error : Option Error

unfoldable pub new_client : Config → Client
new_client config = record {
  config = config;
  has_logger = false;
  connected = false;
  last_message_id = 0;
}

abbrev pub request_header : Client → ℕ → List ℕ → MessageHeader
request_header c kind payload = record {
  request = true;
  success = true;
  kind = kind;
  id = c.last_message_id;
  payload_length = length payload % 2 ^ 16;
}

-- `writes` is whether `transport.Write` succeeds. A method call on a nil logger panics.
unfoldable pub send_message : Client → Bool → ℕ → List ℕ → Outcome Sent
send_message c writes kind payload =
    if not c.connected
    then returns (record { client = c; frame = none; error = some closed })
    else if not c.has_logger
    then panic
    else let frame = encode_header (request_header c kind payload) ++ payload in
      if writes
      then returns (record {
        client = record c { last_message_id = (c.last_message_id + 1) % 2 ^ 8 };
        frame = some frame;
        error = none;
      })
      else returns (record { client = c; frame = some frame; error = some write_failed })

-- The client after a failed introduction is marked as not connected.
abbrev pub after_intro : Sent → Sent
after_intro s = elim s.error [
  | none ↦ s
  | some e ↦ record s { client = record (s.client) { connected = false } }
]

unfoldable pub connect : Client → Bool → Bool → Outcome Sent
connect c dials writes =
    if dials
    then (do
      let ready = record c { has_logger = true; connected = true; last_message_id = 1 }
      sent ← send_message ready writes type_intro (
          encode_intro (record {
            version_major = 0;
            version_minor = 0;
            version_revision = 0;
            relay_layer = 0;
            region_code = c.config.region_code;
            hostname = c.config.hostname;
          }))
      returns (after_intro sent))
    else returns (record { client = c; frame = none; error = some dial_failed })

abbrev pub going_away : List ℕ
going_away = b'G' ∷ b'o' ∷ b'i' ∷ b'n' ∷ b'g' ∷ b' ' ∷ b'a' ∷ b'w' ∷ b'a' ∷ b'y' ∷ []

-- The error of the last message is dropped.
unfoldable pub close : Client → Bool → Outcome Sent
close c writes =
    if not c.has_logger
    then panic
    else if not c.connected
    then returns (record { client = c; frame = none; error = none })
    else do
      sent ← send_message c writes type_outro (encode_outro (record { reason = going_away }))
      returns (record sent { client = record (sent.client) { connected = false }; error = none })

abbrev pub publishing : ℕ → ℕ → ℕ → List ℕ
publishing mode channel_id stream_id =
    encode_stream_publishing
      (record { mode = mode; channel_id = channel_id; stream_id = stream_id })

-- `func (client Client) StartStream`: the receiver is a copy, and the caller's client stays.
unfoldable pub start_stream : Client → Bool → ℕ → ℕ → Outcome Sent
start_stream c writes channel_id stream_id = do
  sent ← send_message c writes type_stream_publishing (publishing 1 channel_id stream_id)
  returns (record sent { client = c })

unfoldable pub stop_stream : Client → Bool → ℕ → ℕ → Outcome Sent
stop_stream c writes channel_id stream_id = do
  sent ← send_message c writes type_stream_publishing (publishing 0 channel_id stream_id)
  returns (record sent { client = c })
