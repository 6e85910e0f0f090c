-- ===== src/Ftl/Client.antt =====
-- client.go: the FTL client that the RTMP input uses. The control connection is the list of what the
-- server will answer; HMAC-SHA512 is a parameter.
pub mod Handshake
pub mod Pings
pub mod Closing
mod Runs
use waveguide.Base.{
  ℕ, zero, suc, ◌+◌, ◌%◌, ◌^◌, Bool, true, false, not, ◌-◌, Option, none, some, List, [], ◌∷◌, ◌++◌,
  if◌then◌else◌, Outcome, returns, panic, ◌>>=◌, leb,
}
use waveguide.Base.Text.{
  ascii, eq_bytes, strip_prefix, is_digit, span, encode_hex, decode_hex, digits_value, decimal,
}
use waveguide.Control.Types.{Progress, finished, blocked}
use waveguide.Ftl.Server.{atoi}

-- One exchange on the control connection: whether the message can be written, and the line that
-- `ReadString` yields, with its line feed; `none` is an error.
pub record Answer : Type 0 where
  pub writes : Bool
  pub line : Option (List ℕ)

-- `Conn` less its sockets. `sent` holds what was written, `answers` what is to come; where it has run out
-- the connection is broken. `quit_timer` counts what waits in the channel `quitTimer`, which holds one; it is
-- none where the channel is nil.
pub record Conn : Type 0 where
  pub assigned_media_port : ℕ
  pub channel_id : ℕ
  pub control_connected : Bool
  pub media_open : Bool
  pub failed_heartbeats : ℕ
  pub quit_timer : Option ℕ
  pub sent : List (List ℕ)
  pub answers : List Answer

abbrev pub new_conn : ℕ → List Answer → Conn
new_conn channel_id answers = record {
  assigned_media_port = 0;
  channel_id = channel_id;
  control_connected = false;
  media_open = false;
  failed_heartbeats = 0;
  quit_timer = some 0;
  sent = [];
  answers = answers;
}

-- `&Conn{}`
abbrev pub no_conn : Conn
no_conn = record (new_conn 0 []) { quit_timer = none }

pub data Error : Type 0 where
  connect_failed write_failed read_failed invalid_hex not_a_number unexpected_reply : Error
  server_terminate invalid_stream_key internal_server_error address_failed : Error

abbrev pub Result : Type 0
Result = Option Error × Conn

-- `strings.TrimRight(recv, "\n")`
unfoldable pub trim_right : List ℕ → List ℕ
trim_right [] = []
trim_right (c ∷ s) = elim (trim_right s) [
  | [] ↦ if eq_bytes (c ∷ []) (ascii "\n") then [] else c ∷ []
  | d ∷ r ↦ c ∷ d ∷ r
]

-- `sendControlMessage`: the response or an error.
unfoldable pub send_control_message : List ℕ → Bool → Conn → (Option Error × List ℕ) × Conn
send_control_message message need_response conn = elim (conn.answers) [
  | [] ↦ ((some write_failed, []), conn)
  | answer ∷ answers ↦
      let conn' = record conn {
        sent = conn.sent ++ ((message ++ ascii "\r\n\r\n") ∷ []);
        answers = answers;
      } in
      if answer.writes
      then if need_response
        then elim (answer.line) [
          | none ↦ ((some read_failed, []), conn')
          | some line ↦ ((none, trim_right line), conn')
        ]
        else ((none, []), conn')
      else ((some write_failed, []), record conn { answers = answers })
]

-- `checkFtlResponse`
unfoldable pub check_ftl_response : List ℕ → Option Error → List ℕ → Option Error
check_ftl_response resp (some e) expected = some e
check_ftl_response resp none expected =
    if eq_bytes resp expected then none else some unexpected_reply

-- `close`: the farewell is sent whatever comes of it.
unfoldable pub close : Conn → Conn
close conn =
    let farewell =
      send_control_message (ascii "DISCONNECT") false (record conn { control_connected = false }) in
    record (farewell.1) { media_open = false }

-- From the sending on.
abbrev pub end_close : Conn → Conn
end_close conn = if conn.control_connected then close conn else conn

-- `Close`. It waits on a nil channel, and while an earlier quit has not been received.
unfoldable pub close_conn : Conn → Progress Conn
close_conn conn = elim (conn.quit_timer) [
  | none ↦ blocked
  | some zero ↦ finished (end_close (record conn { quit_timer = some 1 }))
  | some (suc n) ↦ blocked
]

-- `strings.Split(resp, " ")[1]`: `none` where there is no space.
unfoldable pub second_word : List ℕ → Option (List ℕ)
second_word resp = elim ((span (λ c. not (eq_bytes (c ∷ []) (ascii " "))) resp).1) [
  | [] ↦ none
  | space ∷ rest ↦ some (span (λ c. not (eq_bytes (c ∷ []) (ascii " "))) rest).0
]

-- `fmt.Sprintf(requestConnect, channelID, …)`
abbrev pub connect_message : ℕ → List ℕ → List ℕ
connect_message channel_id hash =
    ascii "CONNECT " ++ decimal channel_id ++ ascii " $" ++ encode_hex hash

module _ (mac : List ℕ → List ℕ → List ℕ) where
  -- After the answer to the CONNECT message.
  abbrev pub end_connect : (Option Error × List ℕ) × Conn → Outcome Result
  end_connect ((err, resp), conn) = returns (check_ftl_response resp err (ascii "200"), conn)

  -- From `hex.DecodeString` on.
  abbrev pub send_connect : ℕ → List ℕ → Option (List ℕ) → Conn → Outcome Result
  send_connect channel_id key none conn = returns (some invalid_hex, conn)
  send_connect channel_id key (some decoded) conn =
      end_connect (send_control_message (connect_message channel_id (mac key decoded)) true conn)

  -- From the split of the answer on.
  abbrev pub take_word : ℕ → List ℕ → Option (List ℕ) → Conn → Outcome Result
  take_word channel_id key none conn = panic
  take_word channel_id key (some word) conn = send_connect channel_id key (decode_hex word) conn

  -- After the answer to the HMAC message.
  abbrev pub take_challenge : ℕ → List ℕ → (Option Error × List ℕ) × Conn → Outcome Result
  take_challenge channel_id key ((some e, resp), conn) = returns (some e, conn)
  take_challenge channel_id key ((none, resp), conn) =
      take_word channel_id key (second_word resp) conn

  -- It panics where the answer is a single word.
  unfoldable pub send_authentication : ℕ → List ℕ → Conn → Outcome Result
  send_authentication channel_id key conn =
      take_challenge channel_id key (send_control_message (ascii "HMAC") true conn)

abbrev pub metadata_batch : ℕ → List (List ℕ)
metadata_batch channel_id =
    (ascii "ProtocolVersion: 0.2")
    ∷ (ascii "VendorName: rtmp-ingest")
    ∷ (ascii "VendorVersion: 1.0")
    ∷ (ascii "Video: true")
    ∷ (ascii "VideoCodec: H264")
    ∷ (ascii "VideoHeight: 720")
    ∷ (ascii "VideoWidth: 1280")
    ∷ (ascii "VideoPayloadType: 96")
    ∷ (ascii "VideoIngestSSRC: " ++ decimal ((channel_id + 1) % 2 ^ 32))
    ∷ (ascii "Audio: true")
    ∷ (ascii "AudioCodec: OPUS")
    ∷ (ascii "AudioPayloadType: 97")
    ∷ (ascii "AudioIngestSSRC: " ++ decimal channel_id)
    ∷ []

-- The loop over the attributes, which the first error ends.
unfoldable pub send_attributes : List (List ℕ) → Conn → Result
send_attributes [] conn = (none, conn)
send_attributes (v ∷ attrs) conn =
    let ((err, resp), conn') = send_control_message v false conn in
    let rest = send_attributes attrs conn' in elim err [ some e ↦ (some e, conn') | none ↦ rest ]

unfoldable pub send_metadata_batch : Conn → Result
send_metadata_batch conn = send_attributes (metadata_batch conn.channel_id) conn

-- The first match of `200 hi\. Use UDP port (\d+)`: the digits.
unfoldable pub match_media_port : List ℕ → Option (List ℕ)
match_media_port [] = none
match_media_port (c ∷ s) =
    let later = match_media_port s in
    elim (strip_prefix (ascii "200 hi. Use UDP port ") (c ∷ s)) [
      | none ↦ later
      | some rest ↦ elim ((span is_digit rest).0) [ [] ↦ later | d ∷ digits ↦ some (d ∷ digits) ]
    ]

-- `strconv.Atoi`, whose value is stored along with its error.
abbrev pub store_port : Option ℕ → Conn → Result
store_port none conn = (some not_a_number, record conn { assigned_media_port = 2 ^ 63 - 1 })
store_port (some port) conn = (none, record conn { assigned_media_port = port })

-- An answer that does not match is no error.
abbrev pub take_port : Option (List ℕ) → Conn → Result
take_port none conn = (none, conn)
take_port (some digits) conn = store_port (atoi digits) conn

-- After the answer to the `.` message.
abbrev pub end_start : (Option Error × List ℕ) × Conn → Result
end_start ((some e, resp), conn) = (some e, conn)
end_start ((none, resp), conn) = take_port (match_media_port resp) conn

unfoldable pub send_media_start : Conn → Result
send_media_start conn = end_start (send_control_message (ascii ".") true conn)

module _ (mac : List ℕ → List ℕ → List ℕ) where
  -- A step of `Dial` that returns an error closes the connection.
  abbrev pub or_close : Result → (Conn → Outcome Result) → Outcome Result
  or_close (some e, conn) next = returns (some e, close conn)
  or_close (none, conn) next = next conn

  -- `reachable` is whether the media address resolves and can be dialled.
  abbrev pub dial_media : Bool → Conn → Outcome Result
  dial_media reachable conn =
      if reachable
      then returns (none, record conn { media_open = true })
      else returns (some address_failed, conn)

  abbrev pub start_media : Bool → Conn → Outcome Result
  start_media reachable conn = or_close (send_media_start conn) (dial_media reachable)

  abbrev pub describe_media : Bool → Conn → Outcome Result
  describe_media reachable conn = or_close (send_metadata_batch conn) (start_media reachable)

  -- `Dial` on a control connection that stands.
  unfoldable pub dial : ℕ → List ℕ → Bool → List Answer → Outcome Result
  dial channel_id key reachable answers = do
    authenticated ← send_authentication mac channel_id key (new_conn channel_id answers)
    or_close authenticated (describe_media reachable)

module _ (mac : List ℕ → List ℕ → List ℕ) where
  -- `Dial`, where the control connection can be dialled, and what it will answer, or cannot.
  unfoldable pub dial_control : ℕ → List ℕ → Bool → Option (List Answer) → Outcome Result
  dial_control channel_id key reachable none = returns (some connect_failed, no_conn)
  dial_control channel_id key reachable (some answers) = dial mac channel_id key reachable answers

-- What `select` picks: the ticker or the quit channel.
pub data Tick : Type 0 where
  beat quit : Tick

-- `Heartbeat` over a run of picks. Without an error it ends at the quit; at the end of the run it waits.
unfoldable pub heartbeat : List Tick → Conn → Result
heartbeat [] conn = (none, conn)
heartbeat (quit ∷ ticks) conn = (none, record conn { quit_timer = some 0 })
heartbeat (beat ∷ ticks) conn =
    let ((err, resp), conn') = send_control_message (ascii "PING") true conn in
    let failed = record conn' { failed_heartbeats = conn'.failed_heartbeats + 1 } in
    let after_failure = heartbeat ticks failed in
    let after_pong = heartbeat ticks (record conn' { failed_heartbeats = 0 }) in
    if eq_bytes resp (ascii "410")
    then (some server_terminate, close conn')
    else if eq_bytes resp (ascii "405")
    then (some invalid_stream_key, close conn')
    else if eq_bytes resp (ascii "500")
    then (some internal_server_error, close conn')
    else elim (check_ftl_response resp err (ascii "201")) [
      | some e ↦ if leb 5 (failed.failed_heartbeats) then (some e, close failed) else after_failure
      | none ↦ after_pong
    ]
