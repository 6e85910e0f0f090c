-- ===== src/Ftl/Server.antt =====
-- server.go: the commands of the control connection, and the loop that serves it.
pub mod Auth
pub mod Serving
pub mod Keeping
use waveguide.Base.{
  ℕ, ◌+◌, ◌%◌, ◌^◌, ◌-◌, Bool, true, false, not, Option, none, some, List, [], ◌∷◌, ◌++◌, ltb, ◌==◌,
  if◌then◌else◌, Outcome, returns, panic, ◌>>=◌,
}
use waveguide.Base.Text.{
  ascii, eq_bytes, contains, is_digit, span, encode_hex, decode_hex, digits_value, decimal,
}
use waveguide.Ftl.Regex.{match_connect, match_attribute}
use waveguide.Ftl.Connection.{
  Metadata, Handler, Connection, System, Error, Session, Reply, unexpected_arguments,
  connect_before_auth, multiple_connect, invalid_hmac_hash, invalid_hmac_hex, write_failed,
  close_failed, handler_failed, nack_failed,
}

-- `strconv.Atoi` on digits: 64-bit integers.
abbrev pub atoi : List ℕ → Option ℕ
atoi s = let n = digits_value 0 s in if ltb n (2 ^ 63) then some n else none

-- The leading digits and what follows them.
abbrev pub end_uint : List ℕ × List ℕ → ℕ
end_uint (digits, rest) =
    let n = digits_value 0 digits in
    if ltb n (2 ^ 32) then elim rest [ [] ↦ n | d ∷ r ↦ 0 ] else 2 ^ 32 - 1

-- `strconv.ParseUint(input, 10, 32)` with its error dropped: 0 for what is no number, and the greatest
-- value for what is too large, also where the digits that are too many come before something else.
abbrev pub parse_uint : List ℕ → ℕ
parse_uint [] = 0
parse_uint (c ∷ s) = end_uint (span is_digit (c ∷ s))

unfoldable pub parse_attribute_to_uint : List ℕ → ℕ
parse_attribute_to_uint input = parse_uint input

unfoldable pub parse_attribute_to_uint8 : List ℕ → ℕ
parse_attribute_to_uint8 input = parse_uint input % 2 ^ 8

abbrev pub parse_attribute_to_bool : List ℕ → Bool
parse_attribute_to_bool input = eq_bytes input (ascii "true")

-- The `switch` on the attribute's key. An unknown key is only logged.
unfoldable pub set_attribute : List ℕ → List ℕ → Metadata → Metadata
set_attribute key value m =
    if eq_bytes key (ascii "ProtocolVersion")
    then record m { protocol_version = value }
    else if eq_bytes key (ascii "VendorName")
    then record m { vendor_name = value }
    else if eq_bytes key (ascii "VendorVersion")
    then record m { vendor_version = value }
    else if eq_bytes key (ascii "Video")
    then record m { has_video = parse_attribute_to_bool value }
    else if eq_bytes key (ascii "VideoCodec")
    then record m { video_codec = value }
    else if eq_bytes key (ascii "VideoHeight")
    then record m { video_height = parse_attribute_to_uint value }
    else if eq_bytes key (ascii "VideoWidth")
    then record m { video_width = parse_attribute_to_uint value }
    else if eq_bytes key (ascii "VideoPayloadType")
    then record m { video_payload_type = parse_attribute_to_uint8 value }
    else if eq_bytes key (ascii "VideoIngestSSRC")
    then record m { video_ingest_ssrc = parse_attribute_to_uint value }
    else if eq_bytes key (ascii "Audio")
    then record m { has_audio = parse_attribute_to_bool value }
    else if eq_bytes key (ascii "AudioCodec")
    then record m { audio_codec = value }
    else if eq_bytes key (ascii "AudioPayloadType")
    then record m { audio_payload_type = parse_attribute_to_uint8 value }
    else if eq_bytes key (ascii "AudioIngestSSRC")
    then record m { audio_ingest_ssrc = parse_attribute_to_uint value }
    else m

-- `mac` is HMAC-SHA512, by key and message.
module _ (H : Handler) (mac : List ℕ → List ℕ → List ℕ) where
  open H use {State, on_connect, get_hmac_key, on_play, on_close}

  abbrev fail : Error → Session State → Reply State
  fail e s = record { error = some e; session = s }

  abbrev done : Session State → Reply State
  done s = record { error = none; session = s }

  -- A message that cannot be written is not recorded.
  unfoldable pub send_message : System → List ℕ → Session State → Reply State
  send_message sys m s =
      if sys.writes
      then done
          (record s { conn = record (s.conn) { sent = s.conn.sent ++ ((m ++ ascii "\n") ∷ []) } })
      else fail write_failed s

  -- `Close` on the socket of `mediaTransport`.
  abbrev pub close_media : Bool → List Bool → List Bool
  close_media true (latest ∷ older) = false ∷ older
  close_media media_connected sockets = sockets

  unfoldable pub close : System → Session State → Outcome (Reply State)
  close sys s = do
    state ← on_close s.state
    let closed : Session State = record {
      conn = record (s.conn) {
        connected = false;
        media_connected = false;
        media_sockets = close_media (s.conn.media_connected) (s.conn.media_sockets);
      };
      state = state;
    }
    returns (if sys.closes then done closed else fail close_failed closed)

  unfoldable pub process_hmac : System → Session State → Reply State
  process_hmac sys s =
      send_message sys (ascii "200 " ++ encode_hex sys.random)
        (record s { conn = record (s.conn) { hmac_payload = sys.random } })

  -- From the digits of the channel on.
  unfoldable pub check_hash : System → List ℕ → List ℕ → Session State → Reply State
  check_hash sys key hash s =
      let expected = mac key s.conn.hmac_payload in
      let s' = record s { conn = record (s.conn) { hmac_payload = expected } } in
      elim (decode_hex hash) [
        | none ↦ fail invalid_hmac_hex s'
        | some bytes ↦
            let s'' = record s {
              conn = record (s.conn) {
                hmac_payload = expected;
                has_authenticated = true;
                client_hmac_hash = bytes;
              };
            } in
            if eq_bytes bytes expected
            then send_message sys (ascii "200") s''
            else fail invalid_hmac_hash s''
      ]

  unfoldable pub start_channel : System → ℕ → List ℕ → Session State → Reply State
  start_channel sys id hash s =
      let (accepted, state) = on_connect (id % 2 ^ 32) s.state in
      let s' : Session State = record {
        conn = record (s.conn) { channel_id = id };
        state = state;
      } in
      if accepted
      then elim (get_hmac_key state) [
        | none ↦ fail handler_failed s'
        | some key ↦ check_hash sys key hash s'
      ]
      else fail handler_failed s'

  unfoldable pub process_connect : System → List ℕ → Session State → Reply State
  process_connect sys message s =
      let s' = record s { conn = record (s.conn) { hmac_requested = true } } in
      if s.conn.hmac_requested then fail multiple_connect s else elim (match_connect message) [
        | none ↦ fail unexpected_arguments s'
        | some (id, hash) ↦ elim (atoi id) [
          | none ↦ fail unexpected_arguments s'
          | some n ↦ start_channel sys n hash s'
        ]
      ]

  unfoldable pub process_attribute : List ℕ → Session State → Reply State
  process_attribute message s =
      if not s.conn.has_authenticated
      then fail connect_before_auth s
      else elim (match_attribute message) [
        | none ↦ fail unexpected_arguments s
        | some (key, value) ↦ done (record s {
          conn = record (s.conn) { metadata = set_attribute key value (s.conn.metadata) };
        })
      ]

  -- Where the UDP socket cannot be made, the error returned is that of an earlier call, which is nil.
  unfoldable pub listen_for_media : System → Session State → Reply State
  listen_for_media sys s = elim (sys.udp_port) [
    | none ↦ done s
    | some port ↦
        let s' = record s {
          conn = record (s.conn) {
            assigned_media_port = port;
            media_connected = true;
            media_sockets = true ∷ s.conn.media_sockets;
          };
        } in
        if sys.nack_ready then done s' else fail nack_failed s'
  ]

  unfoldable pub play : System → Session State → Reply State
  play sys s =
      let (accepted, state) = on_play (s.conn.metadata) (s.state) in
      let s' = record s { state = state } in
      if accepted
      then send_message sys (ascii "200. Use UDP port " ++ decimal (s.conn.assigned_media_port)) s'
      else fail handler_failed s'

  unfoldable pub process_dot : System → Session State → Reply State
  process_dot sys s =
      if not s.conn.has_authenticated
      then fail connect_before_auth s
      else let heard = listen_for_media sys s in
        elim (heard.error) [ some e ↦ heard | none ↦ play sys (heard.session) ]

  unfoldable pub process_ping : System → Session State → Reply State
  process_ping sys s = send_message sys (ascii "201") s

  unfoldable pub process_command : System → List ℕ → Session State → Outcome (Reply State)
  process_command sys command s =
      if eq_bytes command (ascii "HMAC")
      then returns (process_hmac sys s)
      else if contains command (ascii "DISCONNECT")
      then close sys s
      else if contains command (ascii "CONNECT")
      then returns (process_connect sys command s)
      else if contains command (ascii "PING")
      then returns (process_ping sys s)
      else elim (match_attribute command) [
        | some m ↦ returns (process_attribute command s)
        | none ↦ returns (if eq_bytes command (ascii ".") then process_dot sys s else done s)
      ]

  -- The loop over what the scanner yields, each payload with what the system does meanwhile. At the
  -- end of the input `clean` says that the scanner reports no error, and `last` is the system then.
  unfoldable pub serve :
      List (System × List ℕ) → Bool → System → Session State → Outcome (Session State)
  serve [] clean last s =
      if clean then returns s else close last s >>= λ closed. returns (closed.session)
  serve ((sys, []) ∷ rest) clean last s = elim (s.conn.connected) [
    | false ↦ returns s
    | true ↦ serve rest clean last s
  ]
  serve ((sys, c ∷ payload) ∷ rest) clean last s = elim (s.conn.connected) [
    | false ↦ returns s
    | true ↦ elim (process_command sys (c ∷ payload) s) [
      | panic ↦ panic
      | returns r ↦ elim (r.error) [
        | none ↦ serve rest clean last (r.session)
        | some e ↦ close sys (r.session) >>= λ closed. returns (closed.session)
      ]
    ]
  ]
