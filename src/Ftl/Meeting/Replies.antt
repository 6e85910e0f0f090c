-- ===== src/Ftl/Meeting/Replies.antt =====
-- server.go: the replies to the messages of a client that holds the channel's key.
use waveguide.Base.{
  ℕ, ◌%◌, ◌^◌, ◌<◌, ◌≡◌, ◌≢◌, refl, true, false, some, List, [], ◌∷◌, ◌++◌, arith, returns, All,
}
use waveguide.Base.Words.{IsU8}
use waveguide.Base.Text.{ascii, encode_hex}
use waveguide.Ftl.Regex.{match_attribute}
use waveguide.Ftl.Connection.{Handler, System, Session}
use waveguide.Ftl.Server.{
  send_message, process_connect, start_channel, check_hash, listen_for_media, play, process_dot,
  process_command,
}
use waveguide.Ftl.Client.{connect_message}
use waveguide.Ftl.Client.Handshake.{decode_hex-encode_hex, dot_answer}
use waveguide.Ftl.Meeting.Texts.{contains-Lacks, match_connect-connect_message, atoi-decimal}
use waveguide.Ftl.Meeting.Serving.{done, eq_bytes_same, connect-Lacks}

module _ (H : Handler) (mac : List ℕ → List ℕ → List ℕ) (sys : System) where
  open H use {State, on_connect, get_hmac_key, on_play}

  -- The hash that the client computes is the one that the server expects.
  check_hash-encode_hex :
      (key : List ℕ) (s : Session State)
      → All IsU8 (mac key s.conn.hmac_payload)
      → sys.writes ≡ true
      → check_hash H mac sys key (encode_hex (mac key s.conn.hmac_payload)) s
        ≡ done H mac sys (record s {
          conn = record (s.conn) {
            hmac_payload = mac key s.conn.hmac_payload;
            has_authenticated = true;
            client_hmac_hash = mac key s.conn.hmac_payload;
            sent = s.conn.sent ++ (ascii "200\n" ∷ []);
          };
        })
  unfolding check_hash send_message
  check_hash-encode_hex key s small writes =
      let decoded = decode_hex-encode_hex (mac key s.conn.hmac_payload) small in
      ground (arith, decoded, eq_bytes_same (mac key s.conn.hmac_payload), writes)

  start_channel_lem :
      (id : ℕ) (key : List ℕ) (s : Session State) (state : State)
      → id < 2 ^ 32
      → All IsU8 (mac key s.conn.hmac_payload)
      → sys.writes ≡ true
      → on_connect id s.state ≡ (true, state)
      → get_hmac_key state ≡ some key
      → start_channel H mac sys id (encode_hex (mac key s.conn.hmac_payload)) s
        ≡ done H mac sys (record {
          conn = record (s.conn) {
            channel_id = id;
            hmac_payload = mac key s.conn.hmac_payload;
            has_authenticated = true;
            client_hmac_hash = mac key s.conn.hmac_payload;
            sent = s.conn.sent ++ (ascii "200\n" ∷ []);
          };
          state = state;
        })
  unfolding start_channel
  start_channel_lem id key s state small hash_bytes writes connects keyed =
      let same : id % 2 ^ 32 ≡ id = omega arith in
      let accepted : on_connect (id % 2 ^ 32) s.state ≡ (true, state) = rw same connects in
      let s' : Session State = record {
        conn = record (s.conn) { channel_id = id };
        state = state;
      } in
      ground (arith, accepted, keyed, check_hash-encode_hex key s' hash_bytes writes)

  pub process_connect_lem :
      (id : ℕ) (key : List ℕ) (s : Session State) (state : State)
      → id < 2 ^ 32
      → All IsU8 (mac key s.conn.hmac_payload)
      → mac key s.conn.hmac_payload ≢ []
      → sys.writes ≡ true
      → on_connect id s.state ≡ (true, state)
      → get_hmac_key state ≡ some key
      → s.conn.hmac_requested ≡ false
      → process_connect H mac sys (connect_message id (mac key s.conn.hmac_payload)) s
        ≡ done H mac sys (record {
          conn = record (s.conn) {
            channel_id = id;
            hmac_payload = mac key s.conn.hmac_payload;
            has_authenticated = true;
            hmac_requested = true;
            client_hmac_hash = mac key s.conn.hmac_payload;
            sent = s.conn.sent ++ (ascii "200\n" ∷ []);
          };
          state = state;
        })
  unfolding process_connect
  process_connect_lem id key s state small hash_bytes some_hash writes connects keyed first =
      let s' : Session State = record s { conn = record (s.conn) { hmac_requested = true } } in
      simp
        (
          first,
          match_connect-connect_message id (mac key s.conn.hmac_payload) hash_bytes some_hash,
          atoi-decimal id small,
        )
        (start_channel_lem id key s' state small hash_bytes writes connects keyed)

  pub process_command-connect_message :
      (id : ℕ) (hash : List ℕ) (s : Session State)
      → All IsU8 hash
      → process_command H mac sys (connect_message id hash) s
        ≡ returns (process_connect H mac sys (connect_message id hash) s)
  unfolding process_command
  process_command-connect_message id hash s small =
      rw
        (contains-Lacks [] (ascii "ISCONNECT") (connect_message id hash) b'D'
          (connect-Lacks id hash small))
        refl

  listen_for_media_lem :
      (port : ℕ) (s : Session State)
      → sys.udp_port ≡ some port
      → sys.nack_ready ≡ true
      → listen_for_media H mac sys s
        ≡ done H mac sys (record s {
          conn = record (s.conn) {
            assigned_media_port = port;
            media_connected = true;
            media_sockets = true ∷ s.conn.media_sockets;
          };
        })
  unfolding listen_for_media
  listen_for_media_lem port s listens nack = rw (listens, nack) refl

  play_lem :
      (s : Session State) (state : State)
      → sys.writes ≡ true
      → on_play (s.conn.metadata) (s.state) ≡ (true, state)
      → play H mac sys s
        ≡ done H mac sys (record {
          conn = record (s.conn) {
            sent = s.conn.sent ++ ((dot_answer (s.conn.assigned_media_port) ++ ascii "\n") ∷ []);
          };
          state = state;
        })
  unfolding play send_message
  play_lem s state writes plays = ground (arith, writes, plays)

  pub process_dot_lem :
      (port : ℕ) (s : Session State) (state : State)
      → sys.writes ≡ true
      → sys.udp_port ≡ some port
      → sys.nack_ready ≡ true
      → s.conn.has_authenticated ≡ true
      → on_play (s.conn.metadata) (s.state) ≡ (true, state)
      → process_dot H mac sys s
        ≡ done H mac sys (record {
          conn = record (s.conn) {
            assigned_media_port = port;
            media_connected = true;
            media_sockets = true ∷ s.conn.media_sockets;
            sent = s.conn.sent ++ ((dot_answer port ++ ascii "\n") ∷ []);
          };
          state = state;
        })
  unfolding process_dot
  process_dot_lem port s state writes listens nack proved plays =
      let s' : Session State = record s {
        conn = record (s.conn) {
          assigned_media_port = port;
          media_connected = true;
          media_sockets = true ∷ s.conn.media_sockets;
        };
      } in
      ground (arith, listen_for_media_lem port s listens nack, play_lem s' state writes plays)

  pub process_command_dot :
      (s : Session State)
      → process_command H mac sys (ascii ".") s ≡ returns (process_dot H mac sys s)
  unfolding process_command match_attribute
  process_command_dot s = refl
