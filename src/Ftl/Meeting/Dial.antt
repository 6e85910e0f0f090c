-- ===== src/Ftl/Meeting/Dial.antt =====
-- client.go and server.go: `Dial` of the client, with the server of the same package at the other end.
use waveguide.Base.{
  ℕ, ◌^◌, ◌<◌, ◌≡◌, ◌≢◌, refl, ap, ◌∙◌, sym, true, none, some, List, [], ◌∷◌, ◌++◌, append_assoc,
  arith, returns, All,
}
use waveguide.Base.Words.{IsU8}
use waveguide.Base.Text.{ascii, encode_hex}
use waveguide.Ftl.Connection.{Handler, System, Connection, Session, no_metadata, new_connection}
use waveguide.Ftl.Server.{serve}
use waveguide.Ftl.Client.{Answer, connect_message, dial, metadata_batch}
use waveguide.Ftl.Client.Handshake.{dot_answer}
use waveguide.Ftl.Lines.Chunks.{wire}
use waveguide.Ftl.Meeting.{described, with_gaps, under, messages}
use waveguide.Ftl.Meeting.Commands.{batch, texts-batch, set_all, set_all-batch}
use waveguide.Ftl.Meeting.Serving.{serve_message, serve_attributes, process_hmac_lem}
use waveguide.Ftl.Meeting.Replies.{
  process_connect_lem, process_command-connect_message, process_dot_lem, process_command_dot,
}
use waveguide.Ftl.Meeting.Calling.{ended, dialled, dial_lem, unanswered_all}

abbrev pub flatten : List (List ℕ) → List ℕ
flatten [] = []
flatten (m ∷ ms) = m ++ flatten ms

-- On the wire the two line ends of each message are a line and an empty line.
flatten-ended : (ms : List (List ℕ)) → flatten (ended ms) ≡ wire (with_gaps ms)
flatten-ended [] = refl
flatten-ended (m ∷ ms) =
    append_assoc m (ascii "\r\n\r\n") (flatten (ended ms))
    ∙ ap (λ r. m ++ (ascii "\r\n\r\n" ++ r)) (flatten-ended ms)

under_gaps-append :
    (sys : System) (ms ns : List (List ℕ))
    → under sys (with_gaps (ms ++ ns)) ≡ under sys (with_gaps ms) ++ under sys (with_gaps ns)
under_gaps-append sys [] ns = refl
under_gaps-append sys (m ∷ ms) ns = ap (λ r. (sys, m) ∷ (sys, []) ∷ r) (under_gaps-append sys ms ns)

-- The lines that a server sent as the client hears them: one to the challenge, one to the channel, none
-- to the attributes, one to the start.
abbrev pub heard : ℕ → List (List ℕ) → List Answer
heard id (challenge ∷ accepted ∷ started ∷ []) =
    record { writes = true; line = some challenge }
    ∷ record { writes = true; line = some accepted }
    ∷ unanswered_all (metadata_batch id) (record { writes = true; line = some started } ∷ [])
heard id other = []

-- The connection at the server once the client has dialled.
abbrev pub welcomed : ℕ → List ℕ → ℕ → List ℕ → Connection
welcomed id random port hash = record new_connection {
  channel_id = id;
  assigned_media_port = port;
  media_connected = true;
  media_sockets = true ∷ [];
  hmac_payload = hash;
  client_hmac_hash = hash;
  has_authenticated = true;
  hmac_requested = true;
  metadata = described id;
  sent =
      (ascii "200 " ++ encode_hex random ++ ascii "\n")
      ∷ ascii "200\n"
      ∷ (dot_answer port ++ ascii "\n")
      ∷ [];
}

connect_message-ne-nil : (id : ℕ) (hash : List ℕ) → connect_message id hash ≢ []
connect_message-ne-nil id hash e = absurd (ground arith)

module _ (H : Handler) (mac : List ℕ → List ℕ → List ℕ) (sys : System) where
  open H use {State, on_connect, get_hmac_key, on_play}

  -- From the attributes on.
  serve-described :
      (id port : ℕ) (s : Session State) (state : State)
      → id < 2 ^ 32
      → sys.writes ≡ true
      → sys.udp_port ≡ some port
      → sys.nack_ready ≡ true
      → s.conn.connected ≡ true
      → s.conn.has_authenticated ≡ true
      → s.conn.metadata ≡ no_metadata
      → on_play (described id) s.state ≡ (true, state)
      → serve H mac (under sys (with_gaps (metadata_batch id ++ (ascii "." ∷ [])))) true sys s
        ≡ returns (record {
          conn = record (s.conn) {
            assigned_media_port = port;
            media_connected = true;
            media_sockets = true ∷ s.conn.media_sockets;
            metadata = described id;
            sent = s.conn.sent ++ ((dot_answer port ++ ascii "\n") ∷ []);
          };
          state = state;
        })
  unfolding serve
  serve-described id port s state small writes listens nack opened proved plain plays =
      let start = under sys (with_gaps (ascii "." ∷ [])) in
      let s' : Session State = record s { conn = record (s.conn) { metadata = described id } } in
      let s'' : Session State = record {
        conn = record (s.conn) {
          assigned_media_port = port;
          media_connected = true;
          media_sockets = true ∷ s.conn.media_sockets;
          metadata = described id;
          sent = s.conn.sent ++ ((dot_answer port ++ ascii "\n") ∷ []);
        };
        state = state;
      } in
      ap (λ ls. serve H mac ls true sys s)
        (under_gaps-append sys (metadata_batch id) (ascii "." ∷ [])
          ∙ ap (λ ts. under sys (with_gaps ts) ++ start) (sym (texts-batch id)))
      ∙ serve_attributes H mac sys (batch id) start true sys s opened proved
      ∙ ap (λ m. serve H mac start true sys (record s { conn = record (s.conn) { metadata = m } }))
          (ap (set_all (batch id)) plain ∙ set_all-batch id small)
      ∙ serve_message H mac sys (ascii ".") [] true sys s' s'' (λ e. absurd (ground arith)) opened
          opened
          (process_command_dot H mac sys s'
            ∙ ap returns (process_dot_lem H mac sys port s' state writes listens nack proved plays))

  -- The server takes all the messages of `Dial` without an error.
  serve_dial :
      (id : ℕ) (key : List ℕ) (port : ℕ) (s0 s1 s2 : State)
      → id < 2 ^ 32
      → All IsU8 (mac key sys.random)
      → mac key sys.random ≢ []
      → sys.writes ≡ true
      → sys.udp_port ≡ some port
      → sys.nack_ready ≡ true
      → on_connect id s0 ≡ (true, s1)
      → get_hmac_key s1 ≡ some key
      → on_play (described id) s1 ≡ (true, s2)
      → serve H mac
          (under sys (with_gaps (messages id (mac key sys.random))))
          true
          sys
          (record { conn = new_connection; state = s0 })
        ≡ returns (record { conn = welcomed id sys.random port (mac key sys.random); state = s2 })
  serve_dial id key port s0 s1 s2 small hash_bytes some_hash writes listens nack connects keyed
        plays =
      let hash = mac key sys.random in
      let asked : Session State = record {
        conn = record new_connection {
          hmac_payload = sys.random;
          sent = (ascii "200 " ++ encode_hex sys.random ++ ascii "\n") ∷ [];
        };
        state = s0;
      } in
      let accepted : Session State = record {
        conn = record (asked.conn) {
          channel_id = id;
          hmac_payload = hash;
          client_hmac_hash = hash;
          has_authenticated = true;
          hmac_requested = true;
          sent = asked.conn.sent ++ (ascii "200\n" ∷ []);
        };
        state = s1;
      } in
      let described_next = under sys (with_gaps (metadata_batch id ++ (ascii "." ∷ []))) in
      serve_message H mac sys (ascii "HMAC")
        ((sys, connect_message id hash) ∷ (sys, []) ∷ described_next) true sys
        (record { conn = new_connection; state = s0 }) asked (λ e. absurd (ground arith)) refl refl
        (process_hmac_lem H mac sys (record { conn = new_connection; state = s0 }) writes)
      ∙ serve_message H mac sys (connect_message id hash) described_next true sys asked accepted
          (connect_message-ne-nil id hash) refl refl
          (process_command-connect_message H mac sys id hash asked hash_bytes
            ∙ ap returns (
                process_connect_lem H mac sys id key asked s1 small hash_bytes some_hash writes
                  connects keyed refl))
      ∙ serve-described id port accepted s2 small writes listens nack refl refl refl plays

  -- A client that holds the channel's key dials the server of the same package: the server takes its
  -- messages without an error, lets it in and starts its media, and has sent the lines that end the client's
  -- `Dial` without an error; what the client wrote meanwhile are the bytes of the lines that the server
  -- read, an empty line behind each. The channel's id is below 2^32, the random bytes and the hash are bytes and
  -- the hash is not empty; the handler accepts the channel, has the key and accepts the media as the client
  -- describes them; the server can write, finds a port and its NACK generator; the client can dial the media
  -- address.
  pub dial-serve :
      (id : ℕ) (key : List ℕ) (port : ℕ) (s0 s1 s2 : State)
      → id < 2 ^ 32
      → All IsU8 sys.random
      → All IsU8 (mac key sys.random)
      → mac key sys.random ≢ []
      → sys.writes ≡ true
      → sys.udp_port ≡ some port
      → sys.nack_ready ≡ true
      → on_connect id s0 ≡ (true, s1)
      → get_hmac_key s1 ≡ some key
      → on_play (described id) s1 ≡ (true, s2)
      → let hash = mac key sys.random in
        let at_server = welcomed id sys.random port hash in
        (serve H mac
            (under sys (with_gaps (messages id hash)))
            true
            sys
            (record { conn = new_connection; state = s0 })
          ≡ returns (record { conn = at_server; state = s2 }))
        × (dial mac id key true (heard id at_server.sent) ≡ returns (none, dialled id hash))
        × (flatten (dialled id hash).sent ≡ wire (with_gaps (messages id hash)))
  dial-serve id key port s0 s1 s2 small random_bytes hash_bytes some_hash writes listens nack
        connects keyed plays =
      (
        serve_dial id key port s0 s1 s2 small hash_bytes some_hash writes listens nack connects
            keyed plays,
        dial_lem mac id key sys.random port random_bytes,
        flatten-ended (messages id (mac key sys.random)),
      )
