-- ===== src/Ftl/Meeting/Calling.antt =====
-- client.go: what the client sends to a server that answers as the server of the same package does.
use waveguide.Base.{
  ℕ, ◌≡◌, refl, ap, true, none, List, [], ◌∷◌, ◌++◌, append_assoc, append-nil, returns, All,
}
use waveguide.Base.Words.{IsU8}
use waveguide.Base.Text.{ascii, encode_hex}
use waveguide.Ftl.Client.{
  Answer, Conn, new_conn, metadata_batch, connect_message, send_control_message, send_attributes,
  send_metadata_batch, dial,
}
use waveguide.Ftl.Client.Handshake.{
  says, dot_answer, send_authentication-encode_hex, send_media_start_deaf,
}
use waveguide.Ftl.Meeting.{messages}

-- A message that is written and waits for no line.
abbrev pub unanswered : Answer
unanswered = record { writes = true; line = none }

abbrev pub unanswered_all : List (List ℕ) → List Answer → List Answer
unanswered_all [] later = later
unanswered_all (m ∷ ms) later = unanswered ∷ unanswered_all ms later

-- The messages with the line ends that the client puts behind them.
abbrev pub ended : List (List ℕ) → List (List ℕ)
ended [] = []
ended (m ∷ ms) = (m ++ ascii "\r\n\r\n") ∷ ended ms

ended-append : (ms ns : List (List ℕ)) → ended (ms ++ ns) ≡ ended ms ++ ended ns
ended-append [] ns = refl
ended-append (m ∷ ms) ns = ap (λ r. (m ++ ascii "\r\n\r\n") ∷ r) (ended-append ms ns)

-- What is sent goes behind what was sent before.
abbrev sent_after : Conn → List (List ℕ) → List Answer → Conn
sent_after conn ms later = record conn { sent = conn.sent ++ ms; answers = later }

send_attributes_lem :
    (ms : List (List ℕ)) (conn : Conn) (later : List Answer)
    → send_attributes ms (record conn { answers = unanswered_all ms later })
      ≡ (none, sent_after conn (ended ms) later)
unfolding send_attributes send_control_message
send_attributes_lem [] conn later = rw (append-nil (conn.sent)) refl
send_attributes_lem (m ∷ ms) conn later =
    let conn' = record conn { sent = conn.sent ++ ((m ++ ascii "\r\n\r\n") ∷ []) } in
    rw (send_attributes_lem ms conn' later) (
      ap (λ sent. (none, record conn { sent = sent; answers = later }))
        (append_assoc (conn.sent) ((m ++ ascii "\r\n\r\n") ∷ []) (ended ms)))

-- The answers of the server to the messages of `Dial`, with a challenge and a port.
abbrev pub answers_to_dial : ℕ → List ℕ → ℕ → List Answer
answers_to_dial id random port =
    says (ascii "200 " ++ encode_hex random)
    ∷ says (ascii "200")
    ∷ unanswered_all (metadata_batch id) (says (dot_answer port) ∷ [])

abbrev pub dialled : ℕ → List ℕ → Conn
dialled id hash = record (new_conn id []) { media_open = true; sent = ended (messages id hash) }

pub dial_lem :
    (mac : List ℕ → List ℕ → List ℕ) (id : ℕ) (key random : List ℕ) (port : ℕ)
    → All IsU8 random
    → dial mac id key true (answers_to_dial id random port)
      ≡ returns (none, dialled id (mac key random))
unfolding dial send_metadata_batch
dial_lem mac id key random port small =
    let told = unanswered_all (metadata_batch id) (says (dot_answer port) ∷ []) in
    let hash = mac key random in
    let first : Conn = record (new_conn id []) {
      sent = ascii "HMAC\r\n\r\n" ∷ (connect_message id hash ++ ascii "\r\n\r\n") ∷ [];
    } in
    let second : Conn = record first { sent = first.sent ++ ended (metadata_batch id) } in
    rw
      (
        send_authentication-encode_hex mac id key random (new_conn id []) told small,
        send_attributes_lem (metadata_batch id) first (says (dot_answer port) ∷ []),
        send_media_start_deaf port second [],
      )
      refl
