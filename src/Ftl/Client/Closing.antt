-- ===== src/Ftl/Client/Closing.antt =====
-- client.go: what `Close` does to a connection that `Dial` has made.
use waveguide.Base.{
  ℕ, ◌≡◌, refl, ◌∙◌, Bool, true, false, Option, none, some, List, [], ◌∷◌, arith, Outcome, returns,
  Outcome-cases, inl, inr,
}
use waveguide.Base.Text.{ascii}
use waveguide.Control.Types.{Progress, finished, blocked}
use waveguide.Ftl.Client.{
  Answer, Conn, Error, Result, send_control_message, close, close_conn, dial_control,
  metadata_batch, send_authentication, take_challenge, take_word, send_connect, send_attributes,
  send_metadata_batch, send_media_start, or_close, dial, new_conn, dial_media, start_media,
  describe_media,
}

-- A connection that counts as closed, and whose heartbeat has not been told to quit.
abbrev IsUnconnected : Conn → Type 0
IsUnconnected conn = (conn.control_connected ≡ false) × (conn.quit_timer ≡ some 0)

abbrev Keeps : Conn → Conn → Type 0
Keeps conn conn' =
    (conn'.control_connected ≡ conn.control_connected) × (conn'.quit_timer ≡ conn.quit_timer)

IsUnconnected-Keeps :
    (conn conn' : Conn) → IsUnconnected conn → Keeps conn conn' → IsUnconnected conn'
IsUnconnected-Keeps conn conn' (off, idle) (same, same') = (same ∙ off, same' ∙ idle)

Keeps-Keeps : (a b c : Conn) → Keeps a b → Keeps b c → Keeps a c
Keeps-Keeps a b c (same, same') (next, next') = (next ∙ same, next' ∙ same')

send-Keeps :
    (message : List ℕ) (need : Bool) (conn : Conn)
    → Keeps conn (send_control_message message need conn).1
unfolding send_control_message
send-Keeps message need conn = ground arith

attributes-Keeps : (attrs : List (List ℕ)) (conn : Conn) → Keeps conn (send_attributes attrs conn).1
unfolding send_attributes
attributes-Keeps [] conn = (refl, refl)
attributes-Keeps (v ∷ attrs) conn =
    ground
      (arith, send-Keeps v false conn, attributes-Keeps attrs (send_control_message v false conn).1)

start-Keeps : (conn : Conn) → Keeps conn (send_media_start conn).1
unfolding send_media_start
start-Keeps conn = grind (arith, send-Keeps)

close-IsUnconnected : (conn : Conn) → IsUnconnected conn → IsUnconnected (close conn)
unfolding close
close-IsUnconnected conn (off, idle) =
    let hung_up : Conn = record conn { control_connected = false } in
    let kept = send-Keeps (ascii "DISCONNECT") false hung_up in (kept.0, kept.1 ∙ idle)

-- What `Close` then comes to: the quit, where there is a channel for it.
abbrev pub only_quit : Option (List Answer) → Conn → Progress Conn
only_quit none conn = blocked
only_quit (some answers) conn = finished (record conn { quit_timer = some 1 })

module _ (mac : List ℕ → List ℕ → List ℕ) where
  connect-Keeps :
      (channel_id : ℕ) (key : List ℕ) (decoded : Option (List ℕ)) (conn : Conn) {r : Result}
      → send_connect mac channel_id key decoded conn ≡ returns r
      → Keeps conn r.1
  connect-Keeps channel_id key none conn {r} e = ground arith
  connect-Keeps channel_id key (some decoded) conn {r} e = grind (arith, send-Keeps)

  word-Keeps :
      (channel_id : ℕ) (key : List ℕ) (word : Option (List ℕ)) (conn : Conn) {r : Result}
      → take_word mac channel_id key word conn ≡ returns r
      → Keeps conn r.1
  word-Keeps channel_id key none conn {r} e = ground arith
  word-Keeps channel_id key (some word) conn {r} e = connect-Keeps channel_id key _ conn {r = r} e

  challenge-Keeps :
      (channel_id : ℕ) (key : List ℕ) (answer : (Option Error × List ℕ) × Conn) {r : Result}
      → take_challenge mac channel_id key answer ≡ returns r
      → Keeps answer.1 r.1
  challenge-Keeps channel_id key ((some x, resp), conn) {r} e = ground arith
  challenge-Keeps channel_id key ((none, resp), conn) {r} e =
      word-Keeps channel_id key _ conn {r = r} e

  or_close-IsUnconnected :
      (result : Result) (next : Conn → Outcome Result) {r : Result}
      → IsUnconnected result.1
      → ((conn : Conn) → IsUnconnected conn → next conn ≡ returns r → IsUnconnected r.1)
      → or_close mac result next ≡ returns r
      → IsUnconnected r.1
  or_close-IsUnconnected (some x, conn) next {r} before later e =
      ground (arith, close-IsUnconnected conn before)
  or_close-IsUnconnected (none, conn) next {r} before later e = later conn before e

  authentication-Keeps :
      (channel_id : ℕ) (key : List ℕ) (conn : Conn) {r : Result}
      → send_authentication mac channel_id key conn ≡ returns r
      → Keeps conn r.1
  unfolding send_authentication
  authentication-Keeps channel_id key conn {r} e =
      let asked = send_control_message (ascii "HMAC") true conn in
      Keeps-Keeps conn asked.1 r.1 (send-Keeps (ascii "HMAC") true conn)
        (challenge-Keeps channel_id key asked {r = r} e)

  media-IsUnconnected :
      (reachable : Bool) {r : Result} (conn : Conn)
      → IsUnconnected conn
      → dial_media mac reachable conn ≡ returns r
      → IsUnconnected r.1
  media-IsUnconnected reachable {r} conn before e = ground arith

  start-IsUnconnected :
      (reachable : Bool) {r : Result} (conn : Conn)
      → IsUnconnected conn
      → start_media mac reachable conn ≡ returns r
      → IsUnconnected r.1
  start-IsUnconnected reachable {r} conn before =
      or_close-IsUnconnected (send_media_start conn) (dial_media mac reachable) {r = r}
        (IsUnconnected-Keeps conn (send_media_start conn).1 before (start-Keeps conn))
        (media-IsUnconnected reachable {r = r})

  describe-IsUnconnected :
      (reachable : Bool) {r : Result} (conn : Conn)
      → IsUnconnected conn
      → describe_media mac reachable conn ≡ returns r
      → IsUnconnected r.1
  unfolding send_metadata_batch
  describe-IsUnconnected reachable {r} conn before =
      or_close-IsUnconnected (send_metadata_batch conn) (start_media mac reachable) {r = r}
        (IsUnconnected-Keeps conn (send_metadata_batch conn).1 before
          (attributes-Keeps (metadata_batch conn.channel_id) conn))
        (start-IsUnconnected reachable {r = r})

  dial-IsUnconnected :
      (channel_id : ℕ) (key : List ℕ) (reachable : Bool) (answers : List Answer) {r : Result}
      → dial mac channel_id key reachable answers ≡ returns r
      → IsUnconnected r.1
  unfolding dial
  dial-IsUnconnected channel_id key reachable answers {r} e =
      elim (Outcome-cases (send_authentication mac channel_id key (new_conn channel_id answers))) [
        | inl crashed ↦ absurd (ground arith)
        | inr (authenticated, done) ↦
            or_close-IsUnconnected authenticated (describe_media mac reachable) {r = r}
              (authentication-Keeps channel_id key (new_conn channel_id answers) {r = authenticated}
                done)
              (describe-IsUnconnected reachable {r = r}) (ground arith)
      ]

  -- `Close` on a connection that `Dial` has returned, with an error or without. Where the control connection
  -- could not be dialled it waits on a nil channel. Otherwise it tells the heartbeat to quit and does no
  -- more: no farewell is sent and no socket is closed, since `controlConnected` is never set. A second `Close` waits
  -- while the heartbeat has not received the first one's quit.
  pub close_conn-dial_control :
      (channel_id : ℕ) (key : List ℕ) (reachable : Bool) (control : Option (List Answer))
      {r : Result}
      → dial_control mac channel_id key reachable control ≡ returns r
      → (close_conn r.1 ≡ only_quit control r.1)
        × (close_conn (record r.1 { quit_timer = some 1 }) ≡ blocked)
  unfolding dial_control close_conn
  close_conn-dial_control channel_id key reachable none {r} e = ground arith
  close_conn-dial_control channel_id key reachable (some answers) {r} e =
      let (off, idle) = dial-IsUnconnected channel_id key reachable answers {r = r} e in
      ground (arith, off, idle)
