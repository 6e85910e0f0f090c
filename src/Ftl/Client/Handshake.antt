-- ===== src/Ftl/Client/Handshake.antt =====
-- client.go against server.go: what the client makes of the server's answers.
use waveguide.Base.{
  ℕ, zero, suc, ◌+◌, ◌≡◌, refl, ap, ◌∙◌, true, not, none, some, List, [], ◌∷◌, ◌++◌, arith, returns,
}
use waveguide.Base.{◌≢◌, ◌≤◌, ◌%◌, ◌/◌, All}
use waveguide.Base.Words.{IsU8}
use waveguide.Base.Text.{
  ascii, eq_bytes, strip_prefix, span, encode_hex, decode_hex, decimal, decimal_loop,
}
use waveguide.Ftl.Client.{
  Answer, Conn, trim_right, send_control_message, check_ftl_response, send_media_start,
  match_media_port, second_word, send_authentication, connect_message, end_start, end_connect,
  take_challenge,
}

trim_right-snoc :
    (c : ℕ) (s : List ℕ) → All (λ b. b ≢ b'\n') (c ∷ s) → trim_right ((c ∷ s) ++ b'\n' ∷ []) ≡ c ∷ s
unfolding trim_right
trim_right-snoc c [] (ne, plain) = ground arith
trim_right-snoc c (d ∷ s) (ne, plain) = rw (trim_right-snoc d s plain, trim_right) refl

pub decode_hex-encode_hex : (bs : List ℕ) → All IsU8 bs → decode_hex (encode_hex bs) ≡ some bs
unfolding decode_hex encode_hex
decode_hex-encode_hex [] small = refl
decode_hex-encode_hex (b ∷ bs) (h, small) = ground (arith, decode_hex-encode_hex bs small)

encode_hex-IsHex : (bs : List ℕ) → All IsU8 bs → All (λ c. (b'0' ≤ c) × (c ≤ b'f')) (encode_hex bs)
unfolding encode_hex
encode_hex-IsHex [] small = tt
encode_hex-IsHex (b ∷ bs) (h, small) = ground (arith, encode_hex-IsHex bs small)

-- A text of the decimal digits only.
abbrev IsDigits : List ℕ → Type 0
IsDigits s = All (λ c. (b'0' ≤ c) × (c ≤ b'9')) s

decimal_loop-IsDigits :
    (fuel n : ℕ) (rest : List ℕ) → IsDigits rest → IsDigits (decimal_loop fuel n rest)
decimal_loop-IsDigits zero n rest d = d
decimal_loop-IsDigits (suc fuel) n rest d = ground (
  arith,
  decimal_loop-IsDigits fuel (n / 10) ((b'0' + n % 10) ∷ rest) ((omega arith, omega arith), d),
)

no_prefix : (s : List ℕ) → IsDigits s → strip_prefix (ascii "200 hi. Use UDP port ") s ≡ none
no_prefix [] d = refl
no_prefix (a ∷ []) d = ground arith
no_prefix (a ∷ b ∷ []) d = ground arith
no_prefix (a ∷ b ∷ c ∷ []) d = ground arith
no_prefix (a ∷ b ∷ c ∷ e ∷ s) (da, (db, (dc, ((lo, hi), ds)))) = ground arith

no_port : (s : List ℕ) → IsDigits s → match_media_port s ≡ none
unfolding match_media_port
no_port [] d = refl
no_port (c ∷ s) (dc, d) = ground (arith, no_prefix (c ∷ s) (dc, d), no_port s d)

-- What the server answers to a `.` is not what the client looks for.
no_server_port :
    (s : List ℕ) → IsDigits s → match_media_port (ascii "200. Use UDP port " ++ s) ≡ none
unfolding match_media_port
no_server_port s d = no_port s d

decimal-IsDigits : (n : ℕ) → IsDigits (decimal n)
unfolding decimal
decimal-IsDigits n = decimal_loop-IsDigits 20 n [] tt

decimal_plain : (s : List ℕ) → IsDigits s → All (λ b. b ≢ b'\n') s
decimal_plain [] d = tt
decimal_plain (c ∷ s) ((lo, hi), d) = ((λ h. ground arith), decimal_plain s d)

-- The line that the server's `.` command answers with.
abbrev pub dot_answer : ℕ → List ℕ
dot_answer port = ascii "200. Use UDP port " ++ decimal port

-- An exchange in which the server answers with a line.
abbrev pub says : List ℕ → Answer
says line = record { writes = true; line = some (line ++ ascii "\n") }

answered :
    (message line : List ℕ) (conn : Conn) (later : List Answer)
    → send_control_message message true (record conn { answers = says line ∷ later }) ≡ (
      (none, trim_right (line ++ ascii "\n")),
      record conn { sent = conn.sent ++ ((message ++ ascii "\r\n\r\n") ∷ []); answers = later },
    )
unfolding send_control_message
answered message line conn later = refl

-- The client does not find the port in the answer that the server of the same package gives to a `.`:
-- it reports no error and keeps the port it had.
pub send_media_start_deaf :
    (port : ℕ) (conn : Conn) (later : List Answer)
    → send_media_start (record conn { answers = says (dot_answer port) ∷ later })
      ≡ (none, record conn { sent = conn.sent ++ (ascii ".\r\n\r\n" ∷ []); answers = later })
unfolding send_media_start
send_media_start_deaf port conn later =
    ap end_start (answered (ascii ".") (dot_answer port) conn later)
    ∙ rw
        (
          trim_right-snoc b'2' (ascii "00. Use UDP port " ++ decimal port) (plain_answer port),
          no_server_port (decimal port) (decimal-IsDigits port),
        )
        refl
  where
    plain_answer : (port : ℕ) → All (λ b. b ≢ b'\n') (dot_answer port)
    plain_answer port = ground (arith, decimal_plain (decimal port) (decimal-IsDigits port))

span_plain :
    (s : List ℕ)
    → All (λ b. b ≢ b' ') s
    → span (λ c. not (eq_bytes (c ∷ []) (ascii " "))) s ≡ (s, [])
span_plain [] plain = refl
span_plain (c ∷ s) (ne, plain) = rw (span_plain s plain) (ground arith)

second_word-append : (s : List ℕ) → All (λ b. b ≢ b' ') s → second_word (ascii "200 " ++ s) ≡ some s
unfolding second_word
second_word-append s plain = rw (span_plain s plain, second_word) refl

connected :
    (mac : List ℕ → List ℕ → List ℕ) (message : List ℕ) (conn : Conn) (later : List Answer)
    → end_connect mac
        (send_control_message message true (record conn { answers = says (ascii "200") ∷ later }))
      ≡ returns (
        none,
        record conn { sent = conn.sent ++ ((message ++ ascii "\r\n\r\n") ∷ []); answers = later },
      )
unfolding send_control_message trim_right check_ftl_response
connected mac message conn later = refl

hex_plain :
    (s : List ℕ)
    → All (λ c. (b'0' ≤ c) × (c ≤ b'f')) s
    → All (λ b. b ≢ b'\n') s × All (λ b. b ≢ b' ') s
hex_plain [] h = (tt, tt)
hex_plain (c ∷ s) ((lo, hi), h) =
    let (p, q) = hex_plain s h in (((λ e. ground arith), p), ((λ e. ground arith), q))

challenge_plain : (s : List ℕ) → All (λ b. b ≢ b'\n') s → All (λ b. b ≢ b'\n') (ascii "200 " ++ s)
challenge_plain s plain = ground (arith, plain)

-- The client reads the random bytes back from the server's answer to `HMAC`, and sends the MAC of them
-- with its channel.
pub send_authentication-encode_hex :
    (mac : List ℕ → List ℕ → List ℕ) (channel_id : ℕ) (key random : List ℕ) (conn : Conn)
    (later : List Answer)
    → All IsU8 random
    → send_authentication mac channel_id key (record conn {
      answers = says (ascii "200 " ++ encode_hex random) ∷ says (ascii "200") ∷ later;
    })
      ≡ returns (
        none,
        record conn {
          sent =
              (conn.sent ++ (ascii "HMAC\r\n\r\n" ∷ []))
              ++ ((connect_message channel_id (mac key random) ++ ascii "\r\n\r\n") ∷ []);
          answers = later;
        },
      )
unfolding send_authentication
send_authentication-encode_hex mac channel_id key random conn later small =
    let (no_feed, no_space) = hex_plain (encode_hex random) (encode_hex-IsHex random small) in
    ap (take_challenge mac channel_id key) (
      answered (ascii "HMAC") (ascii "200 " ++ encode_hex random) conn (says (ascii "200") ∷ later))
    ∙ rw
        (
          trim_right-snoc b'2' (ascii "00 " ++ encode_hex random)
              (challenge_plain (encode_hex random) no_feed),
          second_word-append (encode_hex random) no_space,
          decode_hex-encode_hex random small,
        )
        (connected mac (connect_message channel_id (mac key random))
          (record conn { sent = conn.sent ++ (ascii "HMAC\r\n\r\n" ∷ []) }) later)
