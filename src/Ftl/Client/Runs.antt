-- ===== src/Ftl/Client/Runs.antt =====
-- A client of one run, and what the theorems say of it.
use waveguide.Base.{
  ℕ, zero, suc, Outcome, panic, ◌≡◌, refl, arith, true, false, none, some, List, [], ◌∷◌, ◌++◌,
  returns, panic,
}
use waveguide.Base.Text.{ascii, encode_hex, decode_hex}
use waveguide.Control.Types.{blocked}
use waveguide.Ftl.Client.Closing.{only_quit, close_conn-dial_control}
use waveguide.Ftl.Client.{
  Answer, Result, dial, dial_control, close_conn, send_metadata_batch, send_attributes,
  send_control_message, second_word, trim_right, check_ftl_response, match_media_port, Conn,
  send_media_start, send_authentication, connect_message,
}
use waveguide.Ftl.Client.Handshake.{says, send_authentication-encode_hex}

abbrev joined : List ℕ → List ℕ → List ℕ
joined key message = key ++ message

abbrev some_conn : Conn
some_conn = record {
  assigned_media_port = 0;
  channel_id = 7;
  control_connected = false;
  media_open = false;
  failed_heartbeats = 2;
  quit_timer = some 0;
  sent = [];
  answers = [];
}

send_authentication-encode_hex_example :
    send_authentication joined 7 (1 ∷ []) (record some_conn {
      answers = says (ascii "200 " ++ encode_hex (7 ∷ 200 ∷ [])) ∷ says (ascii "200") ∷ [];
    })
    ≡ returns (
      none,
      record some_conn {
        sent =
            ascii "HMAC\r\n\r\n" ∷ (connect_message 7 (1 ∷ 7 ∷ 200 ∷ []) ++ ascii "\r\n\r\n") ∷ [];
        answers = [];
      },
    )
send_authentication-encode_hex_example =
    send_authentication-encode_hex joined 7 (1 ∷ []) (7 ∷ 200 ∷ []) some_conn []
      (omega arith, (omega arith, tt))

abbrev repeated : ℕ → Answer → List Answer → List Answer
repeated zero a later = later
repeated (suc n) a later = a ∷ repeated n a later

abbrev some_answers : List Answer
some_answers =
    says (ascii "200 07c8")
    ∷ says (ascii "200")
    ∷ repeated 13 (says []) (says (ascii "200. Use UDP port 5004") ∷ [])

abbrev result_of : Outcome Result → Result
result_of (returns r) = r
result_of panic = (none, some_conn)

-- What `Dial` makes of these answers.
abbrev dialled : Result
dialled = result_of (dial joined 7 (1 ∷ []) true some_answers)

dialled_lem : dial_control joined 7 (1 ∷ []) true (some some_answers) ≡ returns dialled
unfolding dial_control dial send_authentication send_metadata_batch send_attributes send_media_start
    send_control_message second_word trim_right decode_hex check_ftl_response match_media_port
dialled_lem = refl

close_conn-dial_control_example :
    (close_conn dialled.1 ≡ only_quit (some some_answers) dialled.1)
    × (close_conn (record dialled.1 { quit_timer = some 1 }) ≡ blocked)
close_conn-dial_control_example =
    close_conn-dial_control joined 7 (1 ∷ []) true (some some_answers) {r = dialled} dialled_lem
