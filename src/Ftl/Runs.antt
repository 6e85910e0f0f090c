-- ===== src/Ftl/Runs.antt =====
-- Connections of one run, and what the theorems say of them.
use waveguide.Base.{
  ℕ, panic, ◌≡◌, ◌⊎◌, inl, refl, arith, true, false, none, some, List, [], ◌∷◌, ◌++◌, returns,
  panic,
}
use waveguide.Base.Text.{ascii, decode_hex, decimal}
use waveguide.Control.Types.{Answers, Control}
use waveguide.Control.Manager.{new_control, new_stream}
use waveguide.Control.Rules.{IsWell, new_stream-IsWell}
use waveguide.Ftl.Regex.{match_connect, match_attribute}
use waveguide.Scanner.{Read, scan}
use waveguide.Ftl.Lines.Chunks.{split_crlf, line_token, line_events, scan-wire}
use waveguide.Ftl.Connection.{Handler, System, Session, Reply, new_connection}
use waveguide.Ftl.Server.{
  send_message, close, process_connect, check_hash, start_channel, process_command, process_dot,
  listen_for_media, play, serve,
}
use waveguide.Ftl.Server.Auth.{IsProof, process_command_auth}
use waveguide.Ftl.Server.Serving.{IsUp, IsDown, serve_ends}
use waveguide.Ftl.Handler.{World, ConnHandler, new_handler, handler}
use waveguide.Ftl.Handler.Attack.{connect_kills_stream, disconnect_panics}
use waveguide.Ftl.Connection.{Connection}
use waveguide.Ftl.Lines.Chunks.{wire}
use waveguide.Ftl.Client.{dial}
use waveguide.Ftl.Meeting.{messages, with_gaps, under}
use waveguide.Ftl.Meeting.Calling.{dialled}
use waveguide.Ftl.Meeting.Dial.{flatten, heard, welcomed, dial-serve}

-- A handler that accepts everything and whose key is one byte.
abbrev open_handler : Handler
open_handler = record {
  State = Unit;
  on_connect = λ _ s. (true, s);
  get_hmac_key = λ _. some (1 ∷ []);
  on_play = λ _ s. (true, s);
  on_close = λ s. returns s;
}

abbrev joined : List ℕ → List ℕ → List ℕ
joined key message = key ++ message

abbrev willing : System
willing = record {
  random = 7 ∷ 200 ∷ [];
  writes = true;
  closes = true;
  udp_port = some 5004;
  nack_ready = true;
}

abbrev fresh : Session Unit
fresh = record { conn = new_connection; state = tt }

abbrev connect_command : List ℕ
connect_command = ascii "CONNECT 7 $01"

-- The answer to that command.
abbrev let_in : Reply Unit
let_in = record {
  error = none;
  session = record {
    conn = record new_connection {
      hmac_requested = true;
      channel_id = 7;
      hmac_payload = 1 ∷ [];
      has_authenticated = true;
      client_hmac_hash = 1 ∷ [];
      sent = ascii "200\n" ∷ [];
    };
    state = tt;
  };
}

let_in_lem : process_command open_handler joined willing connect_command fresh ≡ returns let_in
unfolding process_command process_connect start_channel check_hash send_message match_connect
    decode_hex
let_in_lem = refl

process_command_auth_example : IsProof open_handler joined connect_command [] tt
process_command_auth_example =
    process_command_auth open_handler joined willing connect_command fresh {r = let_in} let_in_lem
      refl refl refl

-- A client that starts its media twice and leaves.
abbrev twice : List (System × List ℕ)
twice =
    (willing, connect_command)
    ∷ (willing, ascii ".")
    ∷ (willing, ascii ".")
    ∷ (willing, ascii "DISCONNECT")
    ∷ []

-- The connection after it: the first UDP socket is open.
abbrev shut : Session Unit
shut = record {
  conn = record (let_in.session.conn) {
    connected = false;
    media_sockets = false ∷ true ∷ [];
    assigned_media_port = 5004;
    sent = ascii "200\n" ∷ ascii "200. Use UDP port 5004\n" ∷ ascii "200. Use UDP port 5004\n" ∷ [];
  };
  state = tt;
}

served : serve open_handler joined twice true willing fresh ≡ returns shut
unfolding serve process_command process_connect start_channel check_hash process_dot
    listen_for_media play send_message close match_connect match_attribute decode_hex decimal
served = refl

serve_ends_example :
    IsDown open_handler joined shut ⊎ ((true ≡ true) × IsUp open_handler joined shut)
serve_ends_example =
    serve_ends open_handler joined twice true willing fresh {s' = shut} (inl (refl, tt, refl))
      served

abbrev agreeing : Answers
agreeing = record { now = 100; starts = some 42; announces = true; ends = true; withdraws = true }

abbrev some_world : World
some_world = record {
  starting = agreeing;
  stopping = agreeing;
  closing = agreeing;
  video_track_made = true;
  audio_track_made = true;
  hmac_keys = λ _. some (1 ∷ []);
}

new_control-IsWell : IsWell new_control
unfolding new_control
new_control-IsWell id a e = cc

-- A manager with one stream, of channel 7.
abbrev one_stream : Control
one_stream = (new_stream 7 100 new_control).1

one_stream_mapped : one_stream.streams 7 ≡ some 0
unfolding new_stream new_control
one_stream_mapped = refl

abbrev guess : List ℕ
guess = ascii "CONNECT 7 $00"

guess_matches : match_connect guess ≡ some (ascii "7", ascii "00")
unfolding match_connect
guess_matches = refl

connect_kills_stream_example :
    (s : Session ConnHandler) × (serve handler joined
        ((willing, guess) ∷ [])
        true
        willing
        (record { conn = new_connection; state = new_handler some_world one_stream })
      ≡ returns s)
    × (s.conn.connected ≡ false)
    × (s.state.control.streams 7 ≡ none)
    × ((s.state.control.heap 0).cancelled ≡ true)
connect_kills_stream_example =
    connect_kills_stream joined willing willing guess (ascii "7") (ascii "00") 7 0 true []
      some_world one_stream (λ e. cc) refl refl refl guess_matches refl
      (new_stream-IsWell 7 100 new_control new_control-IsWell) one_stream_mapped

disconnect_panics_example :
    serve handler joined
      ((willing, ascii "DISCONNECT") ∷ [])
      true
      willing
      (record { conn = new_connection; state = new_handler some_world new_control })
    ≡ panic
disconnect_panics_example =
    disconnect_panics joined willing willing (ascii "DISCONNECT") true [] some_world new_control
      refl refl

-- `PING` in three reads, none of which ends where a line does, and the empty line behind it.
abbrev pieces : List Read
pieces =
    record { bytes = ascii "PI"; behind = [] }
    ∷ record { bytes = ascii "NG\r"; behind = [] }
    ∷ record { bytes = ascii "\n\r\n"; behind = [] }
    ∷ []

scan-wire_example : scan split_crlf pieces (line_token []) ≡ line_events (ascii "PING" ∷ [] ∷ [])
scan-wire_example =
    scan-wire (ascii "PING" ∷ [] ∷ []) pieces (line_token [])
      (
        (
          (
            (λ e. omega arith),
            ((λ e. omega arith), ((λ e. omega arith), ((λ e. omega arith), tt))),
          ),
          omega arith,
        ),
        ((tt, omega arith), tt),
      )
      refl

-- The hash for the key and the challenge of the two above.
abbrev shared_hash : List ℕ
shared_hash = 1 ∷ 7 ∷ 200 ∷ []

abbrev at_server : Connection
at_server = welcomed 7 (7 ∷ 200 ∷ []) 5004 shared_hash

dial-serve_example :
    (serve open_handler joined
        (under willing (with_gaps (messages 7 shared_hash)))
        true
        willing
        fresh
      ≡ returns (record { conn = at_server; state = tt }))
    × (dial joined 7 (1 ∷ []) true (heard 7 at_server.sent) ≡ returns (none, dialled 7 shared_hash))
    × (flatten (dialled 7 shared_hash).sent ≡ wire (with_gaps (messages 7 shared_hash)))
dial-serve_example =
    dial-serve open_handler joined willing 7 (1 ∷ []) 5004 tt tt tt (omega arith)
      (omega arith, (omega arith, tt)) (omega arith, (omega arith, (omega arith, tt)))
      (λ e. absurd (ground arith)) refl refl refl refl refl refl
