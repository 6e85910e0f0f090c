-- ===== src/Ftl/Handler/Runs.antt =====
-- Connections of one run on one manager, and what the theorem says of them.
use waveguide.Base.{ℕ, ◌≡◌, refl, true, Option, none, some, List, [], ◌∷◌, ◌++◌, returns}
use waveguide.Base.Text.{ascii, decode_hex}
use waveguide.Control.Types.{Answers, Control}
use waveguide.Control.Manager.{new_control, new_stream, start_stream, conclude}
use waveguide.Control.Rules.{IsWell}
use waveguide.Control.Begun.{begun}
use waveguide.Ftl.Regex.{match_connect}
use waveguide.Ftl.Connection.{System}
use waveguide.Ftl.Server.{
  serve, process_command, process_connect, start_channel, check_hash, send_message,
}
use waveguide.Ftl.Handler.{World, modify, describe_stream, on_connect, get_hmac_key}
use waveguide.Ftl.Handler.Keeping.{Socket, accept, accept-IsWell}

abbrev agreeing : Answers
agreeing = record { now = 100; starts = some 42; announces = true; ends = true; withdraws = true }

abbrev some_world : World
some_world = record {
  starting = agreeing;
  stopping = agreeing;
  closing = agreeing;
  video_track_made = true;
  audio_track_made = true;
  hmac_keys = λ _. some (1 ∷ []);
}

abbrev willing : System
willing = record {
  random = [];
  writes = true;
  closes = true;
  udp_port = some 5004;
  nack_ready = true;
}

abbrev joined : List ℕ → List ℕ → List ℕ
joined key message = key ++ message

-- An error of the listener, and a client that starts the stream of channel 7 and hangs up.
abbrev sockets : List (Option Socket)
sockets =
    none
    ∷ some (record {
      world = some_world;
      lines = (willing, ascii "CONNECT 7 $01") ∷ (willing, []) ∷ [];
      clean = true;
      last = willing;
    })
    ∷ []

-- The manager with that stream.
abbrev started : Control
started = modify 0 describe_stream (begun 7 100 42 new_control)

accept_started : accept joined sockets new_control ≡ returns started
unfolding accept serve process_command process_connect start_channel check_hash send_message
    match_connect decode_hex on_connect get_hmac_key start_stream conclude new_stream new_control
accept_started = refl

new_control-IsWell : IsWell new_control
unfolding new_control
new_control-IsWell id a e = cc

accept-IsWell_example : IsWell started
accept-IsWell_example =
    accept-IsWell joined sockets new_control {c' = started} accept_started new_control-IsWell
