-- ===== src/Control/Runs.antt =====
-- A manager in one run, and what the theorems say of it.
use waveguide.Base.{
  ℕ, ◌≤◌, ◌≡◌, refl, ◌⊎◌, true, false, Option, none, some, List, [], ◌∷◌, ◌==◌, ◌||◌, if◌then◌else◌,
}
use waveguide.Control.Types.{Answers, Control, Error, finished, zero_stream}
use waveguide.Control.Manager.{
  new_control, new_stream, stop_error, stop_stream, start_stream, shutdown, Started,
}
use waveguide.Control.Rules.{IsWell, IsStopped, new_stream-IsWell, stop_stream_mapped}
use waveguide.Control.Lifecycle.{IsStarted, IsRefused, start_stream_atomic, shutdown_stops}
use waveguide.Control.Heartbeat.{Tick, heartbeat, heartbeat_verdict}
use waveguide.Control.Report.{Images, set_stream, send_thumbnail, send_thumbnail_newest}

abbrev agreeing : Answers
agreeing = record { now = 100; starts = some 42; announces = true; ends = true; withdraws = true }

new_control-IsWell : IsWell new_control
unfolding new_control
new_control-IsWell id a e = cc

-- A manager with one stream, of channel 7.
abbrev one_stream : Control
one_stream = (new_stream 7 100 new_control).1

one_stream-IsWell : IsWell one_stream
one_stream-IsWell = new_stream-IsWell 7 100 new_control new_control-IsWell

one_stream_mapped : one_stream.streams 7 ≡ some 0
unfolding new_stream new_control
one_stream_mapped = refl

start_stream_atomic_example :
    (s : Started) × (start_stream agreeing agreeing 7 new_control ≡ finished s)
    × IsWell s.control
    × (IsStarted new_control 7 agreeing s ⊎ IsRefused new_control s)
start_stream_atomic_example = start_stream_atomic agreeing agreeing 7 new_control new_control-IsWell

stop_stream_mapped_example :
    (r : Option Error × Control) × (stop_stream agreeing 7 one_stream ≡ finished r)
    × (r.0 ≡ stop_error agreeing none)
    × IsStopped one_stream 7 0 r.1
    × IsWell r.1
stop_stream_mapped_example =
    stop_stream_mapped agreeing 7 0 one_stream one_stream-IsWell one_stream_mapped

shutdown_stops_example :
    (c' : Control) × (shutdown ((7, agreeing) ∷ []) one_stream ≡ finished c')
    × IsWell c'
    × ((j : ℕ) → c'.streams j ≡ (if j == 7 || false then none else one_stream.streams j))
shutdown_stops_example = shutdown_stops ((7, agreeing) ∷ []) one_stream one_stream-IsWell

abbrev bad : Tick
bad = record { thumbnail_failed = false; metadata_failed = true; orchestrator_failed = false }

abbrev good : Tick
good = record { thumbnail_failed = false; metadata_failed = false; orchestrator_failed = false }

heartbeat_verdict_example :
    ((heartbeat 0 (bad ∷ bad ∷ good ∷ bad ∷ bad ∷ bad ∷ bad ∷ [])).1 ≡ true → 5 ≤ 6)
    × (6 ≤ 6 → (heartbeat 0 (bad ∷ bad ∷ good ∷ bad ∷ bad ∷ bad ∷ bad ∷ [])).1 ≡ true)
heartbeat_verdict_example = heartbeat_verdict (bad ∷ bad ∷ good ∷ bad ∷ bad ∷ bad ∷ bad ∷ [])

-- A decoder that takes any bytes for an image of one pixel.
abbrev one_pixel : Images
one_pixel = record {
  Image = List ℕ;
  ready = true;
  decode = λ bytes. some (some bytes);
  encode_jpeg = λ img. some img;
  width = λ _. 1;
  height = λ _. 1;
}

send_thumbnail_newest_example :
    ((send_thumbnail one_pixel true 7 (
        set_stream 0
          (record zero_stream { last_thumbnail = (1 ∷ []) ∷ (2 ∷ []) ∷ [] })
          one_stream)).0
      ≡ (send_thumbnail one_pixel true 7
          (set_stream 0 (record zero_stream { last_thumbnail = (2 ∷ []) ∷ [] }) one_stream)).0)
    × (((send_thumbnail one_pixel true 7 (
            set_stream 0
              (record zero_stream { last_thumbnail = (1 ∷ []) ∷ (2 ∷ []) ∷ [] })
              one_stream)).1.heap
          0).last_thumbnail
        ≡ [])
send_thumbnail_newest_example =
    send_thumbnail_newest one_pixel true 7 0 ((1 ∷ []) ∷ []) (2 ∷ []) zero_stream one_stream
      one_stream_mapped
