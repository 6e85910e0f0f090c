-- ===== src/Inputs/File/Runs.antt =====
-- A file of one run, and what the theorem says of it.
use waveguide.Base.{ℕ, ◌≡◌, refl, true, false, some, List, [], ◌∷◌, ◌++◌}
use waveguide.Base.Text.{ascii, eq_bytes}
use waveguide.Control.Types.{Answers, Control, service_start, orchestrator_start}
use waveguide.Control.Manager.{new_control}
use waveguide.Inputs.File.{Config, World, end_of_file, exited, playing, listen}
use waveguide.Inputs.File.Exit.{frames, listen_exits}

abbrev agreeing : Answers
agreeing = record { now = 100; starts = some 42; announces = true; ends = true; withdraws = true }

-- There is one file, of video.
abbrev one_file : World
one_file = record {
  exists = λ name. eq_bytes name (ascii "a.h264");
  starting = agreeing;
  stopping = agreeing;
  makes_video = true;
  opens = λ name. eq_bytes name (ascii "a.h264");
}

abbrev some_config : Config
some_config = record { video_file = ascii "a.h264"; audio_file = [] }

abbrev two_frames : List (List ℕ)
two_frames = (0x67 ∷ 1 ∷ []) ∷ (0x65 ∷ 2 ∷ []) ∷ []

listen_exits_example :
    (c' : Control) × (listen one_file some_config
        (frames two_frames ++ (false, end_of_file) ∷ [])
        new_control
      ≡ playing c' (record { written = two_frames; ending = exited }))
    × (c'.streams 1234 ≡ some 0)
    × (c'.requests ≡ orchestrator_start 1234 42 ∷ service_start 1234 ∷ [])
unfolding new_control
listen_exits_example =
    listen_exits one_file some_config two_frames [] 42 new_control refl refl refl refl refl refl
