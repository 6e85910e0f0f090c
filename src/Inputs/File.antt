-- ===== src/Inputs/File.antt =====
-- internal/inputs/fs/fs.go: a stream that is read from a file of H.264 frames.
-- The file system, pion's reader and its track are answers.
pub mod Exit
mod Runs
use waveguide.Base.{
  ℕ, Bool, true, false, not, ◌&&◌, Option, none, some, List, [], ◌∷◌, if◌then◌else◌,
}
use waveguide.Control.Types.{Stream, Answers, Control, finished, blocked, video}
use waveguide.Control.Manager.{start_stream}
use waveguide.Control.Stream.{add_track}
use waveguide.Ftl.Handler.{mime_h264, modify}

pub record Config : Type 0 where
  pub video_file : List ℕ
  pub audio_file : List ℕ

-- One round of the loop: what `NextNAL` returns, and, for a frame, whether the track takes it.
pub data Round : Type 0 where
  end_of_file unreadable : Round
  frame : List ℕ → Bool → Round

-- Which files exist, what the manager's parties answer, whether pion makes the track, and whether the file of
-- a name is opened and its header read.
pub record World : Type 0 where
  pub exists : List ℕ → Bool
  pub starting : Answers
  pub stopping : Answers
  pub makes_video : Bool
  pub opens : List ℕ → Bool

-- How the loop ends: a panic or `os.Exit(0)` end the process, `released` is the return on a context that is
-- cancelled, and `waiting` the end of the rounds that are looked at.
pub data Ending : Type 0 where
  crashed exited released waiting : Ending

-- `written` has the frames that the track took, in order.
pub record Played : Type 0 where
  pub written : List (List ℕ)
  pub ending : Ending

abbrev pub ended : Ending → Played
ended e = record { written = []; ending = e }

abbrev pub wrote : List ℕ → Played → Played
wrote nal p = record p { written = nal ∷ p.written }

-- The loop, each round with whether the stream's context is cancelled by then.
unfoldable pub play : List (Bool × Round) → Played
play [] = ended waiting
play ((true, r) ∷ rounds) = ended released
play ((false, end_of_file) ∷ rounds) = ended exited
play ((false, unreadable) ∷ rounds) = ended crashed
play ((false, frame nal false) ∷ rounds) = ended crashed
play ((false, frame nal true) ∷ rounds) = wrote nal (play rounds)

-- What `Listen` comes to: it waits for ever, it panics, or it leaves the loop in a goroutine.
pub data Listening : Type 0 where
  waits : Listening
  panicked : Control → Listening
  playing : Control → Played → Listening

-- The channel of every file.
abbrev pub channel : ℕ
channel = 1234

unfoldable pub listen : World → Config → List (Bool × Round) → Control → Listening
listen w config rounds c =
    if not (w.exists config.audio_file) && not (w.exists config.video_file)
    then panicked c
    else if not w.makes_video
    then panicked c
    else elim (start_stream (w.starting) (w.stopping) channel c) [
      | blocked ↦ waits
      | finished started ↦ elim (started.error) [
        | some e ↦ panicked (started.control)
        | none ↦
            playing
              (modify (started.ctx) (λ s. (add_track video 0 mime_h264 s).1) (started.control))
              (if w.opens config.video_file then play rounds else ended crashed)
      ]
    ]
