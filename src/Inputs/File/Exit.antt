-- ===== src/Inputs/File/Exit.antt =====
-- fs.go: what the end of the file leaves.
use waveguide.Base.{
  ℕ, ◌≡◌, refl, ap, Bool, true, false, ◌||◌, none, some, List, [], ◌∷◌, ◌++◌, arith, if◌then◌else◌,
}
use waveguide.Control.Types.{Control, service_start, orchestrator_start}
use waveguide.Control.Begun.{begun, begun_told, begun_streams, start_stream-begun}
use waveguide.Control.Stream.{add_track}
use waveguide.Control.Types.{video}
use waveguide.Ftl.Handler.{modify, mime_h264}
use waveguide.Inputs.File.{
  Config, Round, end_of_file, frame, World, exited, crashed, ended, wrote, play, playing, channel,
  listen,
}

-- A round for each frame, taken by the track before the context is cancelled.
abbrev pub frames : List (List ℕ) → List (Bool × Round)
frames [] = []
frames (nal ∷ nals) = (false, frame nal true) ∷ frames nals

play-frames :
    (nals : List (List ℕ)) (rounds : List (Bool × Round))
    → play (frames nals ++ (false, end_of_file) ∷ rounds)
      ≡ record { written = nals; ending = exited }
unfolding play
play-frames [] rounds = refl
play-frames (nal ∷ nals) rounds = ap (wrote nal) (play-frames nals rounds)

-- Where one of the two files exists.
listen-begun :
    (w : World) (config : Config) (rounds : List (Bool × Round)) (sid : ℕ) (c : Control)
    → (w.exists config.audio_file || w.exists config.video_file) ≡ true
    → w.makes_video ≡ true
    → c.streams channel ≡ none
    → w.starting.starts ≡ some sid
    → w.starting.announces ≡ true
    → listen w config rounds c
      ≡ playing
          (modify c.next
            (λ s. (add_track video 0 mime_h264 s).1)
            (begun channel (w.starting.now) sid c))
          (if w.opens config.video_file then play rounds else ended crashed)
unfolding listen
listen-begun w config rounds sid c there track free named told =
    ground (arith, start_stream-begun (w.starting) (w.stopping) channel sid c free named told)

-- The end of the file ends the process: the frames are written in the order of the file, and the stream is
-- still in the map; the service and the orchestrator have been asked to start it and never to stop it. Where
-- there is only the audio file, the process ends with a panic and the same requests. One of the files
-- exists and the video file, if it exists, can be opened, and is missing otherwise; pion makes the track, the
-- channel has no stream, both parties agree to its start, and every frame is taken before its context is cancelled.
pub listen_exits :
    (w : World) (config : Config) (nals : List (List ℕ)) (rest : List (Bool × Round)) (sid : ℕ)
    (c : Control)
    → (w.exists config.audio_file || w.exists config.video_file) ≡ true
    → w.opens config.video_file ≡ w.exists config.video_file
    → w.makes_video ≡ true
    → c.streams channel ≡ none
    → w.starting.starts ≡ some sid
    → w.starting.announces ≡ true
    → (c' : Control) × (listen w config (frames nals ++ (false, end_of_file) ∷ rest) c
        ≡ playing c' (
            if w.exists config.video_file
            then record { written = nals; ending = exited }
            else ended crashed))
      × (c'.streams channel ≡ some c.next)
      × (c'.requests ≡ orchestrator_start channel sid ∷ service_start channel ∷ c.requests)
listen_exits w config nals rest sid c there opens track free named told =
    let now = w.starting.now in
    let (asked, _, _) = begun_told channel now sid c free in
    let here = begun_streams channel now sid channel c free in
    let rounds = frames nals ++ (false, end_of_file) ∷ rest in
    let played = play-frames nals rest in
    (
      modify c.next (λ s. (add_track video 0 mime_h264 s).1) (begun channel now sid c),
      ground (arith, listen-begun w config rounds sid c there track free named told, played, opens),
      here,
      asked,
    )
