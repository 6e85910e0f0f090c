-- ===== src/Inputs/Janus/Runs.antt =====
-- A session of one run, and what the theorem says of it.
use waveguide.Base.{◌≡◌, refl, true, some, [], ◌∷◌, ◌++◌}
use waveguide.Base.Text.{ascii}
use waveguide.Control.Types.{Answers, service_start, orchestrator_start}
use waveguide.Control.Manager.{new_control}
use waveguide.Inputs.Janus.{Config, World, Source, crashed, undecodable, said, poll}
use waveguide.Inputs.Janus.Crash.{poll_two_offers}

abbrev agreeing : Answers
agreeing = record { now = 100; starts = some 42; announces = true; ends = true; withdraws = true }

abbrev willing : World
willing = record {
  starting = agreeing;
  stopping = agreeing;
  makes_video = true;
  makes_audio = true;
  makes_peer = true;
  takes_audio = true;
  takes_video = true;
  takes_offer = true;
  makes_answer = true;
  takes_answer = true;
  local_sdp = ascii "v=0";
  transaction = ascii "abcdefghij";
  answered = true;
}

abbrev some_config : Config
some_config = record { address = ascii "http://janus:8088"; channel_id = 7 }

abbrev some_source : Source
some_source = record { control = new_control; posts = [] }

poll_two_offers_example :
    (s' : Source) × (poll some_config
        (ascii "http://janus:8088/1/2")
        (((willing, undecodable) ∷ [])
          ++ (willing, said (b'v' ∷ []))
            ∷ (((willing, said []) ∷ []) ++ (willing, said (b'v' ∷ [])) ∷ []))
        some_source
      ≡ crashed s')
    × (s'.control.streams 7 ≡ some 0)
    × (s'.control.requests ≡ orchestrator_start 7 42 ∷ service_start 7 ∷ [])
unfolding new_control
poll_two_offers_example =
    poll_two_offers some_config (ascii "http://janus:8088/1/2") ((willing, undecodable) ∷ [])
      ((willing, said []) ∷ []) [] willing willing b'v' b'v' 42 [] [] some_source (refl, tt)
      (refl, tt) refl refl refl refl
