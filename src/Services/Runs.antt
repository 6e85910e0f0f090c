-- ===== src/Services/Runs.antt =====
-- Streams of one run with the services, and what the theorems say of them.
use waveguide.Base.{ℕ, ◌≡◌, refl, true, Option, none, some, [], ◌∷◌, arith}
use waveguide.Base.Text.{ascii, decimal}
use waveguide.Control.Types.{Control, Error, finished}
use waveguide.Control.Manager.{Started, new_control}
use waveguide.Control.Rules.{IsWell}
use waveguide.Control.Remote.{Parties, after, start_with, stop_with}
use waveguide.Services.Dummy.{dummy_orchestrator}
use waveguide.Services.Glimesh.{Config, Api, end_stream, glimesh}
use waveguide.Services.Glimesh.Rounds.{start_call, end_call, refused, glimesh_round}

abbrev some_config : Config
some_config = record {
  endpoint = ascii "https://glimesh.tv";
  client_id = ascii "id";
  client_secret = ascii "secret";
}

-- An API that answers 42 to everything.
abbrev some_api : Api
some_api = record {
  answers = λ call calls. some (decimal 42);
  status = λ upload calls. some 200;
  form_made = true;
  form_closes = true;
  request_made = true;
}

abbrev some_parties : Parties (glimesh some_config some_api) dummy_orchestrator
some_parties = record { service = []; orchestrator = record { connected = true } }

new_control-IsWell : IsWell new_control
unfolding new_control
new_control-IsWell id a e = cc

glimesh_round_example :
    (s : Started) × (start_with
        (glimesh some_config some_api)
        dummy_orchestrator
        100
        7
        some_parties
        new_control
      ≡ finished s)
    × (s.error ≡ none)
    × (r : Option Error × Control) × (stop_with
          (glimesh some_config some_api)
          dummy_orchestrator
          7
          some_parties
          s.control
        ≡ finished r)
    × (r.0 ≡ refused some_config some_api (end_stream some_config some_api 42 (start_call 7 ∷ [])))
    × ((j : ℕ) → r.1.streams j ≡ new_control.streams j)
    × ((after (glimesh some_config some_api) dummy_orchestrator r.1.requests some_parties).service
        ≡ end_call 42 ∷ start_call 7 ∷ [])
unfolding new_control
glimesh_round_example =
    glimesh_round some_config some_api 100 7 42 some_parties new_control new_control-IsWell refl
      (omega arith) refl
