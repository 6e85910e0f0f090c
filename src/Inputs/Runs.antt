-- ===== src/Inputs/Runs.antt =====
-- A WHIP source and an RTMP connection in one run each, and what the theorems say of them.
use waveguide.Base.{ℕ, ◌≡◌, ◌≢◌, refl, true, false, none, some, List, [], ◌∷◌}
use waveguide.Base.Text.{ascii}
use waveguide.Base.Split.{parse_uint32, atoi_uint32, split}
use waveguide.Control.Types.{Answers, Control, Progress, finished, blocked}
use waveguide.Control.Manager.{new_control, new_stream, start_stream, authenticate, conclude}
use waveguide.Control.Rules.{IsWell, IsStopped, new_stream-IsWell}
use waveguide.Inputs.Whip.{
  Source, Request, World, Response, deleted, endpoint, credentials, answered, bare_key, publish,
  begin_stream, connect_peer, add_peer, on_timeout,
}
use waveguide.Inputs.Whip.Access.{endpoint_deletes, endpoint_starts}
use waveguide.Control.Race
use waveguide.Inputs.Whip.Lifetime.{IsSound, Reach, here, later, request, timeout, Reach-answers}

abbrev agreeing : Answers
agreeing = record { now = 100; starts = some 42; announces = true; ends = true; withdraws = true }

new_control-IsWell : IsWell new_control
unfolding new_control
new_control-IsWell id a e = cc

no_stream : new_control.streams 7 ≡ none
unfolding new_control
no_stream = refl

-- A manager with one stream, of channel 7.
abbrev one_stream : Control
one_stream = (new_stream 7 100 new_control).1

one_stream-IsWell : IsWell one_stream
one_stream-IsWell = new_stream-IsWell 7 100 new_control new_control-IsWell

one_stream_mapped : one_stream.streams 7 ≡ some 0
unfolding new_stream new_control
one_stream_mapped = refl

abbrev source : Control → Source
source c = record { control = c; peers = λ id. none; closed = λ p. false; next_peer = 0 }

-- The service's key of every channel is `secret`, and all of pion's calls succeed.
abbrev world : World
world = record {
  hmac_keys = λ id. some (ascii "secret");
  starting = agreeing;
  stopping = agreeing;
  makes_peer = true;
  makes_video = true;
  makes_audio = true;
  takes_transceivers = true;
  takes_offer = true;
  answer = some (ascii "sdp");
}

abbrev offer : List ℕ → Request
offer authorization = record {
  channel = ascii "endpoint";
  authorization = authorization;
  is_delete = false;
  body = some (ascii "v=0");
}

-- `DELETE`, with the channel and a wrong key.
abbrev intrusion : Request
intrusion = record {
  channel = ascii "endpoint";
  authorization = ascii "Bearer 7-x";
  is_delete = true;
  body = none;
}

some_text : (b : ℕ) (bytes : List ℕ) → b ∷ bytes ≢ []
some_text b bytes e = absurd (cc)

intrusion_names : atoi_uint32 (credentials intrusion).0 ≡ some 7
unfolding credentials atoi_uint32 parse_uint32 split bare_key
intrusion_names = refl

endpoint_deletes_example :
    (s' : Source) × (endpoint world intrusion (source one_stream) ≡ finished (deleted, s'))
    × IsStopped one_stream 7 0 s'.control
endpoint_deletes_example =
    endpoint_deletes world intrusion (source one_stream) 7 0 (some_text _ _) refl intrusion_names
      one_stream-IsWell one_stream_mapped

-- A new stream of channel 7, with the service's key.
abbrev arrival : Request
arrival = offer (ascii "Bearer 7-secret")

abbrev source_of : Source → Progress (Response × Source) → Source
source_of s blocked = s
source_of s (finished r) = r.1

abbrev served : Source
served = source_of (source new_control) (endpoint world arrival (source new_control))

arrival_lem :
    endpoint world arrival (source new_control) ≡ finished (answered (ascii "sdp"), served)
unfolding endpoint credentials atoi_uint32 parse_uint32 split bare_key publish authenticate
    begin_stream start_stream connect_peer new_control new_stream conclude add_peer
arrival_lem = refl

served_has : served.control.streams 7 ≡ some 0
unfolding endpoint credentials atoi_uint32 parse_uint32 split bare_key publish authenticate
    begin_stream start_stream connect_peer new_control new_stream conclude add_peer
served_has = refl

endpoint_starts_example :
    (arrival.is_delete ≡ false)
    × (atoi_uint32 (credentials arrival).0 ≡ some 7)
    × (world.hmac_keys 7 ≡ some (credentials arrival).1)
endpoint_starts_example =
    endpoint_starts world arrival (source new_control) served (answered (ascii "sdp")) 7 0
      new_control-IsWell arrival_lem no_stream served_has

new_source-IsSound : IsSound (source new_control)
new_source-IsSound = record {
  well = new_control-IsWell;
  mapped_open = λ id p e. refl;
  made = λ id p e. absurd (cc);
  unmade_open = λ p fresh. refl;
  one_channel = λ id j p e f. absurd (cc);
}

-- The request above, and then a timeout that finds the connection unfinished.
served_and_gone : Reach (source new_control) (on_timeout 7 false served)
served_and_gone =
    later (later here (request world arrival (answered (ascii "sdp")) arrival_lem))
      (timeout 7 false)

Reach-answers_example :
    IsSound (on_timeout 7 false served)
    × ((q : Response × Source) × (endpoint world intrusion (on_timeout 7 false served) ≡ finished q)
        × IsSound q.1)
Reach-answers_example = Reach-answers world intrusion new_source-IsSound served_and_gone
