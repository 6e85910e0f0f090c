-- ===== src/Outputs/Runs.antt =====
-- A WHEP server in one run, and what the theorems say of it.
use waveguide.Base.{
  ℕ, zero, suc, ◌≡◌, refl, true, false, Option, none, some, List, [], ◌∷◌, arith, length,
}
use waveguide.Base.Text.{ascii, strip_prefix, decimal}
use waveguide.Base.Split.{atoi_uint32, parse_uint32, Lacks}
use waveguide.Base.Paths.{base}
use waveguide.Control.Http.{Config, http_server_url}
use waveguide.Control.Thumbnailer.{Response, Pion, thumbnailer}
use waveguide.Outputs.Whep.{endpoint_url, resource_url, resource}
use waveguide.Outputs.Whep.Thumbs.{Uuids, over_http, web, whep_endpoint, thumbnailer-endpoint}
use waveguide.Outputs.Whep
use waveguide.Control.Types.{Control, StreamTrack, video, audio}
use waveguide.Control.Stream.{add_track, report_metadata, apply_metadata}
use waveguide.Ftl.Handler.{modify, describe_stream, mime_h264, mime_opus}
use waveguide.Control.Manager.{new_control, new_stream, get_stream, get_tracks}
use waveguide.Outputs.Whep.{Server, World, new_server, endpoint, not_found, created, on_timeout}
use waveguide.Outputs.Whep.Leak.{IsSound, here, later, timeout, endpoint_leaks}

-- All of pion's calls succeed.
abbrev world : World
world = record { makes_peer = true; offer = some (ascii "sdp"); takes_offer = true }

new_server-IsSound : (c : Control) → IsSound (new_server c)
unfolding new_server
new_server-IsSound c = record { mapped_open = λ p e. refl; unmade = λ p fresh. (refl, refl) }

seven : atoi_uint32 (ascii "7") ≡ some 7
unfolding atoi_uint32 parse_uint32
seven = refl

no_stream : (new_server new_control).control.streams 7 ≡ none
unfolding new_server new_control
no_stream = refl

-- The server after a request for a channel without a stream, and after the time in which a viewer has to
-- connect.
abbrev asked : Server
asked = (endpoint world (ascii "7") (new_server new_control)).1

endpoint_leaks_example :
    ((endpoint world (ascii "7") (new_server new_control)).0 ≡ not_found)
    × ((on_timeout 0 false asked).closed (new_server new_control).next_peer ≡ false)
    × ((on_timeout 0 false asked).peers (new_server new_control).next_peer ≡ false)
endpoint_leaks_example =
    endpoint_leaks world (ascii "7") 7 (new_server-IsSound new_control) seven no_stream refl
      (later here (timeout 0 false))

abbrev plain_http : Config
plain_http = record {
  http_server_type = ascii "http";
  http_address = ascii "h:80";
  https_hostname = [];
  https_cert = [];
  https_key = [];
}

-- Uuids that count.
abbrev strokes : ℕ → List ℕ
strokes zero = []
strokes (suc n) = b'x' ∷ strokes n

length-strokes : (n : ℕ) → some (length (strokes n)) ≡ some n
length-strokes zero = refl
length-strokes (suc n) = let rest = length-strokes n in ground arith

strokes-Lacks : (n : ℕ) → Lacks b'/' (strokes n)
strokes-Lacks zero = tt
strokes-Lacks (suc n) = ((λ e. omega arith), strokes-Lacks n)

abbrev counted : Uuids
counted = record { text = strokes; find = λ uuid. some (length uuid) }

abbrev no_text : Whep.Response → List ℕ
no_text r = []

-- Every body is taken for an answer.
abbrev served : List ℕ → List ℕ → Server → Option Response × Server
served url body t = elim (strip_prefix (ascii "http://h:80/whep/endpoint/") url) [
  | some channel ↦ over_http plain_http counted no_text (endpoint world (base url) t)
  | none ↦
      over_http plain_http counted no_text
        (resource false (some body) true (some (length (base url))) t)
]

abbrev eager : Pion
eager = record {
  makes_peer = true;
  takes_offer = λ sdp. true;
  makes_answer = true;
  takes_answer = true;
  local_sdp = ascii "answer";
}

served-endpoint :
    (n : ℕ) (body : List ℕ) (t : Server)
    → served (endpoint_url plain_http (decimal n)) body t
      ≡ over_http plain_http counted no_text
          (endpoint world (base (endpoint_url plain_http (decimal n))) t)
unfolding endpoint_url http_server_url
served-endpoint n body t = refl

served-resource :
    (p : ℕ) (body : List ℕ) (t : Server)
    → served (resource_url plain_http (strokes p)) body t
      ≡ over_http plain_http counted no_text (
          resource false
            (some body)
            true
            (some (length (base (resource_url plain_http (strokes p)))))
            t)
unfolding resource_url http_server_url
served-resource p body t = refl

-- The server with the two tracks of that stream.
abbrev showing : Server
showing = new_server (modify 0 describe_stream (new_stream 7 100 new_control).1)

abbrev two_tracks : List StreamTrack
two_tracks =
    record { kind = video; codec = mime_h264; track = 0 }
    ∷ record { kind = audio; codec = mime_opus; track = 1 }
    ∷ []

showing_tracks : get_tracks (showing.control) 7 ≡ some two_tracks
unfolding new_server new_stream new_control get_stream get_tracks add_track report_metadata
    apply_metadata
showing_tracks = refl

thumbnailer-endpoint_example :
    (s' : Server) × (thumbnailer
        (web plain_http counted served)
        eager
        (whep_endpoint plain_http)
        7
        showing
      ≡ (none, s'))
    × (s'.peers showing.next_peer ≡ true)
    × (s'.tracks showing.next_peer ≡ two_tracks)
    × (s'.answers showing.next_peer ≡ some (ascii "answer"))
    × (s'.control ≡ showing.control)
thumbnailer-endpoint_example =
    thumbnailer-endpoint plain_http counted served no_text (λ body. true) world eager 7 two_tracks
      (ascii "sdp") showing length-strokes strokes-Lacks served-endpoint served-resource
      (omega arith) showing_tracks refl refl refl refl refl refl refl refl
