-- ===== src/Outputs/Whep/Thumbs.antt =====
-- thumbnailer.go and whep.go: the thumbnailer of a live stream as a viewer at the WHEP output.
use waveguide.Base.{
  ℕ, ◌<◌, ◌^◌, ◌≡◌, refl, ap, ◌∙◌, sym, Bool, true, false, Option, none, some, List, [], ◌∷◌, ◌++◌,
  append_assoc, arith,
}
use waveguide.Base.Text.{ascii, decimal}
use waveguide.Base.Split.{Lacks}
use waveguide.Base.Decimal.{atoi_uint32-decimal, decimal-Lacks}
use waveguide.Base.Paths.{base, base-append}
use waveguide.Control.Types.{StreamTrack}
use waveguide.Control.Manager.{get_tracks}
use waveguide.Control.Http.{Config, http_server_url}
use waveguide.Control.Thumbnailer.{Response, Pion, Web, thumbnailer}
use waveguide.Outputs.Whep.{
  Server, World, created, no_content, endpoint, with_channel, resource, endpoint_url, resource_url,
  open_peer, add_tracks, add_peer, add_answer,
}
use waveguide.Outputs.Whep

-- The uuid of a connection, and the connection that a uuid names, if any.
pub record Uuids : Type 0 where
  pub text : ℕ → List ℕ
  pub find : List ℕ → Option ℕ

-- What `StartStream` gives to the thumbnailer.
abbrev pub whep_endpoint : Config → List ℕ
whep_endpoint config = http_server_url config ++ ascii "/whep/endpoint"

thumbnail_url :
    (config : Config) (id : ℕ)
    → whep_endpoint config ++ ascii "/" ++ decimal id ≡ endpoint_url config (decimal id)
unfolding endpoint_url
thumbnail_url config id =
    ap (λ u. u ++ decimal id)
      (append_assoc (http_server_url config) (ascii "/whep/endpoint") (ascii "/"))

base-endpoint_url :
    (config : Config) (id : ℕ) → base (endpoint_url config (decimal id)) ≡ decimal id
unfolding endpoint_url
base-endpoint_url config id =
    ap base (
      append_assoc (http_server_url config) (ascii "/whep/endpoint/") (decimal id)
      ∙ sym (append_assoc (http_server_url config) (ascii "/whep/endpoint") (b'/' ∷ decimal id)))
    ∙ base-append (http_server_url config ++ ascii "/whep/endpoint") (decimal id)
        (decimal-Lacks id b'/' refl)

base-resource_url :
    (config : Config) (uuid : List ℕ) → Lacks b'/' uuid → base (resource_url config uuid) ≡ uuid
unfolding resource_url
base-resource_url config uuid plain =
    ap base (
      append_assoc (http_server_url config) (ascii "/whep/resource/") uuid
      ∙ sym (append_assoc (http_server_url config) (ascii "/whep/resource") (b'/' ∷ uuid)))
    ∙ base-append (http_server_url config ++ ascii "/whep/resource") uuid plain

module _ (config : Config) (uuids : Uuids) where
  -- A response of the WHEP output as it goes over HTTP: an offer with the address of its connection, or the
  -- text of an error.
  abbrev pub over_http :
      (Whep.Response → List ℕ) → Whep.Response × Server → Option Response × Server
  over_http errors (created p sdp, s) =
      (some (record { body = sdp; location = resource_url config (uuids.text p) }), s)
  over_http errors (other, s) = (some (record { body = errors other; location = [] }), s)

  -- A web server over the WHEP output's state.
  abbrev pub web : (List ℕ → List ℕ → Server → Option Response × Server) → Web
  web post = record { State = Server; post = post }

  -- The WHEP output once it has made an offer of the tracks.
  abbrev pub offered : List StreamTrack → Server → Server
  offered tracks s = add_peer s.next_peer (add_tracks s.next_peer tracks (open_peer s))

  endpoint_offers :
      (w : World) (id : ℕ) (tracks : List StreamTrack) (sdp : List ℕ) (s : Server)
      → id < 2 ^ 32
      → get_tracks (s.control) id ≡ some tracks
      → w.makes_peer ≡ true
      → w.offer ≡ some sdp
      → w.takes_offer ≡ true
      → endpoint w (decimal id) s ≡ (created s.next_peer sdp, offered tracks s)
  unfolding endpoint
  endpoint_offers w id tracks sdp s small live peer offer takes =
      let named = atoi_uint32-decimal id small in ground (arith, named, live, peer, offer, takes)

  resource_takes :
      (answer : List ℕ) (p : ℕ) (s : Server)
      → s.peers p ≡ true
      → resource false (some answer) true (some p) s ≡ (no_content, add_answer p answer s)
  unfolding resource
  resource_takes answer p s there = ground (arith, there)

  -- The thumbnailer of a live stream becomes a viewer of it: it asks for the stream at the WHEP output, is
  -- offered the tracks that the stream has then, posts its answer to the address in the response and
  -- reports no error; the connection has taken that answer and stays in the output's map. The channel has
  -- 32 bits, net/http hands a request to the handler of its path with the path's base, uuids hold no slash and are told apart, and
  -- pion makes what it is asked for and takes what it is given on both sides.
  pub thumbnailer-endpoint :
      (post : List ℕ → List ℕ → Server → Option Response × Server) (errors : Whep.Response → List ℕ)
      (takes : List ℕ → Bool) (w : World) (pion : Pion) (id : ℕ) (tracks : List StreamTrack)
      (sdp : List ℕ) (s : Server)
      → ((p : ℕ) → uuids.find (uuids.text p) ≡ some p)
      → ((p : ℕ) → Lacks b'/' (uuids.text p))
      → ((n : ℕ) (body : List ℕ) (t : Server)
          → post (endpoint_url config (decimal n)) body t
            ≡ over_http errors (endpoint w (base (endpoint_url config (decimal n))) t))
      → ((p : ℕ) (body : List ℕ) (t : Server)
          → post (resource_url config (uuids.text p)) body t
            ≡ over_http errors (
                resource false
                  (some body)
                  (takes body)
                  (uuids.find (base (resource_url config (uuids.text p))))
                  t))
      → id < 2 ^ 32
      → get_tracks (s.control) id ≡ some tracks
      → w.makes_peer ≡ true
      → w.offer ≡ some sdp
      → w.takes_offer ≡ true
      → pion.makes_peer ≡ true
      → pion.takes_offer sdp ≡ true
      → pion.makes_answer ≡ true
      → pion.takes_answer ≡ true
      → takes pion.local_sdp ≡ true
      → (s' : Server) × (thumbnailer (web post) pion (whep_endpoint config) id s ≡ (none, s'))
        × (s'.peers s.next_peer ≡ true)
        × (s'.tracks s.next_peer ≡ tracks)
        × (s'.answers s.next_peer ≡ some pion.local_sdp)
        × (s'.control ≡ s.control)
  unfolding thumbnailer
  thumbnailer-endpoint post errors takes w pion id tracks sdp s find plain to_endpoint to_resource
        small live peer offer takes_local makes takes_offer' makes_answer takes_answer taken =
      let p = s.next_peer in
      let s0 = offered tracks s in
      let s' = add_answer p (pion.local_sdp) s0 in
      let here : s0.peers p ≡ true = ground arith in
      let first : post (whep_endpoint config ++ ascii "/" ++ decimal id) [] s
          ≡ over_http errors (created p sdp, s0) =
        ap (λ u. post u [] s) (thumbnail_url config id)
        ∙ to_endpoint id [] s
        ∙ ap (λ b. over_http errors (endpoint w b s)) (base-endpoint_url config id)
        ∙ ap (over_http errors)
            (endpoint_offers w id tracks sdp s small live peer offer takes_local) in
      let second : post (resource_url config (uuids.text p)) pion.local_sdp s0
          ≡ over_http errors (no_content, s') =
        to_resource p pion.local_sdp s0
        ∙ ap
            (λ b.
              over_http errors
                (resource false (some pion.local_sdp) (takes pion.local_sdp) (uuids.find b) s0))
            (base-resource_url config (uuids.text p) (plain p))
        ∙ ap
            (λ q.
              over_http errors (resource false (some pion.local_sdp) (takes pion.local_sdp) q s0))
            (find p)
        ∙ ap (λ t. over_http errors (resource false (some pion.local_sdp) t (some p) s0)) taken
        ∙ ap (over_http errors) (resource_takes pion.local_sdp p s0 here) in
      (
        s',
        ground (arith, makes, first, takes_offer', makes_answer, takes_answer, second),
        here,
        ground arith,
        ground arith,
        refl,
      )
