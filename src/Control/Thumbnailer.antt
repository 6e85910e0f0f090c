-- ===== src/Control/Thumbnailer.antt =====
-- thumbnailer.go: how the thumbnailer of a stream becomes a viewer of the stream.
-- pion and net/http are answers. Its loop over the packets is in Video.Keyframer.
use waveguide.Base.{ℕ, Bool, Option, none, some, List, [], ◌++◌, if◌then◌else◌}
use waveguide.Base.Text.{ascii, decimal}

-- A response as far as it is read: the status is not.
pub record Response : Type 0 where
  pub body : List ℕ
  pub location : List ℕ

-- What pion answers: the description is the one after the candidates have been gathered.
pub record Pion : Type 0 where
  pub makes_peer : Bool
  pub takes_offer : List ℕ → Bool
  pub makes_answer : Bool
  pub takes_answer : Bool
  pub local_sdp : List ℕ

pub data Error : Type 0 where
  peer_failed offer_lost offer_refused answer_failed answer_refused answer_lost : Error

-- The HTTP server at the other end over a state: a POST to an address with a body. The response is none where
-- the request fails or its body cannot be read.
pub record Web : Type 1 where
  pub State : Type 0
  pub post : List ℕ → List ℕ → State → Option Response × State

module _ (W : Web) where
  open W use {State, post}

  abbrev pub Result : Type 0
  Result = Option Error × State

  -- Where the second response is none.
  abbrev pub take_end : Option Response × State → Result
  take_end (none, s) = (some answer_lost, s)
  take_end (some r, s) = (none, s)

  -- From the offer on.
  abbrev pub take_offer : Pion → Option Response × State → Result
  take_offer pion (none, s) = (some offer_lost, s)
  take_offer pion (some r, s) =
      if pion.takes_offer r.body
      then (if pion.makes_answer
          then (if pion.takes_answer
              then take_end (post r.location pion.local_sdp s)
              else (some answer_refused, s))
          else (some answer_failed, s))
      else (some offer_refused, s)

  -- `thumbnailer` until it waits for the end of the stream, which is no error.
  unfoldable pub thumbnailer : Pion → List ℕ → ℕ → State → Result
  thumbnailer pion whep_endpoint channel_id s =
      if pion.makes_peer
      then take_offer pion (post (whep_endpoint ++ ascii "/" ++ decimal channel_id) [] s)
      else (some peer_failed, s)
