-- ===== src/Orchestrator/Router.antt =====
-- pkg/orchestrators/rt_orchestrator/rt_orchestrator.go: the orchestrator over HTTP.
-- net/http and the router are an answer to a request: it cannot be made, cannot be sent, or has a status.
pub mod Endpoint
mod Runs
use waveguide.Base.{ℕ, Bool, true, false, List, [], ◌∷◌, ◌++◌, ◌==◌, if◌then◌else◌}
use waveguide.Base.Text.{ascii, decimal}

pub record Config : Type 0 where
  pub endpoint : List ℕ
  pub key : List ℕ
  pub whep_endpoint : List ℕ

-- A POST: its URL, the fields of its form, in the order in which they are added, and its authorization.
pub record Post : Type 0 where
  pub url : List ℕ
  pub form : List (List ℕ × List ℕ)
  pub authorization : List ℕ

-- `sent` has the requests that went out, the latest first.
pub record Client : Type 0 where
  pub hostname : List ℕ
  pub config : Config
  pub connected : Bool
  pub sent : List Post

pub data Answer : Type 0 where
  not_made not_sent : Answer
  status : ℕ → Answer

unfoldable pub new_client : Config → List ℕ → Client
new_client config hostname = record {
  hostname = hostname;
  config = config;
  connected = false;
  sent = [];
}

unfoldable pub connect : Client → Client
connect c = record c { connected = true }

unfoldable pub close : Client → Client
close c = if c.connected then record c { connected = false } else c

unfoldable pub router_endpoint : Config → List ℕ → List ℕ
router_endpoint config path = config.endpoint ++ ascii "/" ++ path

unfoldable pub channel_endpoint : Config → ℕ → List ℕ
channel_endpoint config id = config.whep_endpoint ++ (ascii "/whep/endpoint/" ++ decimal id)

-- The request of `path` with the form, and whether it has the status that is wanted.
unfoldable pub post : List ℕ → List (List ℕ × List ℕ) → ℕ → Answer → Client → Bool × Client
post path form wanted not_made c = (false, c)
post path form wanted not_sent c = (false, c)
post path form wanted (status n) c = (
  n == wanted,
  record c {
    sent =
        record { url = router_endpoint (c.config) path; form = form; authorization = c.config.key }
        ∷ c.sent;
  },
)

abbrev pub channel_field : ℕ → List ℕ × List ℕ
channel_field id = (ascii "channel_id", decimal id)

-- True where the method returns no error.
unfoldable pub start_stream : ℕ → ℕ → Answer → Client → Bool × Client
start_stream id stream answer c =
    post (ascii "v1/state/start_stream")
      (channel_field id ∷ (ascii "endpoint", channel_endpoint (c.config) id) ∷ []) 202 answer c

unfoldable pub stop_stream : ℕ → ℕ → Answer → Client → Bool × Client
stop_stream id stream answer c =
    post (ascii "v1/state/stop_stream") (channel_field id ∷ []) 200 answer c

unfoldable pub heartbeat : ℕ → Answer → Client → Bool × Client
heartbeat id answer c = post (ascii "v1/state/heartbeat") (channel_field id ∷ []) 200 answer c
