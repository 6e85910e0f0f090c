-- ===== src/Orchestrator/Router/Runs.antt =====
-- A start that the router accepts, and what the theorem says of it.
use waveguide.Base.{ℕ, ◌≡◌, ◌==◌, some, List, [], ◌∷◌, arith}
use waveguide.Base.Text.{ascii, decimal}
use waveguide.Orchestrator.Router.{Post, Client, status, new_client, start_stream}
use waveguide.Base.Paths.{base}
use waveguide.Orchestrator.Router.Endpoint.{start_stream-endpoint}
use waveguide.Outputs.Whep.{World, Server, endpoint, with_channel}

abbrev client : Client
client =
    new_client
      (record {
        endpoint = ascii "https://router";
        key = ascii "secret";
        whep_endpoint = ascii "http://host:8091";
      })
      (ascii "host")

start_stream-endpoint_example :
    (p : Post) × (url : List ℕ) × (start_stream 7 42 (status 202) client
      ≡ (202 == 202, record client { sent = p ∷ client.sent }))
    × (p.authorization ≡ client.config.key)
    × (p.form ≡ (ascii "channel_id", decimal 7) ∷ (ascii "endpoint", url) ∷ [])
    × ((w : World) (s : Server) → endpoint w (base url) s ≡ with_channel w (some 7) s)
start_stream-endpoint_example = start_stream-endpoint 7 42 202 client (omega arith)
