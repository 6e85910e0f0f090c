-- ===== src/Orchestrator/Router/Endpoint.antt =====
-- rt_orchestrator.go and whep.go: the endpoint that is announced for a channel is one that the WHEP output
-- takes for that channel.
use waveguide.Base.{
  ℕ, ◌<◌, ◌^◌, ◌≡◌, refl, sym, ap, ◌∙◌, append_assoc, some, List, [], ◌∷◌, ◌++◌, ◌==◌,
}
use waveguide.Base.Text.{ascii, decimal}
use waveguide.Base.Split.{atoi_uint32}
use waveguide.Base.Decimal.{atoi_uint32-decimal, decimal-Lacks}
use waveguide.Base.Paths.{base, base-append}
use waveguide.Outputs.Whep.{World, Server, endpoint, with_channel}
use waveguide.Orchestrator.Router.{
  Config, Post, Client, status, channel_endpoint, start_stream, post,
}

base-channel_endpoint : (config : Config) (id : ℕ) → base (channel_endpoint config id) ≡ decimal id
unfolding channel_endpoint
base-channel_endpoint config id =
    let front = config.whep_endpoint ++ ascii "/whep/endpoint" in
    let whole = append_assoc config.whep_endpoint (ascii "/whep/endpoint") (b'/' ∷ decimal id) in
    ap base (sym whole) ∙ base-append front (decimal id) (decimal-Lacks id b'/' refl)

-- Whatever status the router gives, StartStream sends it one request, with the key and two fields: the
-- channel, and an endpoint whose base the WHEP output takes for that channel, if the channel has 32 bits.
-- There is no error exactly if the status is 202.
pub start_stream-endpoint :
    (id stream n : ℕ) (c : Client)
    → id < 2 ^ 32
    → (p : Post) × (url : List ℕ) × (start_stream id stream (status n) c
        ≡ (n == 202, record c { sent = p ∷ c.sent }))
      × (p.authorization ≡ c.config.key)
      × (p.form ≡ (ascii "channel_id", decimal id) ∷ (ascii "endpoint", url) ∷ [])
      × ((w : World) (s : Server) → endpoint w (base url) s ≡ with_channel w (some id) s)
unfolding start_stream post endpoint
start_stream-endpoint id stream n c small = (
  _,
  channel_endpoint c.config id,
  refl,
  refl,
  refl,
  λ w s.
      ap (λ o. with_channel w o s)
        (ap atoi_uint32 (base-channel_endpoint c.config id) ∙ atoi_uint32-decimal id small),
)
