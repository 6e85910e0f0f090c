-- ===== src/Services/Dummy.antt =====
-- pkg/services/dummy_service/dummy.go and pkg/orchestrators/dummy_orchestrator/dummy_orchestrator.go.
-- SHA-256 is a parameter.
use waveguide.Base.{
  ℕ, ◌+◌, ◌%◌, ◌^◌, ◌<◌, ◌≡◌, ap, ◌∙◌, sym, Bool, true, false, some, List, arith, if◌then◌else◌,
}
use waveguide.Base.Words.{IsU8}
use waveguide.Base.{All}
use waveguide.Base.Text.{encode_hex, decode_hex, decimal}
use waveguide.Base.Decimal.{digits_value-decimal}
use waveguide.Base.Text.{digits_value}
use waveguide.Ftl.Client.Handshake.{decode_hex-encode_hex}
use waveguide.Control.Remote.{Service, Orchestrator}

-- `fmt.Sprintf("%x", h.Sum(nil))` of the channel's decimal digits.
unfoldable pub get_hmac_key : (List ℕ → List ℕ) → ℕ → List ℕ
get_hmac_key sha256 id = encode_hex (sha256 (decimal id))

-- `control.StreamID(channelID + 1)`, in 32 bits.
unfoldable pub start_stream : ℕ → ℕ
start_stream id = (id + 1) % 2 ^ 32

abbrev pub dummy_service : (List ℕ → List ℕ) → Service
dummy_service sha256 = record {
  State = Unit;
  get_hmac_key = λ id s. (some (get_hmac_key sha256 id), s);
  start_stream = λ id s. (some (start_stream id), s);
  end_stream = λ sid s. (true, s);
  update_stream_metadata = λ sid metadata s. (true, s);
  send_jpeg_preview_image = λ sid img s. (true, s);
}

-- The orchestrator's `Client`, less its configuration.
pub record Client : Type 0 where
  pub connected : Bool

unfoldable pub connect : Client → Client
connect c = record c { connected = true }

unfoldable pub close : Client → Client
close c = if c.connected then record c { connected = false } else c

abbrev pub dummy_orchestrator : Orchestrator
dummy_orchestrator = record {
  State = Client;
  start_stream = λ id sid c. (true, c);
  stop_stream = λ id sid c. (true, c);
  heartbeat = λ id c. (true, c);
}

-- Two channels of 32 bits have the same stream only if they are one; and the same key only if SHA-256 is the
-- same for their decimal numbers, which are then different texts unless the channels are one.
dummy_service_tells_apart :
    (sha256 : List ℕ → List ℕ) (a b : ℕ)
    → ((s : List ℕ) → All IsU8 (sha256 s))
    → a < 2 ^ 32
    → b < 2 ^ 32
    → (start_stream a ≡ start_stream b → a ≡ b)
      × (get_hmac_key sha256 a ≡ get_hmac_key sha256 b → sha256 (decimal a) ≡ sha256 (decimal b))
      × (decimal a ≡ decimal b → a ≡ b)
unfolding start_stream get_hmac_key
dummy_service_tells_apart sha256 a b bytes small_a small_b = (
  (λ e. omega arith),
  (λ e.
      let both =
        sym (decode_hex-encode_hex (sha256 (decimal a)) (bytes (decimal a)))
        ∙ ap decode_hex e
        ∙ decode_hex-encode_hex (sha256 (decimal b)) (bytes (decimal b)) in
      cc),
  (λ e.
      let both =
        sym (digits_value-decimal a small_a)
        ∙ ap (digits_value 0) e
        ∙ digits_value-decimal b small_b in
      both),
)
