-- ===== src/Services/Glimesh/Rounds.antt =====
-- glimesh.go and control.go: a stream from its start to its stop, as the API of Glimesh sees it.
use waveguide.Base.{
  ℕ, ◌<◌, ◌^◌, ◌≡◌, refl, ap, ◌∙◌, Bool, true, false, Option, none, some, ◌∷◌, arith,
}
use waveguide.Base.Text.{ascii, decimal}
use waveguide.Base.Decimal.{atoi_uint32-decimal}
use waveguide.Control.Types.{
  service_start, orchestrator_start, Control, Error, service_failed, finished,
}
use waveguide.Control.Manager.{Started, stop_error}
use waveguide.Control.Rules.{IsWell}
use waveguide.Control.Remote.{Parties, after, answers_to_stop, start_with, stop_with}
use waveguide.Control.Remote.Rounds.{stop_with-start_with}
use waveguide.Services.Dummy.{dummy_orchestrator}
use waveguide.Services.Glimesh.{Config, Api, Call, Calls, mutate, start_stream, end_stream, glimesh}

-- The two mutations of a stream's life.
abbrev pub start_call : ℕ → Call
start_call id = mutate (ascii "startStream(channelId: $id)") (ascii "Id") (decimal id) none

abbrev pub end_call : ℕ → Call
end_call sid = mutate (ascii "endStream(streamId: $id)") (ascii "Id") (decimal sid) none

module _ (config : Config) (api : Api) where
  start_stream-decimal :
      (id n : ℕ) (calls : Calls)
      → n < 2 ^ 32
      → api.answers (start_call id) calls ≡ some (decimal n)
      → start_stream config api id calls ≡ (some n, start_call id ∷ calls)
  unfolding start_stream
  start_stream-decimal id n calls small e =
      let read = atoi_uint32-decimal n small in ground (arith, e, read)

  end_stream_calls :
      (n : ℕ) (calls : Calls) → (end_stream config api n calls).1 ≡ end_call n ∷ calls
  unfolding end_stream
  end_stream_calls n calls = ground arith

  -- The stop's error, from what the service answers.
  abbrev pub refused : Bool × Calls → Option Error
  refused (true, calls) = none
  refused (false, calls) = some service_failed

  stop_error-end_stream :
      (id n : ℕ) (p : Parties (glimesh config api) dummy_orchestrator)
      → stop_error (answers_to_stop (glimesh config api) dummy_orchestrator id n p) none
        ≡ refused (end_stream config api n p.service)
  unfolding answers_to_stop
  stop_error-end_stream id n p = ground arith

  abbrev Round : Type 0
  Round = Parties (glimesh config api) dummy_orchestrator

  -- With Glimesh as the service and the dummy orchestrator, a stream that is started and stopped on a channel
  -- without one makes two calls of the API: one that starts a stream for the channel, and one that ends
  -- the very stream that the first was answered. Nothing waits, the map is as before, and the stop has an error
  -- exactly if the API refuses it. The manager satisfies the invariant, and the API answers the first call
  -- with a decimal number of 32 bits.
  pub glimesh_round :
      (now id n : ℕ) (p : Round) (c : Control)
      → IsWell c
      → c.streams id ≡ none
      → n < 2 ^ 32
      → let calls = (after (glimesh config api) dummy_orchestrator c.requests p).service in
        api.answers (start_call id) calls ≡ some (decimal n)
        → (s : Started) × (start_with (glimesh config api) dummy_orchestrator now id p c
            ≡ finished s)
          × (s.error ≡ none)
          × (r : Option Error × Control) × (stop_with
                (glimesh config api)
                dummy_orchestrator
                id
                p
                s.control
              ≡ finished r)
          × (r.0 ≡ refused (end_stream config api n (start_call id ∷ calls)))
          × ((j : ℕ) → r.1.streams j ≡ c.streams j)
          × ((after (glimesh config api) dummy_orchestrator r.1.requests p).service
              ≡ end_call n ∷ start_call id ∷ calls)
  glimesh_round now id n p c w free small answered =
      let parties = after (glimesh config api) dummy_orchestrator c.requests p in
      let started = start_stream-decimal id n parties.service small answered in
      let (s, e, fine, r, e', error, same, asked) =
        stop_with-start_with (glimesh config api) dummy_orchestrator now id n p c w free
          (ap (λ q. q.0) started) refl in
      (
        s,
        e,
        fine,
        r,
        e',
        error
            ∙ stop_error-end_stream id n (
                after (glimesh config api) dummy_orchestrator
                  (orchestrator_start id n ∷ service_start id ∷ c.requests) p)
            ∙ ap (λ q. refused (end_stream config api n q.1)) started,
        same,
        ap (λ qs. (after (glimesh config api) dummy_orchestrator qs p).service) asked
            ∙ end_stream_calls n (start_stream config api id parties.service).1
            ∙ ap (λ q. end_call n ∷ q.1) started,
      )
