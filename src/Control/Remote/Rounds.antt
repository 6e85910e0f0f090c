-- ===== src/Control/Remote/Rounds.antt =====
-- control.go: a stream that is started and stopped, as the service and the orchestrator see it.
use waveguide.Base.{ℕ, ◌≡◌, refl, ap, ◌∙◌, true, Option, none, some, ◌∷◌, arith}
use waveguide.Control.Types.{
  service_start, service_end, orchestrator_start, orchestrator_stop, Control, Error, finished,
}
use waveguide.Control.Manager.{Started, stop_error}
use waveguide.Control.Rules.{IsWell, stop_stream_mapped, IsStopped}
use waveguide.Control.Begun.{begun, begun_told, begun_streams, begun-IsWell, start_stream-begun}
use waveguide.Control.Remote.{
  Service, Orchestrator, Parties, after, answers_to_start, answers_to_stop, answers_to_undo,
  start_with, stop_with,
}

module _ (S : Service) (O : Orchestrator) where
  start_with-begun :
      (now id sid : ℕ) (p : Parties S O) (c : Control)
      → c.streams id ≡ none
      → (S.start_stream id (after S O c.requests p).service).0 ≡ some sid
      → (O.start_stream id sid (after S O c.requests p).orchestrator).0 ≡ true
      → start_with S O now id p c
        ≡ finished (record {
          stream = some c.next;
          ctx = c.next;
          error = none;
          control = begun id now sid c;
        })
  unfolding start_with answers_to_start
  start_with-begun now id sid p c free named told =
      let now_parties = after S O c.requests p in
      let ans = answers_to_start S O now id now_parties in
      let undo = answers_to_undo S O id now_parties in
      let announced_too : ans.announces ≡ true = ground (arith, named, told) in
      start_stream-begun ans undo id sid c free named announced_too

  stop_with-IsStopped :
      (id sid a : ℕ) (p : Parties S O) (c : Control)
      → IsWell c
      → c.streams id ≡ some a
      → (c.heap a).stream_id ≡ sid
      → (c.heap a).channel_id ≡ id
      → (r : Option Error × Control) × (stop_with S O id p c ≡ finished r)
        × (r.0 ≡ stop_error (answers_to_stop S O id sid (after S O c.requests p)) none)
        × IsStopped c id a r.1
  unfolding stop_with
  stop_with-IsStopped id sid a p c w mapped named serves =
      let ans = answers_to_stop S O id sid (after S O c.requests p) in
      let (r, e, error, stopped, _) = stop_stream_mapped ans id a c w mapped in
      (r, ground (arith, mapped, named, serves, e), error, stopped)

  -- A stream that is started and stopped leaves the manager's map as it was. The service and the
  -- orchestrator have been asked once each to start the stream and then once each to stop it, under the id
  -- that the service gave; nothing waits, and the stop has an error exactly if one of them refuses it.
  -- The manager satisfies the invariant, the channel has no stream, and both parties agree to the start.
  pub stop_with-start_with :
      (now id sid : ℕ) (p : Parties S O) (c : Control)
      → IsWell c
      → c.streams id ≡ none
      → (S.start_stream id (after S O c.requests p).service).0 ≡ some sid
      → (O.start_stream id sid (after S O c.requests p).orchestrator).0 ≡ true
      → (s : Started) × (start_with S O now id p c ≡ finished s)
        × (s.error ≡ none)
        × (r : Option Error × Control) × (stop_with S O id p s.control ≡ finished r)
        × (r.0
            ≡ stop_error
                (answers_to_stop S O id sid
                  (after S O (orchestrator_start id sid ∷ service_start id ∷ c.requests) p))
                none)
        × ((j : ℕ) → r.1.streams j ≡ c.streams j)
        × (r.1.requests
            ≡ orchestrator_stop id sid
              ∷ service_end sid
              ∷ orchestrator_start id sid
              ∷ service_start id
              ∷ c.requests)
  stop_with-start_with now id sid p c w free named told =
      let c' = begun id now sid c in
      let well = begun-IsWell id now sid c w in
      let here = begun_streams id now sid id c free in
      let (asked, sid_kept, id_kept) = begun_told id now sid c free in
      let (r, e, error, stopped) =
        stop_with-IsStopped id sid c.next p c' well (ground (arith, here)) sid_kept id_kept in
      (
        _,
        start_with-begun now id sid p c free named told,
        refl,
        r,
        e,
        error ∙ ap (λ qs. stop_error (answers_to_stop S O id sid (after S O qs p)) none) asked,
        (λ j. ground (arith, stopped.gone, stopped.others j, begun_streams id now sid j c free)),
        ground (arith, stopped.told, asked, sid_kept),
      )
