-- ===== src/Inputs/Janus/Crash.antt =====
-- janus.go: a second offer from Janus, and a failure after the stream has started, end the process.
use waveguide.Base.{
  ℕ, ◌%◌, ◌^◌, ◌≡◌, refl, ap, ◌∙◌, Bool, true, false, ◌&&◌, none, some, List, [], ◌∷◌, ◌++◌, arith,
  All, Bool-cases, inl, inr, if◌then◌else◌,
}
use waveguide.Control.Types.{service_start, orchestrator_start}
use waveguide.Control.Manager.{new_stream}
use waveguide.Control.Begun.{begun, begun_told, begun_streams, start_stream-begun}
use waveguide.Control.Lifecycle.{start_stream_taken}
use waveguide.Ftl.Handler.{modify}
use waveguide.Inputs.Janus.{
  Config, World, Source, crashed, negotiated, Poll, undecodable, unanswered, said, describe_stream,
  connects, answer_post, set_up, negotiate, poll,
}

-- An answer to a long poll that makes no offer.
abbrev pub is_quiet : World × Poll → Bool
is_quiet (w, unanswered) = false
is_quiet (w, undecodable) = true
is_quiet (w, said []) = true
is_quiet (w, said (c ∷ sdp)) = false

abbrev pub AreQuiet : List (World × Poll) → Type 0
AreQuiet polls = All (λ p. is_quiet p ≡ true) polls

-- Nothing fails on the way to the answer.
abbrev pub agrees : World → Bool
agrees w = w.makes_video && w.makes_audio && connects w && w.answered

module _ (config : Config) (plugin_url : List ℕ) where
  abbrev channel : ℕ
  channel = config.channel_id % 2 ^ 32

  poll_quiet :
      (quiet polls : List (World × Poll)) (s : Source)
      → AreQuiet quiet
      → poll config plugin_url (quiet ++ polls) s ≡ poll config plugin_url polls s
  unfolding poll
  poll_quiet [] polls s plain = refl
  poll_quiet ((w, unanswered) ∷ quiet) polls s (is, plain) = absurd (ground arith)
  poll_quiet ((w, undecodable) ∷ quiet) polls s (is, plain) = poll_quiet quiet polls s plain
  poll_quiet ((w, said []) ∷ quiet) polls s (is, plain) = poll_quiet quiet polls s plain
  poll_quiet ((w, said (c ∷ sdp)) ∷ quiet) polls s (is, plain) = absurd (ground arith)

  -- The state after an offer to a channel with a stream.
  abbrev pub refused : World → Source → Source
  refused w s = record s { control = (new_stream channel (w.starting.now) (s.control)).1 }

  negotiate_live :
      (w : World) (a : ℕ) (s : Source)
      → s.control.streams channel ≡ some a
      → negotiate w config plugin_url s ≡ crashed (refused w s)
  unfolding negotiate
  negotiate_live w a s live =
      rw (start_stream_taken (w.starting) (w.stopping) channel a (s.control) live, negotiate) refl

  -- The source once pion and Janus have been asked.
  negotiate_free :
      (w : World) (sid : ℕ) (s : Source)
      → s.control.streams channel ≡ none
      → w.starting.starts ≡ some sid
      → w.starting.announces ≡ true
      → negotiate w config plugin_url s
        ≡ set_up w plugin_url s.control.next
            (record s { control = begun channel (w.starting.now) sid (s.control) })
  unfolding negotiate
  negotiate_free w sid s free named told =
      rw
        (
          start_stream-begun (w.starting) (w.stopping) channel sid (s.control) free named told,
          negotiate,
        )
        refl

  -- With which the setting up leaves the manager's map and requests alone.
  set_up_keeps :
      (w : World) (ctx : ℕ) (s : Source)
      → (s' : Source) × (set_up w plugin_url ctx s
          ≡ (if agrees w then negotiated s' else crashed s'))
        × (s'.control.requests ≡ s.control.requests)
        × (s'.control.streams ≡ s.control.streams)
  unfolding set_up
  set_up_keeps w ctx s =
      let described = record s { control = modify ctx describe_stream (s.control) } in
      let sent = record described { posts = answer_post w plugin_url ∷ s.posts } in
      elim (Bool-cases (w.makes_video && w.makes_audio)) [
        | inr no_track ↦ (s, ground (arith, no_track), refl, refl)
        | inl tracks ↦ elim (Bool-cases (connects w)) [
          | inr no_peer ↦ (described, ground (arith, tracks, no_peer), refl, refl)
          | inl peer ↦ elim (Bool-cases (w.answered)) [
            | inr lost ↦ (sent, ground (arith, tracks, peer, lost), refl, refl)
            | inl there ↦ (sent, ground (arith, tracks, peer, there), refl, refl)
          ]
        ]
      ]

  -- An offer to a channel without a stream, whose start the service and the orchestrator agree to: the
  -- stream is in the map and both have been asked to start it, whether the negotiation then succeeds or
  -- ends the process.
  negotiate_told :
      (w : World) (sid : ℕ) (s : Source)
      → s.control.streams channel ≡ none
      → w.starting.starts ≡ some sid
      → w.starting.announces ≡ true
      → (s' : Source) × (negotiate w config plugin_url s
          ≡ (if agrees w then negotiated s' else crashed s'))
        × (s'.control.requests
            ≡ orchestrator_start channel sid ∷ service_start channel ∷ s.control.requests)
        × (s'.control.streams channel ≡ some s.control.next)
  negotiate_told w sid s free named told =
      let now = w.starting.now in
      let (s', e, requests, streams) =
        set_up_keeps w s.control.next (record s { control = begun channel now sid (s.control) }) in
      let (asked, _, _) = begun_told channel now sid (s.control) free in
      let here = begun_streams channel now sid channel (s.control) free in
      (
        s',
        negotiate_free w sid s free named told ∙ e,
        requests ∙ asked,
        ap (λ m. m channel) streams ∙ ground (arith, here),
      )

  poll_live :
      (quiet rest : List (World × Poll)) (w : World) (c a : ℕ) (sdp : List ℕ) (s : Source)
      → AreQuiet quiet
      → s.control.streams channel ≡ some a
      → poll config plugin_url (quiet ++ (w, said (c ∷ sdp)) ∷ rest) s ≡ crashed (refused w s)
  unfolding poll
  poll_live quiet rest w c a sdp s plain live =
      poll_quiet quiet ((w, said (c ∷ sdp)) ∷ rest) s plain
      ∙ rw (negotiate_live w a s live, poll) refl

  poll_offer :
      (polls : List (World × Poll)) (w : World) (c : ℕ) (sdp : List ℕ) (s s' : Source)
      → negotiate w config plugin_url s ≡ negotiated s'
      → poll config plugin_url ((w, said (c ∷ sdp)) ∷ polls) s ≡ poll config plugin_url polls s'
  unfolding poll
  poll_offer polls w c sdp s s' e = rw (e, poll) refl

  refused_requests :
      (w : World) (a : ℕ) (s : Source)
      → s.control.streams channel ≡ some a
      → ((refused w s).control.requests ≡ s.control.requests)
        × ((refused w s).control.streams channel ≡ some a)
  unfolding new_stream
  refused_requests w a s live = (ground arith, ground arith)

  -- Two offers in one session, between and after whatever other answers to the long poll: where the first has
  -- led to a stream, the second ends the process, while the stream is in the map and the service and the
  -- orchestrator have been asked to start it and never to stop it. The channel had no stream before, both
  -- agree to the start, and nothing fails in the first negotiation.
  pub poll_two_offers :
      (quiet quiet' rest : List (World × Poll)) (w w' : World) (c c' sid : ℕ) (sdp sdp' : List ℕ)
      (s : Source)
      → AreQuiet quiet
      → AreQuiet quiet'
      → s.control.streams channel ≡ none
      → w.starting.starts ≡ some sid
      → w.starting.announces ≡ true
      → agrees w ≡ true
      → (s' : Source) × (poll config plugin_url
            (quiet ++ (w, said (c ∷ sdp)) ∷ (quiet' ++ (w', said (c' ∷ sdp')) ∷ rest))
            s
          ≡ crashed s')
        × (s'.control.streams channel ≡ some s.control.next)
        × (s'.control.requests
            ≡ orchestrator_start channel sid ∷ service_start channel ∷ s.control.requests)
  poll_two_offers quiet quiet' rest w w' c c' sid sdp sdp' s plain plain' free named told agreed =
      let (first, e, requests, live) = negotiate_told w sid s free named told in
      let (same, still) = refused_requests w' s.control.next first live in
      let second = quiet' ++ (w', said (c' ∷ sdp')) ∷ rest in
      (
        refused w' first,
        poll_quiet quiet ((w, said (c ∷ sdp)) ∷ second) s plain
            ∙ poll_offer second w c sdp s first (ground (arith, e, agreed))
            ∙ poll_live quiet' rest w' c' s.control.next sdp' first plain' live,
        still,
        same ∙ requests,
      )
