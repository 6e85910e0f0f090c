-- ===== src/Ftl/Server/Serving.antt =====
-- The life of a control connection: what `Serve` makes of a run of commands.
use waveguide.Base.{
  ℕ, ◌≡◌, refl, ap, sym, ◌∙◌, subst, Bool, true, false, List, [], ◌∷◌, arith, returns, Bool-cases,
  Option-cases, Outcome-cases, inl, inr, ◌⊎◌, ◌>>=◌,
}
use waveguide.Ftl.Connection.{Handler, System, Session, Reply}
use waveguide.Ftl.Server.{
  send_message, close, close_media, process_hmac, check_hash, start_channel, process_connect,
  process_attribute, listen_for_media, play, process_dot, process_ping, process_command, serve,
}

abbrev pub AreOpen : List Bool → Type 0
AreOpen [] = Unit
AreOpen (o ∷ sockets) = (o ≡ true) × AreOpen sockets

abbrev pub some_socket : List Bool → Bool
some_socket [] = false
some_socket (o ∷ sockets) = true

-- Of the UDP sockets, the latest first, that one is closed and the older ones are open.
abbrev pub OnlyLastClosed : List Bool → Type 0
OnlyLastClosed [] = Unit
OnlyLastClosed (latest ∷ older) = (latest ≡ false) × AreOpen older

module _ (H : Handler) (mac : List ℕ → List ℕ → List ℕ) where
  open H use {State, on_close}

  -- What a command leaves alone unless it starts the media or ends the connection.
  abbrev Keeps : Session State → Session State → Type 0
  Keeps s s' =
      (s'.conn.connected ≡ s.conn.connected)
      × (s'.conn.media_connected ≡ s.conn.media_connected)
      × (s'.conn.media_sockets ≡ s.conn.media_sockets)

  -- A connection that is served: every UDP socket that was made for it is open, and `mediaConnected` tells
  -- whether there is one.
  abbrev pub IsUp : Session State → Type 0
  IsUp s =
      (s.conn.connected ≡ true)
      × AreOpen s.conn.media_sockets
      × (s.conn.media_connected ≡ some_socket s.conn.media_sockets)

  -- A connection that has been closed: the last UDP socket is closed and the others are open.
  abbrev pub IsDown : Session State → Type 0
  IsDown s =
      (s.conn.connected ≡ false)
      × (s.conn.media_connected ≡ false)
      × OnlyLastClosed s.conn.media_sockets

  IsUp-Keeps : (s s' : Session State) → IsUp s → Keeps s s' → IsUp s'
  IsUp-Keeps s s' (up, open_sockets, flag) (same, same_flag, same_sockets) = (
    same ∙ up,
    subst AreOpen (sym same_sockets) open_sockets,
    same_flag ∙ flag ∙ ap some_socket (sym same_sockets),
  )

  close_media-OnlyLastClosed :
      (flag : Bool) (sockets : List Bool)
      → AreOpen sockets
      → flag ≡ some_socket sockets
      → OnlyLastClosed (close_media H mac flag sockets)
  close_media-OnlyLastClosed true [] all_open e = tt
  close_media-OnlyLastClosed false [] all_open e = tt
  close_media-OnlyLastClosed true (o ∷ older) all_open e = (refl, all_open.1)
  close_media-OnlyLastClosed false (o ∷ older) all_open e = absurd (ground arith)

  close-IsDown :
      (sys : System) (s : Session State) {r : Reply State}
      → IsUp s
      → close H mac sys s ≡ returns r
      → IsDown r.session
  unfolding close
  close-IsDown sys s {r} (up, all_open, flag) e =
      let shut =
        close_media-OnlyLastClosed (s.conn.media_connected) (s.conn.media_sockets) all_open flag in
      let sockets : r.session.conn.media_sockets
          ≡ close_media H mac (s.conn.media_connected) (s.conn.media_sockets) =
        ground arith in
      (ground arith, ground arith, subst OnlyLastClosed (sym sockets) shut)

  -- A second `Close` touches no socket.
  close_again :
      (sys : System) (s : Session State) {r : Reply State}
      → IsDown s
      → close H mac sys s ≡ returns r
      → IsDown r.session
  unfolding close
  close_again sys s {r} (off, flag, sockets) e =
      let same : r.session.conn.media_sockets ≡ s.conn.media_sockets = ground arith in
      (ground arith, ground arith, subst OnlyLastClosed (sym same) sockets)

  hmac-Keeps : (sys : System) (s : Session State) → Keeps s (process_hmac H mac sys s).session
  unfolding process_hmac send_message
  hmac-Keeps sys s = ground arith

  ping-Keeps : (sys : System) (s : Session State) → Keeps s (process_ping H mac sys s).session
  unfolding process_ping send_message
  ping-Keeps sys s = ground arith

  check_hash-Keeps :
      (sys : System) (key hash : List ℕ) (s : Session State)
      → Keeps s (check_hash H mac sys key hash s).session
  unfolding check_hash send_message
  check_hash-Keeps sys key hash s = ground arith

  start_channel-Keeps :
      (sys : System) (n : ℕ) (hash : List ℕ) (s : Session State)
      → Keeps s (start_channel H mac sys n hash s).session
  unfolding start_channel
  start_channel-Keeps sys n hash s = grind (arith, check_hash-Keeps)

  connect-Keeps :
      (sys : System) (command : List ℕ) (s : Session State)
      → Keeps s (process_connect H mac sys command s).session
  unfolding process_connect
  connect-Keeps sys command s = grind (arith, start_channel-Keeps)

  attribute-Keeps :
      (command : List ℕ) (s : Session State) → Keeps s (process_attribute H mac command s).session
  unfolding process_attribute
  attribute-Keeps command s = ground arith

  play-Keeps : (sys : System) (s : Session State) → Keeps s (play H mac sys s).session
  unfolding play send_message
  play-Keeps sys s = ground arith

  listen-IsUp :
      (sys : System) (s : Session State) → IsUp s → IsUp (listen_for_media H mac sys s).session
  unfolding listen_for_media
  listen-IsUp sys s (up, all_open, flag) = elim (Option-cases (sys.udp_port)) [
    | inl failed ↦ rw failed (up, all_open, flag)
    | inr (port, made) ↦ elim (Bool-cases (sys.nack_ready)) [
      | inl ready ↦ rw (made, ready) (up, (refl, all_open), refl)
      | inr unready ↦ rw (made, unready) (up, (refl, all_open), refl)
    ]
  ]

  dot-IsUp : (sys : System) (s : Session State) → IsUp s → IsUp (process_dot H mac sys s).session
  unfolding process_dot
  dot-IsUp sys s up = elim (Bool-cases (s.conn.has_authenticated)) [
    | inr stranger ↦ simp stranger up
    | inl proved ↦
        let heard = listen_for_media H mac sys s in
        let heard_up = listen-IsUp sys s up in
        elim (Option-cases (heard.error)) [
          | inr (x, failed) ↦ simp (proved, failed) heard_up
          | inl fine ↦
              simp (proved, fine)
                (IsUp-Keeps (heard.session) (play H mac sys (heard.session)).session heard_up
                  (play-Keeps sys (heard.session)))
        ]
  ]

  -- A command keeps the connection up, or closes it.
  process_command_ends :
      (sys : System) (command : List ℕ) (s : Session State) {r : Reply State}
      → process_command H mac sys command s ≡ returns r
      → IsUp s
      → IsUp r.session ⊎ IsDown r.session
  unfolding process_command
  process_command_ends sys command s {r} e up = ground (
    arith,
    close-IsDown sys s {r = r} up,
    IsUp-Keeps s (process_hmac H mac sys s).session up (hmac-Keeps sys s),
    IsUp-Keeps s (process_ping H mac sys s).session up (ping-Keeps sys s),
    IsUp-Keeps s (process_connect H mac sys command s).session up (connect-Keeps sys command s),
    IsUp-Keeps s (process_attribute H mac command s).session up (attribute-Keeps command s),
    dot-IsUp sys s up,
  )

  serve_closing :
      (sys : System) (s : Session State) {s' : Session State}
      → IsUp s ⊎ IsDown s
      → (close H mac sys s >>= λ closed. returns (closed.session)) ≡ returns s'
      → IsDown s'
  serve_closing sys s {s'} h e = elim (Outcome-cases (close H mac sys s)) [
    | inl crashed ↦ absurd (ground arith)
    | inr (r, done) ↦
        let same : r.session ≡ s' = ground arith in
        subst IsDown same (elim h [
          | inl up ↦ close-IsDown sys s {r = r} up done
          | inr down ↦ close_again sys s {r = r} down done
        ])
  ]

  -- When the loop over a connection that is up or closed is left, the connection is closed, with the last of
  -- its UDP sockets, or the input has ended without an error and the connection is up. In either case the
  -- UDP sockets before the last, which further `.` commands leave behind, stay open.
  pub serve_ends :
      (commands : List (System × List ℕ)) (clean : Bool) (last : System) (s : Session State)
      {s' : Session State}
      → IsUp s ⊎ IsDown s
      → serve H mac commands clean last s ≡ returns s'
      → IsDown s' ⊎ ((clean ≡ true) × IsUp s')
  unfolding serve
  serve_ends [] true last s {s'} h e =
      let same : s ≡ s' = ground arith in
      elim h [ inl up ↦ inr (refl, subst IsUp same up) | inr down ↦ inl (subst IsDown same down) ]
  serve_ends [] false last s {s'} h e = inl (serve_closing last s h e)
  serve_ends ((sys, []) ∷ rest) clean last s {s'} h e = elim h [
    | inl up ↦ let on = up.0 in serve_ends rest clean last s {s' = s'} (inl up) (ground arith)
    | inr down ↦
        let off = down.0 in let same : s ≡ s' = ground arith in inl (subst IsDown same down)
  ]
  serve_ends ((sys, c ∷ payload) ∷ rest) clean last s {s'} h e = elim h [
    | inr down ↦
        let same : s ≡ s' = (let off = down.0 in ground arith) in inl (subst IsDown same down)
    | inl up ↦
        let on = up.0 in
        elim (Outcome-cases (process_command H mac sys (c ∷ payload) s)) [
          | inl crashed ↦ absurd (ground arith)
          | inr (r, p) ↦
              let after = process_command_ends sys (c ∷ payload) s {r = r} p up in
              elim (Option-cases (r.error)) [
                | inl fine ↦ serve_ends rest clean last (r.session) {s' = s'} after (ground arith)
                | inr (x, failed) ↦
                    inl (serve_closing sys (r.session) {s' = s'} after (ground arith))
              ]
        ]
  ]
