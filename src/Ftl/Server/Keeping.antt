-- ===== src/Ftl/Server/Keeping.antt =====
-- server.go: what a handler's methods keep, every run of commands keeps.
use waveguide.Base.{
  ℕ, ◌≡◌, Bool, true, false, List, [], ◌∷◌, arith, ◌⊎◌, returns, Bool-cases, Option-cases,
  Outcome-cases, inl, inr, ◌>>=◌, ◌%◌, ◌^◌,
}
use waveguide.Base.Text.{ascii, eq_bytes, contains}
use waveguide.Ftl.Regex.{match_connect, match_attribute}
use waveguide.Ftl.Connection.{Metadata, Handler, System, Session, Reply}
use waveguide.Ftl.Server.{
  atoi, send_message, close, process_hmac, check_hash, start_channel, process_connect,
  process_attribute, listen_for_media, play, process_dot, process_ping, process_command, serve,
}

-- Something that the methods of a handler keep.
pub record IsKeeper (H : Handler) (I : H.State → Type 0) : Type 0 where
  pub connect : (id : ℕ) (s : H.State) → I s → I (H.on_connect id s).1
  pub play : (m : Metadata) (s : H.State) → I s → I (H.on_play m s).1
  pub close : (s s' : H.State) → I s → H.on_close s ≡ returns s' → I s'

module _ (H : Handler) (mac : List ℕ → List ℕ → List ℕ) (I : H.State → Type 0)
    (keeper : IsKeeper H I) where
  open H use {State}

  close_keeps :
      (sys : System) (s : Session State) {r : Reply State}
      → close H mac sys s ≡ returns r
      → I s.state
      → I r.session.state
  unfolding close
  close_keeps sys s {r} e kept = elim (Outcome-cases (H.on_close s.state)) [
    | inl panics ↦ absurd (ground arith)
    | inr (s', closed) ↦
        let same : r.session.state ≡ s' = ground arith in
        rw same (keeper.close s.state s' kept closed)
  ]

  hmac_keeps :
      (sys : System) (s : Session State) → (process_hmac H mac sys s).session.state ≡ s.state
  unfolding process_hmac send_message
  hmac_keeps sys s = ground arith

  ping_keeps :
      (sys : System) (s : Session State) → (process_ping H mac sys s).session.state ≡ s.state
  unfolding process_ping send_message
  ping_keeps sys s = ground arith

  check_hash_keeps :
      (sys : System) (key hash : List ℕ) (s : Session State)
      → (check_hash H mac sys key hash s).session.state ≡ s.state
  unfolding check_hash send_message
  check_hash_keeps sys key hash s = ground arith

  start_channel_state :
      (sys : System) (n : ℕ) (hash : List ℕ) (s : Session State)
      → (start_channel H mac sys n hash s).session.state ≡ (H.on_connect (n % 2 ^ 32) s.state).1
  unfolding start_channel
  start_channel_state sys n hash s = grind (arith, check_hash_keeps)

  connect_state :
      (sys : System) (command : List ℕ) (s : Session State)
      → let s' = (process_connect H mac sys command s).session.state in
        (s' ≡ s.state) ⊎ ((n : ℕ) × (s' ≡ (H.on_connect n s.state).1))
  unfolding process_connect
  connect_state sys command s = elim (Bool-cases (s.conn.hmac_requested)) [
    | inl again ↦ inl (ground (arith, again))
    | inr first ↦ elim (Option-cases (match_connect command)) [
      | inl no_match ↦ inl (ground (arith, first, no_match))
      | inr ((id, hash), m) ↦ elim (Option-cases (atoi id)) [
        | inl too_large ↦ inl (ground (arith, first, m, too_large))
        | inr (n, a) ↦
            let s' : Session State = record s {
              conn = record (s.conn) { hmac_requested = true };
            } in
            inr (n % 2 ^ 32, ground (arith, first, m, a, start_channel_state sys n hash s'))
      ]
    ]
  ]

  connect_keeps :
      (sys : System) (command : List ℕ) (s : Session State)
      → I s.state
      → I (process_connect H mac sys command s).session.state
  connect_keeps sys command s kept = elim (connect_state sys command s) [
    | inl same ↦ rw same kept
    | inr (n, e) ↦ rw e (keeper.connect n s.state kept)
  ]

  attribute_keeps :
      (command : List ℕ) (s : Session State)
      → (process_attribute H mac command s).session.state ≡ s.state
  unfolding process_attribute
  attribute_keeps command s = ground arith

  play_state :
      (sys : System) (s : Session State)
      → (play H mac sys s).session.state ≡ (H.on_play (s.conn.metadata) s.state).1
  unfolding play send_message
  play_state sys s = ground arith

  listen_keeps :
      (sys : System) (s : Session State) → (listen_for_media H mac sys s).session.state ≡ s.state
  unfolding listen_for_media
  listen_keeps sys s = ground arith

  dot_state :
      (sys : System) (s : Session State)
      → let s' = (process_dot H mac sys s).session.state in
        (s' ≡ s.state) ⊎ ((m : Metadata) × (s' ≡ (H.on_play m s.state).1))
  unfolding process_dot
  dot_state sys s = elim (Bool-cases (s.conn.has_authenticated)) [
    | inr before ↦ inl (ground (arith, before))
    | inl proved ↦ elim (Option-cases ((listen_for_media H mac sys s).error)) [
      | inr (x, failed) ↦ inl (ground (arith, proved, failed, listen_keeps sys s))
      | inl heard ↦
          let s' = (listen_for_media H mac sys s).session in
          inr
            (s'.conn.metadata, ground (arith, proved, heard, listen_keeps sys s, play_state sys s'))
    ]
  ]

  dot_keeps :
      (sys : System) (s : Session State) → I s.state → I (process_dot H mac sys s).session.state
  dot_keeps sys s kept = elim (dot_state sys s) [
    | inl same ↦ rw same kept
    | inr (m, e) ↦ rw e (keeper.play m s.state kept)
  ]

  -- The command is one of those above, or changes nothing.
  process_command_keeps :
      (sys : System) (command : List ℕ) (s : Session State) {r : Reply State}
      → process_command H mac sys command s ≡ returns r
      → I s.state
      → I r.session.state
  unfolding process_command
  process_command_keeps sys command s {r} e kept =
      elim (Bool-cases (eq_bytes command (ascii "HMAC"))) [
        | inl hmac ↦
            let same : r.session.state ≡ s.state = ground (arith, hmac_keeps sys s) in rw same kept
        | inr h ↦ elim (Bool-cases (contains command (ascii "DISCONNECT"))) [
          | inl disconnect ↦ close_keeps sys s {r = r} (ground arith) kept
          | inr d ↦ elim (Bool-cases (contains command (ascii "CONNECT"))) [
            | inl connect ↦
                let same : r ≡ process_connect H mac sys command s = ground arith in
                rw same (connect_keeps sys command s kept)
            | inr c ↦ elim (Bool-cases (contains command (ascii "PING"))) [
              | inl ping ↦
                  let same : r.session.state ≡ s.state = ground (arith, ping_keeps sys s) in
                  rw same kept
              | inr p ↦ elim (Option-cases (match_attribute command)) [
                | inr (m, attribute) ↦
                    let same : r.session.state ≡ s.state =
                      ground (arith, attribute_keeps command s) in
                    rw same kept
                | inl other ↦ elim (Bool-cases (eq_bytes command (ascii "."))) [
                  | inl dot ↦
                      let same : r ≡ process_dot H mac sys s = ground arith in
                      rw same (dot_keeps sys s kept)
                  | inr unknown ↦
                      let same : r.session.state ≡ s.state = ground arith in rw same kept
                ]
              ]
            ]
          ]
        ]
      ]

  serve_closing_keeps :
      (sys : System) (s : Session State) {s' : Session State}
      → (close H mac sys s >>= λ closed. returns (closed.session)) ≡ returns s'
      → I s.state
      → I s'.state
  serve_closing_keeps sys s {s'} e kept = elim (Outcome-cases (close H mac sys s)) [
    | inl crashed ↦ absurd (ground arith)
    | inr (r, done) ↦
        let same : s'.state ≡ r.session.state = ground arith in
        rw same (close_keeps sys s {r = r} done kept)
  ]

  pub serve_keeps :
      (commands : List (System × List ℕ)) (clean : Bool) (last : System) (s : Session State)
      {s' : Session State}
      → serve H mac commands clean last s ≡ returns s'
      → I s.state
      → I s'.state
  unfolding serve
  serve_keeps [] true last s {s'} e kept = let same : s' ≡ s = ground arith in rw same kept
  serve_keeps [] false last s {s'} e kept = serve_closing_keeps last s {s' = s'} e kept
  serve_keeps ((sys, []) ∷ rest) clean last s {s'} e kept = elim (Bool-cases (s.conn.connected)) [
    | inl up ↦ serve_keeps rest clean last s {s' = s'} (ground arith) kept
    | inr down ↦ let same : s' ≡ s = ground arith in rw same kept
  ]
  serve_keeps ((sys, c ∷ payload) ∷ rest) clean last s {s'} e kept =
      elim (Bool-cases (s.conn.connected)) [
        | inr down ↦ let same : s' ≡ s = ground arith in rw same kept
        | inl up ↦ elim (Outcome-cases (process_command H mac sys (c ∷ payload) s)) [
          | inl crashed ↦ absurd (ground arith)
          | inr (r, p) ↦
              let next = process_command_keeps sys (c ∷ payload) s {r = r} p kept in
              elim (Option-cases (r.error)) [
                | inl fine ↦ serve_keeps rest clean last (r.session) {s' = s'} (ground arith) next
                | inr (x, failed) ↦
                    serve_closing_keeps sys (r.session) {s' = s'} (ground arith) next
              ]
        ]
      ]
