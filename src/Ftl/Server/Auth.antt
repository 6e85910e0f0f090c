-- ===== src/Ftl/Server/Auth.antt =====
-- Who is let in: what a command must carry for the connection to become authenticated.
use waveguide.Base.{
  ℕ, ◌%◌, ◌^◌, ◌≡◌, true, false, none, some, List, arith, returns, inl, inr, Option-cases,
}
use waveguide.Base.Text.{eq_bytes→eq, decode_hex}
use waveguide.Ftl.Regex.{match_connect}
use waveguide.Ftl.Connection.{Handler, System, Session, Reply, connect_before_auth}
use waveguide.Ftl.Server.{
  atoi, send_message, close, process_hmac, check_hash, start_channel, process_connect,
  process_attribute, process_dot, process_ping, process_command,
}

module _ (H : Handler) (mac : List ℕ → List ℕ → List ℕ) where
  open H use {State, get_hmac_key}

  -- The command names a hash that is the MAC of the challenge under the channel's key.
  pub record IsProof (command challenge : List ℕ) (state : State) : Type 0 where
    pub id : List ℕ
    pub hash : List ℕ
    pub key : List ℕ
    pub carries : match_connect command ≡ some (id, hash)
    pub keyed : get_hmac_key state ≡ some key
    pub answers : decode_hex hash ≡ some (mac key challenge)

  check_hash_sound :
      (sys : System) (key hash : List ℕ) (s : Session State)
      → (check_hash H mac sys key hash s).error ≡ none
      → (decode_hex hash ≡ some (mac key s.conn.hmac_payload))
        × ((check_hash H mac sys key hash s).session.state ≡ s.state)
  unfolding check_hash send_message
  check_hash_sound sys key hash s ok = elim (Option-cases (decode_hex hash)) [
    | inl bad ↦ ground arith
    | inr (bytes, e) ↦ ground (arith, eq_bytes→eq bytes (mac key s.conn.hmac_payload))
  ]

  start_channel_sound :
      (sys : System) (n : ℕ) (hash : List ℕ) (s : Session State)
      → let r = start_channel H mac sys n hash s in
        r.error ≡ none
        → (key : List ℕ) × (get_hmac_key r.session.state ≡ some key)
          × (decode_hex hash ≡ some (mac key s.conn.hmac_payload))
  unfolding start_channel
  start_channel_sound sys n hash s ok =
      elim (Option-cases (get_hmac_key (H.on_connect (n % 2 ^ 32) s.state).1)) [
        | inl no_key ↦ absurd (ground arith)
        | inr (key, e) ↦
            let s' : Session State = record {
              conn = record (s.conn) { channel_id = n };
              state = (H.on_connect (n % 2 ^ 32) s.state).1;
            } in
            (
              key,
              ground (arith, check_hash_sound sys key hash s'),
              ground (arith, check_hash_sound sys key hash s'),
            )
      ]

  process_connect_sound :
      (sys : System) (command : List ℕ) (s : Session State)
      → (process_connect H mac sys command s).error ≡ none
      → IsProof command s.conn.hmac_payload (process_connect H mac sys command s).session.state
  unfolding process_connect
  process_connect_sound sys command s ok = elim (Option-cases (match_connect command)) [
    | inl no_match ↦ absurd (ground arith)
    | inr ((id, hash), m) ↦ elim (Option-cases (atoi id)) [
      | inl too_large ↦ absurd (ground arith)
      | inr (n, a) ↦
          let s' : Session State = record s { conn = record (s.conn) { hmac_requested = true } } in
          let same : process_connect H mac sys command s ≡ start_channel H mac sys n hash s' =
            ground arith in
          let (key, keyed, answers) = start_channel_sound sys n hash s' (ground arith) in
          record {
            id = id;
            hash = hash;
            key = key;
            carries = m;
            keyed = rw same keyed;
            answers = answers;
          }
    ]
  ]

  -- No other command authenticates.
  close_keeps_auth :
      (sys : System) (s : Session State) {r : Reply State}
      → close H mac sys s ≡ returns r
      → r.session.conn.has_authenticated ≡ s.conn.has_authenticated
  unfolding close
  close_keeps_auth sys s e = ground arith

  hmac_keeps_auth :
      (sys : System) (s : Session State)
      → (process_hmac H mac sys s).session.conn.has_authenticated ≡ s.conn.has_authenticated
  unfolding process_hmac send_message
  hmac_keeps_auth sys s = ground arith

  ping_keeps_auth :
      (sys : System) (s : Session State)
      → (process_ping H mac sys s).session.conn.has_authenticated ≡ s.conn.has_authenticated
  unfolding process_ping send_message
  ping_keeps_auth sys s = ground arith

  -- Without authentication an attribute and the start of the media are refused, and change nothing.
  pub unauthenticated_refused :
      (sys : System) (command : List ℕ) (s : Session State)
      → s.conn.has_authenticated ≡ false
      → (process_attribute H mac command s
          ≡ record { error = some connect_before_auth; session = s })
        × (process_dot H mac sys s ≡ record { error = some connect_before_auth; session = s })
  unfolding process_attribute process_dot
  unauthenticated_refused sys command s before = (rw before, rw before)

  authenticates_by_connect :
      (sys : System) (command : List ℕ) (s : Session State) {r : Reply State}
      → process_command H mac sys command s ≡ returns r
      → s.conn.has_authenticated ≡ false
      → r.session.conn.has_authenticated ≡ true
      → process_connect H mac sys command s ≡ r
  unfolding process_command
  authenticates_by_connect sys command s {r} e before after = ground (
    arith,
    close_keeps_auth sys s {r = r},
    hmac_keeps_auth sys s,
    ping_keeps_auth sys s,
    unauthenticated_refused sys command s,
  )

  -- A command that is handled without an error on a connection that is not authenticated, and leaves
  -- it authenticated, carries the MAC of the challenge under the key that the handler holds.
  pub process_command_auth :
      (sys : System) (command : List ℕ) (s : Session State) {r : Reply State}
      → process_command H mac sys command s ≡ returns r
      → r.error ≡ none
      → s.conn.has_authenticated ≡ false
      → r.session.conn.has_authenticated ≡ true
      → IsProof command s.conn.hmac_payload r.session.state
  process_command_auth sys command s e ok before after =
      let by_connect = authenticates_by_connect sys command s e before after in
      rw by_connect at (process_connect_sound sys command s (rw by_connect ok))
