-- ===== src/Ftl/Handler/Attack.antt =====
-- What a client that holds no key can do.
use waveguide.Base.{
  ℕ, ◌%◌, ◌^◌, ◌≡◌, ◌≢◌, refl, ◌∙◌, Bool, true, false, none, some, List, [], ◌∷◌, arith, returns,
  panic, ◌>>=◌,
}
use waveguide.Base.Text.{ascii, eq_bytes, contains}
use waveguide.Control.Types.{Control}
use waveguide.Control.Manager.{new_stream}
use waveguide.Control.Rules.{IsWell, new_stream-IsWell, new_stream_running, stop_stream_mapped}
use waveguide.Control.Lifecycle.{new_stream_taken, start_stream_taken}
use waveguide.Ftl.Regex.{match_connect}
use waveguide.Ftl.Connection.{System, Session, new_connection, handler_failed}
use waveguide.Ftl.Server.{atoi, close, start_channel, process_connect, process_command, serve}
use waveguide.Ftl.Handler.{ConnHandler, World, new_handler, on_connect, on_close, handler}

-- The handler of a second connection to a channel that is live.
on_connect_taken :
    (c : ConnHandler) (id a : ℕ)
    → c.control.streams id ≡ some a
    → on_connect id c ≡ (
      false,
      record c {
        channel_id = id;
        control = (new_stream id c.world.starting.now c.control).1;
        control_ctx = some c.control.next;
        stream = none;
      },
    )
unfolding on_connect
on_connect_taken c id a e =
    rw (start_stream_taken c.world.starting c.world.stopping id a c.control e, on_connect)

-- That handler: `OnConnect` has failed, and it holds the open context of a stream of its own.
abbrev intruder : ℕ → ConnHandler → ConnHandler
intruder id c = record c {
  channel_id = id;
  control = (new_stream id c.world.starting.now c.control).1;
  control_ctx = some c.control.next;
  stream = none;
}

-- Its `OnClose` stops the stream that was live.
on_close_intruder :
    (c : ConnHandler) (id a : ℕ)
    → IsWell c.control
    → c.control.streams id ≡ some a
    → (h : ConnHandler) × (on_close (intruder id c) ≡ returns h)
      × (h.control.streams id ≡ none)
      × ((h.control.heap a).cancelled ≡ true)
unfolding on_close
on_close_intruder c id a w e =
    let now = c.world.starting.now in
    let c' : Control = (new_stream id now c.control).1 in
    let mapped : c'.streams id ≡ some a = (new_stream_taken id now a c.control e).1 id ∙ e in
    let (r, stops, _, stopped, _) =
      stop_stream_mapped c.world.closing id a c' (new_stream-IsWell id now c.control w) mapped in
    (
      record (intruder id c) { control = r.1 },
      rw (new_stream_running id now c.control, stops, on_close),
      stopped.gone,
      stopped.cancelled,
    )

module _ (mac : List ℕ → List ℕ → List ℕ) where
  -- The session once CONNECT has been refused.
  abbrev refused : ℕ → World → Control → Session ConnHandler
  refused n w c = record {
    conn = record new_connection { hmac_requested = true; channel_id = n };
    state = intruder (n % 2 ^ 32) (new_handler w c);
  }

  process_command-refused :
      (sys : System) (command id hash : List ℕ) (n a : ℕ) (w : World) (c : Control)
      → eq_bytes command (ascii "HMAC") ≡ false
      → contains command (ascii "DISCONNECT") ≡ false
      → contains command (ascii "CONNECT") ≡ true
      → match_connect command ≡ some (id, hash)
      → atoi id ≡ some n
      → c.streams (n % 2 ^ 32) ≡ some a
      → process_command handler mac sys command
          (record { conn = new_connection; state = new_handler w c })
        ≡ returns (record { error = some handler_failed; session = refused n w c })
  unfolding process_command process_connect start_channel
  process_command-refused sys command id hash n a w c no_hmac no_end connects m digits live = rw (
    no_hmac,
    no_end,
    connects,
    m,
    digits,
    on_connect_taken (new_handler w c) (n % 2 ^ 32) a live,
    process_command,
    process_connect,
    start_channel,
  )

  close-refused :
      (sys : System) (n : ℕ) (w : World) (c : Control) {h : ConnHandler}
      → on_close (intruder (n % 2 ^ 32) (new_handler w c)) ≡ returns h
      → (close handler mac sys (refused n w c) >>= λ closed. returns (closed.session))
        ≡ returns (record {
          conn = record new_connection { hmac_requested = true; channel_id = n; connected = false };
          state = h;
        })
  unfolding close
  close-refused sys n w c e = rw (e, close) (ground arith)

  -- A second CONNECT to a live channel, with any hash and no HMAC before it, ends the stream of that
  -- channel: it leaves the map and its context is cancelled, and the connection is closed.
  pub connect_kills_stream :
      (sys last : System) (command id hash : List ℕ) (n a : ℕ) (clean : Bool)
      (rest : List (System × List ℕ)) (w : World) (c : Control)
      → command ≢ []
      → eq_bytes command (ascii "HMAC") ≡ false
      → contains command (ascii "DISCONNECT") ≡ false
      → contains command (ascii "CONNECT") ≡ true
      → match_connect command ≡ some (id, hash)
      → atoi id ≡ some n
      → IsWell c
      → c.streams (n % 2 ^ 32) ≡ some a
      → (s : Session ConnHandler) × (serve handler mac
            ((sys, command) ∷ rest)
            clean
            last
            (record { conn = new_connection; state = new_handler w c })
          ≡ returns s)
        × (s.conn.connected ≡ false)
        × (s.state.control.streams (n % 2 ^ 32) ≡ none)
        × ((s.state.control.heap a).cancelled ≡ true)
  unfolding serve close
  connect_kills_stream sys last [] id hash n a clean rest w c some_text _ _ _ _ _ _ _ =
      absurd (some_text refl)
  connect_kills_stream sys last (x ∷ command) id hash n a clean rest w c some_text no_hmac no_end
        connects m digits well live =
      let (h, closed, gone, cancelled) =
        on_close_intruder (new_handler w c) (n % 2 ^ 32) a well live in
      (
        record {
          conn = record new_connection { hmac_requested = true; channel_id = n; connected = false };
          state = h;
        },
        rw
            (
              process_command-refused sys (x ∷ command) id hash n a w c no_hmac no_end connects m
                  digits live,
              serve,
            )
            (close-refused sys n w c closed),
        refl,
        gone,
        cancelled,
      )

  crash :
      (sys : System) (command : List ℕ) (w : World) (c : Control)
      → eq_bytes command (ascii "HMAC") ≡ false
      → contains command (ascii "DISCONNECT") ≡ true
      → process_command handler mac sys command
          (record { conn = new_connection; state = new_handler w c })
        ≡ panic
  unfolding process_command close on_close
  crash sys command w c no_hmac ends = rw (no_hmac, ends, process_command)

  -- A client whose first command is DISCONNECT makes the handler's `OnClose` panic, whatever follows.
  pub disconnect_panics :
      (sys last : System) (command : List ℕ) (clean : Bool) (rest : List (System × List ℕ))
      (w : World) (c : Control)
      → eq_bytes command (ascii "HMAC") ≡ false
      → contains command (ascii "DISCONNECT") ≡ true
      → serve handler mac
          ((sys, command) ∷ rest)
          clean
          last
          (record { conn = new_connection; state = new_handler w c })
        ≡ panic
  unfolding serve
  disconnect_panics sys last [] clean rest w c no_hmac ends = cc
  disconnect_panics sys last (x ∷ command) clean rest w c no_hmac ends =
      rw (crash sys (x ∷ command) w c no_hmac ends, serve)
