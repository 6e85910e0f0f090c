-- ===== src/Ftl/Client/Pings.antt =====
-- client.go: when `Heartbeat` gives the connection up.
use waveguide.Base.{
  ℕ, zero, suc, ◌+◌, ◌<◌, ◌≡◌, refl, true, none, some, List, [], ◌∷◌, ◌++◌, arith, leb,
  if◌then◌else◌,
}
use waveguide.Base.Text.{ascii}
use waveguide.Ftl.Client.{
  Answer, Conn, Tick, beat, write_failed, send_control_message, check_ftl_response, heartbeat,
  trim_right,
}

abbrev pub beats : ℕ → List Tick
beats zero = []
beats (suc n) = beat ∷ beats n

-- On a connection that takes no message, the heartbeat ends with the error at the fifth failure in a
-- row, those that were counted before included, and waits until then.
pub heartbeat_gives_up :
    (n : ℕ) (conn : Conn)
    → conn.answers ≡ []
    → conn.failed_heartbeats < 5
    → (heartbeat (beats n) conn).0
      ≡ (if leb 5 (conn.failed_heartbeats + n) then some write_failed else none)
unfolding heartbeat send_control_message check_ftl_response
heartbeat_gives_up zero conn broken few = ground arith
heartbeat_gives_up (suc n) conn broken few = ground (
  arith,
  heartbeat_gives_up n (record conn { failed_heartbeats = conn.failed_heartbeats + 1 }) broken,
)

-- An answer `201` starts the count again, whatever it was.
pub heartbeat_pong :
    (ticks : List Tick) (conn : Conn) (later : List Answer)
    → heartbeat
        (beat ∷ ticks)
        (record conn { answers = record { writes = true; line = some (ascii "201\n") } ∷ later })
      ≡ heartbeat ticks (record conn {
        failed_heartbeats = 0;
        sent = conn.sent ++ (ascii "PING\r\n\r\n" ∷ []);
        answers = later;
      })
unfolding heartbeat send_control_message check_ftl_response trim_right
heartbeat_pong ticks conn later = refl
