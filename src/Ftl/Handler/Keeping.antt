-- ===== src/Ftl/Handler/Keeping.antt =====
-- server.go and ftl.go: connections that are served one after another on one manager.
use waveguide.Base.{
  ℕ, ◌≡◌, Bool, Option, none, some, List, [], ◌∷◌, arith, Outcome, returns, ◌>>=◌, Bool-cases,
  Option-cases, Outcome-cases, inl, inr,
}
use waveguide.Control.Types.{Stream, Control}
use waveguide.Control.Manager.{Started}
use waveguide.Control.Stream.{
  add_track, report_metadata, apply_metadata, client_vendor_name, client_vendor_version,
}
use waveguide.Control.Rules.{IsWell, stop_stream-IsWell}
use waveguide.Control.Lifecycle.{start_stream_atomic}
use waveguide.Ftl.Connection.{Metadata, System, Session, new_connection}
use waveguide.Ftl.Server.{serve}
use waveguide.Ftl.Server.Keeping.{IsKeeper, serve_keeps}
use waveguide.Ftl.Handler.{
  World, ConnHandler, new_handler, modify, describe_stream, after_start, on_connect, on_play,
  on_close, handler,
}

-- The manager of a handler satisfies the manager's invariant.
abbrev pub HasWell : ConnHandler → Type 0
HasWell c = IsWell c.control

describe_stream-IsWell : (a : ℕ) (c : Control) → IsWell c → IsWell (modify a describe_stream c)
unfolding report_metadata apply_metadata add_track
describe_stream-IsWell a c well j b e = ground (arith, well j b e)

abbrev named : Metadata → Stream → Stream
named m =
    report_metadata
      (client_vendor_name (m.vendor_name) ∷ client_vendor_version (m.vendor_version) ∷ [])

named-IsWell : (a : ℕ) (m : Metadata) (c : Control) → IsWell c → IsWell (modify a (named m) c)
unfolding report_metadata apply_metadata
named-IsWell a m c well j b e = ground (arith, well j b e)

after_start-HasWell :
    (c : ConnHandler) (s : Started) → IsWell s.control → HasWell (after_start c s).1
after_start-HasWell c s well = elim (Option-cases (s.error)) [
  | inr (x, failed) ↦ rw failed well
  | inl fine ↦ elim (Bool-cases (c.world.video_track_made)) [
    | inr no_video ↦ rw (fine, no_video) well
    | inl made ↦ elim (Bool-cases (c.world.audio_track_made)) [
      | inr no_audio ↦ rw (fine, made, no_audio) well
      | inl both ↦ rw (fine, made, both) (describe_stream-IsWell s.ctx s.control well)
    ]
  ]
]

on_connect-HasWell : (id : ℕ) (c : ConnHandler) → HasWell c → HasWell (on_connect id c).1
unfolding on_connect
on_connect-HasWell id c well =
    let (s, e, well', _) =
      start_stream_atomic (c.world.starting) (c.world.stopping) id (c.control) well in
    rw (e, on_connect) (after_start-HasWell (record c { channel_id = id }) s well')

on_play-HasWell : (m : Metadata) (c : ConnHandler) → HasWell c → HasWell (on_play m c).1
unfolding on_play
on_play-HasWell m c well = elim (Option-cases (c.stream)) [
  | inl nothing ↦ rw (nothing, on_play) well
  | inr (a, some_stream) ↦ rw (some_stream, on_play) (named-IsWell a m c.control well)
]

on_close-HasWell : (c c' : ConnHandler) → HasWell c → on_close c ≡ returns c' → HasWell c'
unfolding on_close
on_close-HasWell c c' well e = elim (Option-cases (c.control_ctx)) [
  | inl nothing ↦ absurd (ground arith)
  | inr (ctx, there) ↦ elim (Bool-cases ((c.control.heap ctx).cancelled)) [
    | inl over ↦ let same : c' ≡ c = ground arith in rw same well
    | inr running ↦
        let (r, stopped, well') =
          stop_stream-IsWell (c.world.closing) (c.channel_id) (c.control) well in
        let same : c'.control ≡ r.1 = ground arith in rw same well'
  ]
]

handler-IsKeeper : IsKeeper handler HasWell
handler-IsKeeper = record {
  connect = on_connect-HasWell;
  play = on_play-HasWell;
  close = on_close-HasWell;
}

-- A socket: what the world answers to its handler, and the lines that the client sends.
pub record Socket : Type 0 where
  pub world : World
  pub lines : List (System × List ℕ)
  pub clean : Bool
  pub last : System

-- `Serve` over what `Accept` returns, where `none` is an error, which is passed over. The connections are
-- served to their end one by one here.
unfoldable pub accept :
    (List ℕ → List ℕ → List ℕ) → List (Option Socket) → Control → Outcome Control
accept mac [] c = returns c
accept mac (none ∷ sockets) c = accept mac sockets c
accept mac (some k ∷ sockets) c =
    serve handler mac k.lines k.clean k.last
      (record { conn = new_connection; state = new_handler k.world c })
    >>= λ s. accept mac sockets (s.state.control)

-- Whatever clients connect one after another, whatever lines they send and whatever the service, the
-- orchestrator and the systems answer: the manager's invariant is kept, unless a handler panics.
pub accept-IsWell :
    (mac : List ℕ → List ℕ → List ℕ) (sockets : List (Option Socket)) (c : Control) {c' : Control}
    → accept mac sockets c ≡ returns c'
    → IsWell c
    → IsWell c'
unfolding accept
accept-IsWell mac [] c {c'} e well = let same : c' ≡ c = ground arith in rw same well
accept-IsWell mac (none ∷ sockets) c {c'} e well = accept-IsWell mac sockets c {c' = c'} e well
accept-IsWell mac (some k ∷ sockets) c {c'} e well =
    let fresh : Session ConnHandler = record {
      conn = new_connection;
      state = new_handler k.world c;
    } in
    elim (Outcome-cases (serve handler mac k.lines k.clean k.last fresh)) [
      | inl crashed ↦ absurd (ground arith)
      | inr (s, served) ↦ accept-IsWell mac sockets (s.state.control) {c' = c'} (ground arith) (
          serve_keeps handler mac HasWell handler-IsKeeper k.lines k.clean k.last fresh {s' = s}
            served well)
    ]
