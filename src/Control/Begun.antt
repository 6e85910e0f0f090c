-- ===== src/Control/Begun.antt =====
-- control.go: the state that a successful StartStream leaves, written out.
use waveguide.Base.{ℕ, ◌≡◌, ◌∙◌, true, none, some, ◌∷◌, arith, ◌==◌, if◌then◌else◌}
use waveguide.Control.Types.{service_start, orchestrator_start, Answers, Control, finished}
use waveguide.Control.Manager.{start_stream, announced, new_stream}
use waveguide.Control.Rules.{IsWell}
use waveguide.Control.Lifecycle.{
  entered, entered_streams, entered-IsWell, announced-IsWell, conclude_succeeds, start_named,
}

-- The new stream is in the map and both parties have been asked.
abbrev pub begun : ℕ → ℕ → ℕ → Control → Control
begun id now sid c = announced c.next sid (entered id now c)

pub begun_told :
    (id now sid : ℕ) (c : Control)
    → c.streams id ≡ none
    → ((begun id now sid c).requests ≡ orchestrator_start id sid ∷ service_start id ∷ c.requests)
      × (((begun id now sid c).heap c.next).stream_id ≡ sid)
      × (((begun id now sid c).heap c.next).channel_id ≡ id)
unfolding new_stream
begun_told id now sid c free = (ground arith, ground arith, ground arith)

pub begun_streams :
    (id now sid j : ℕ) (c : Control)
    → c.streams id ≡ none
    → (begun id now sid c).streams j ≡ (if j == id then some c.next else c.streams j)
begun_streams id now sid j c free = entered_streams id now j c free

pub begun-IsWell : (id now sid : ℕ) (c : Control) → IsWell c → IsWell (begun id now sid c)
begun-IsWell id now sid c w =
    announced-IsWell c.next sid (entered id now c) (entered-IsWell id now c w)

pub start_stream-begun :
    (ans stopping : Answers) (id sid : ℕ) (c : Control)
    → c.streams id ≡ none
    → ans.starts ≡ some sid
    → ans.announces ≡ true
    → start_stream ans stopping id c
      ≡ finished (record {
        stream = some c.next;
        ctx = c.next;
        error = none;
        control = begun id ans.now sid c;
      })
start_stream-begun ans stopping id sid c free named told =
    let (e, started) = conclude_succeeds ans stopping id sid c free named told in
    start_named ans stopping id sid c free named ∙ e
