-- ===== src/Inputs/Rtmp/Session.antt =====
-- rtmp.go: a connection that publishes and closes.
use waveguide.Base.{
  ℕ, ◌≡◌, ◌≢◌, refl, sym, ap, ◌∙◌, ◌⊎◌, ◌↔◌, inl, inr, true, false, Option, none, some, List, [],
  ◌∷◌, arith, Option-cases, ◌==◌, if◌then◌else◌, returns, panic,
}
use waveguide.Base.Split.{split_two, parse_uint32}
use waveguide.Control.Types.{Control, finished}
use waveguide.Control.Manager.{authenticate, Started}
use waveguide.Control.Rules.{IsWell, stop_stream_map}
use waveguide.Control.Lifecycle.{IsStarted, IsRefused, start_stream_atomic}
use waveguide.Inputs.Rtmp.{
  World, ConnHandler, Error, new_handler, modify, name_client, init_media, after_start,
  begin_stream, with_channel, on_publish, reset_session, on_close, wrong_key,
}
use waveguide.Inputs.Rtmp.Kept.{
  IsKept, modify-IsKept, IsKept-trans, init_media-IsKept, name_client-IsHarmless,
}

-- The end of a connection whose stream is live: exactly its channel is gone afterwards.
close_ours :
    (w : World) (h : ConnHandler) (a : ℕ)
    → IsWell h.control
    → h.collection ≡ 0
    → h.authenticated ≡ true
    → h.control_ctx ≡ some a
    → h.control.streams h.channel_id ≡ some a
    → (h' : ConnHandler) × (on_close w h ≡ finished (returns h'))
      × IsWell h'.control
      × ((j : ℕ) → h'.control.streams j ≡ (if j == h.channel_id then none else h.control.streams j))
unfolding on_close
close_ours w h a well first ours ctx live =
    let (r, stops, well', map) = stop_stream_map w.closing h.channel_id h.control well in
    (
      reset_session (record h { collection = 1; control = r.1 }),
      ground (arith, (well h.channel_id a live).running, stops),
      well',
      map,
    )

-- The end of one that has not got as far as that: the manager is left alone.
close_other :
    (w : World) (h : ConnHandler)
    → h.collection ≡ 0
    → h.authenticated ≡ false
    → on_close w h ≡ finished (returns (reset_session (record h { collection = 1 })))
unfolding on_close
close_other w h first other = ground arith

-- What a publication leaves: a stream of its own, or the map as it was.
data Published (c : Control) (h : ConnHandler) : Type 0 where
  live :
      (a : ℕ)
      → IsWell h.control
      → h.collection ≡ 0
      → h.authenticated ≡ true
      → h.control_ctx ≡ some a
      → h.control.streams h.channel_id ≡ some a
      → c.streams h.channel_id ≡ none
      → ((j : ℕ) → j ≢ h.channel_id → h.control.streams j ≡ c.streams j)
      → Published c h
  refused :
      IsWell h.control
      → h.collection ≡ 0
      → h.authenticated ≡ false
      → ((j : ℕ) → h.control.streams j ≡ c.streams j)
      → Published c h

-- The handler that has been given a stream.
abbrev opened : ConnHandler → Started → ConnHandler
opened h t = record h {
  control = t.control;
  control_ctx = some t.ctx;
  stream = t.stream;
  authenticated = true;
  stream_id = (t.control.heap t.ctx).stream_id;
}

after_start-eq :
    (w : World) (h : ConnHandler) (t : Started)
    → t.error ≡ none
    → after_start w h t ≡ init_media w t.ctx (modify t.ctx name_client (opened h t))
after_start-eq w h t e = ground arith

opened-IsKept :
    (w : World) (h : ConnHandler) (t : Started)
    → t.error ≡ none
    → IsKept (opened h t) (after_start w h t).1
opened-IsKept w h t e = rw (after_start-eq w h t e) (
    IsKept-trans (modify-IsKept t.ctx name_client (opened h t) name_client-IsHarmless)
      (init_media-IsKept w t.ctx (modify t.ctx name_client (opened h t))))

started-Published :
    (w : World) (h : ConnHandler) (t : Started)
    → h.collection ≡ 0
    → IsWell t.control
    → IsStarted h.control h.channel_id w.starting t
    → Published h.control (after_start w h t).1
started-Published w h t first well s =
    let kept = opened-IsKept w h t s.no_error in
    let r : ConnHandler = (after_start w h t).1 in
    live t.ctx (kept.well well) (kept.waiting ∙ first) kept.session kept.context
      (ap r.control.streams kept.channel ∙ kept.map h.channel_id ∙ s.mapped)
      (ap h.control.streams kept.channel ∙ s.was_free)
      (λ j ne. kept.map j ∙ s.others j (λ e. ne (e ∙ sym kept.channel)))

after_start-Published :
    (w : World) (h : ConnHandler) (t : Started)
    → h.collection ≡ 0
    → h.authenticated ≡ false
    → IsWell t.control
    → IsStarted h.control h.channel_id w.starting t ⊎ IsRefused h.control t
    → Published h.control (after_start w h t).1
after_start-Published w h t first new well (inl s) = started-Published w h t first well s
after_start-Published w h t first new well (inr r) = elim (Option-cases t.error) [
  | inl fine ↦ absurd (r.failed fine)
  | inr (e, f) ↦ rw f (refused well first new r.unchanged)
]

begin_stream-Published :
    (w : World) (h : ConnHandler)
    → IsWell h.control
    → h.collection ≡ 0
    → h.authenticated ≡ false
    → (r : Option Error × ConnHandler) × (begin_stream w h ≡ finished (returns r))
      × Published h.control r.1
unfolding begin_stream
begin_stream-Published w h well first new =
    elim (Option-cases (authenticate (w.hmac_keys h.channel_id) h.stream_key)) [
      | inr (e, wrong) ↦
          ((some wrong_key, h), rw (wrong, begin_stream) refl, refused well first new (λ j. refl))
      | inl right ↦
          let (t, starts, well', outcome) =
            start_stream_atomic w.starting w.stopping h.channel_id h.control well in
          (
            after_start w h t,
            rw (right, starts, begin_stream) refl,
            after_start-Published w h t first new well' outcome,
          )
    ]

with_channel-Published :
    (w : World) (id : Option ℕ) (key : Option (List ℕ)) (h : ConnHandler)
    {r : Option Error × ConnHandler}
    → IsWell h.control
    → h.collection ≡ 0
    → h.authenticated ≡ false
    → with_channel w id key h ≡ finished (returns r)
    → Published h.control r.1
with_channel-Published w none key h {r} well first new e =
    let same : r.1 ≡ h = ground arith in rw same (refused well first new (λ j. refl))
with_channel-Published w (some id) none h {r} well first new e = absurd (ground arith)
with_channel-Published w (some id) (some key) h {r} well first new e =
    let h' : ConnHandler = record h { channel_id = id; stream_key = key; started = true } in
    let (q, begins, published) = begin_stream-Published w h' well first new in
    let same : r.1 ≡ q.1 = ground arith in rw same published

-- The end of a connection gives back what its publication has taken.
close-Published :
    (w : World) (c : Control) (h : ConnHandler)
    → Published c h
    → (h' : ConnHandler) × (on_close w h ≡ finished (returns h'))
      × IsWell h'.control
      × ((j : ℕ) → h'.control.streams j ≡ c.streams j)
close-Published w c h (live a well first ours ctx mapped free others) =
    let (h', closes, well', map) = close_ours w h a well first ours ctx mapped in
    (h', closes, well', λ j. ground (arith, map j, others j))
close-Published w c h (refused well first new same) = (_, close_other w h first new, well, same)

on_publish-Published :
    (w : World) (name : List ℕ) (h : ConnHandler) {r : Option Error × ConnHandler}
    → IsWell h.control
    → h.collection ≡ 0
    → h.authenticated ≡ false
    → on_publish w name h ≡ finished (returns r)
    → Published h.control r.1
unfolding on_publish
on_publish-Published w [] h {r} well first new e =
    let same : r.1 ≡ h = ground arith in rw same (refused well first new (λ j. refl))
on_publish-Published w (c ∷ name) h {r} well first new e =
    with_channel-Published w _ _ h {r = r} well first new e

-- A connection that publishes under any name and closes leaves the manager's map as it found it: a stream
-- of its own is stopped, and no other one. `OnClose` returns, and the invariant is kept.
pub on_close-on_publish :
    (w : World) (name : List ℕ) (c : Control) {r : Option Error × ConnHandler}
    → IsWell c
    → on_publish w name (new_handler c) ≡ finished (returns r)
    → (h : ConnHandler) × (on_close w r.1 ≡ finished (returns h))
      × IsWell h.control
      × ((j : ℕ) → h.control.streams j ≡ c.streams j)
unfolding new_handler
on_close-on_publish w name c {r} well e =
    close-Published w c r.1 (on_publish-Published w name (new_handler c) {r = r} well refl refl e)

no_empty_channel : (id : ℕ) → parse_uint32 (split_two b'-' []).0 ≢ some id
unfolding parse_uint32 split_two
no_empty_channel id e = cc

with_channel_panics :
    (w : World) (id : Option ℕ) (key : Option (List ℕ)) (c : Control)
    → IsWell c
    → (with_channel w id key (new_handler c) ≡ finished panic)
      ↔ ((n : ℕ) × (id ≡ some n) × (key ≡ none))
unfolding new_handler
with_channel_panics w none key c well = (λ e. absurd (ground arith), λ p. absurd (ground arith))
with_channel_panics w (some id) none c well = (λ e. (id, refl, refl), λ p. refl)
with_channel_panics w (some id) (some key) c well =
    let h' : ConnHandler = record (new_handler c) {
      channel_id = id;
      stream_key = key;
      started = true;
    } in
    let (q, begins, _) = begin_stream-Published w h' well refl refl in
    (λ e. absurd (ground arith), λ p. absurd (ground arith))

-- `OnPublish` of a new connection panics exactly on a name whose front is a 32-bit channel id and that
-- has no dash behind it.
pub on_publish_panics :
    (w : World) (name : List ℕ) (c : Control)
    → IsWell c
    → (on_publish w name (new_handler c) ≡ finished panic) ↔ (
        (id : ℕ) × (parse_uint32 (split_two b'-' name).0 ≡ some id)
        × ((split_two b'-' name).1 ≡ none))
unfolding on_publish
on_publish_panics w [] c well =
    (λ e. absurd (ground arith), λ (id, front, _). absurd (no_empty_channel id front))
on_publish_panics w (b ∷ name) c well =
    with_channel_panics w (parse_uint32 (split_two b'-' (b ∷ name)).0) (split_two b'-' (b ∷ name)).1
      c well
