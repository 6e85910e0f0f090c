-- ===== src/Inputs/Rtmp/Kept.antt =====
-- rtmp.go: what the set-up of the tracks leaves alone.
use waveguide.Base.{ℕ, ◌≡◌, refl, ◌∙◌, inl, inr, true, arith, Bool-cases}
use waveguide.Control.Types.{Stream}
use waveguide.Control.Stream.{add_track, report_metadata, apply_metadata}
use waveguide.Control.Rules.{IsWell}
use waveguide.Inputs.Rtmp.{
  World, ConnHandler, modify, add_video, add_audio, name_client, init_audio, init_media,
}

-- Only streams on the heap have changed, and none of them in what the manager's invariant reads.
pub record IsKept (h h' : ConnHandler) : Type 0 where
  pub map : (j : ℕ) → h'.control.streams j ≡ h.control.streams j
  pub well : IsWell h.control → IsWell h'.control
  pub context : h'.control_ctx ≡ h.control_ctx
  pub channel : h'.channel_id ≡ h.channel_id
  pub session : h'.authenticated ≡ h.authenticated
  pub waiting : h'.collection ≡ h.collection

-- A change of a stream that leaves alone what the manager reads.
pub record IsHarmless (f : Stream → Stream) : Type 0 where
  pub cancelled : (s : Stream) → (f s).cancelled ≡ s.cancelled
  pub channel : (s : Stream) → (f s).channel_id ≡ s.channel_id
  pub heartbeat : (s : Stream) → (f s).stop_heartbeat ≡ s.stop_heartbeat
  pub peersnap : (s : Stream) → (f s).stop_peersnap ≡ s.stop_peersnap

add_video-IsHarmless : IsHarmless add_video
unfolding report_metadata apply_metadata add_track
add_video-IsHarmless = record {
  cancelled = λ s. refl;
  channel = λ s. refl;
  heartbeat = λ s. refl;
  peersnap = λ s. refl;
}

add_audio-IsHarmless : IsHarmless add_audio
unfolding report_metadata apply_metadata add_track
add_audio-IsHarmless = record {
  cancelled = λ s. refl;
  channel = λ s. refl;
  heartbeat = λ s. refl;
  peersnap = λ s. refl;
}

pub name_client-IsHarmless : IsHarmless name_client
unfolding report_metadata apply_metadata
name_client-IsHarmless = record {
  cancelled = λ s. refl;
  channel = λ s. refl;
  heartbeat = λ s. refl;
  peersnap = λ s. refl;
}

pub modify-IsKept :
    (a : ℕ) (f : Stream → Stream) (h : ConnHandler) → IsHarmless f → IsKept h (modify a f h)
modify-IsKept a f h harmless = record {
  map = λ j. refl;
  well = λ w j b e. ground (
    arith,
    w j b e,
    harmless.cancelled (h.control.heap a),
    harmless.channel (h.control.heap a),
    harmless.heartbeat (h.control.heap a),
    harmless.peersnap (h.control.heap a),
  );
  context = refl;
  channel = refl;
  session = refl;
  waiting = refl;
}

pub IsKept-trans : {h h' h'' : ConnHandler} → IsKept h h' → IsKept h' h'' → IsKept h h''
IsKept-trans k l = record {
  map = λ j. l.map j ∙ k.map j;
  well = λ w. l.well (k.well w);
  context = l.context ∙ k.context;
  channel = l.channel ∙ k.channel;
  session = l.session ∙ k.session;
  waiting = l.waiting ∙ k.waiting;
}

pub IsKept-refl : (h : ConnHandler) → IsKept h h
IsKept-refl h = record {
  map = λ j. refl;
  well = λ w. w;
  context = refl;
  channel = refl;
  session = refl;
  waiting = refl;
}

with_decoder-IsKept : (h : ConnHandler) → IsKept h (record h { has_decoder = true })
with_decoder-IsKept h = record {
  map = λ j. refl;
  well = λ w. w;
  context = refl;
  channel = refl;
  session = refl;
  waiting = refl;
}

init_audio-IsKept : (w : World) (a : ℕ) (h : ConnHandler) → IsKept h (init_audio w a h).1
unfolding init_audio
init_audio-IsKept w a h = elim (Bool-cases w.makes_audio) [
  | inr nothing ↦ rw nothing (IsKept-refl h)
  | inl made ↦ elim (Bool-cases w.makes_encoder) [
    | inr nothing ↦ rw (made, nothing) (IsKept-refl h)
    | inl coded ↦
        rw (made, coded)
          (IsKept-trans (with_decoder-IsKept h)
            (modify-IsKept a add_audio (record h { has_decoder = true }) add_audio-IsHarmless))
  ]
]

pub init_media-IsKept : (w : World) (a : ℕ) (h : ConnHandler) → IsKept h (init_media w a h).1
unfolding init_media init_audio
init_media-IsKept w a h = elim (Bool-cases w.makes_video) [
  | inr nothing ↦ rw nothing (IsKept-refl h)
  | inl made ↦ rw made (
      IsKept-trans (modify-IsKept a add_video h add_video-IsHarmless)
        (init_audio-IsKept w a (modify a add_video h)))
]
