-- ===== src/Video/Writer.antt =====
-- h264writer.go: the writer that starts at the first keyframe. pion's depacketizer is a parameter.
use waveguide.Base.{
  ℕ, ◌≡◌, refl, Bool, true, false, ◌||◌, Option, none, some, List, [], ◌∷◌, ◌++◌, if◌then◌else◌,
}
use waveguide.Video.Nal.{read_word, starts_parameter_set}

-- `codecs.H264Packet`: its state, a new one, and `Unmarshal`, where `none` is an error.
pub record Depacketizer : Type 1 where
  pub State : Type 0
  pub fresh : State
  pub unmarshal : List ℕ → State → Option (List ℕ) × State

-- `isKeyFrame`
unfoldable pub is_key_frame : List ℕ → Bool
is_key_frame payload = elim (read_word payload) [
  | none ↦ false
  | some word ↦ starts_parameter_set word
]

module _ (D : Depacketizer) where
  open D use {State, fresh, unmarshal}

  -- `written` holds what the `io.Writer` was given.
  pub record H264Writer : Type 0 where
    pub has_key_frame : Bool
    pub cached_packet : Option State
    pub written : List (List ℕ)

  abbrev pub new_writer : H264Writer
  new_writer = record { has_key_frame = false; cached_packet = none; written = [] }

  abbrev packet_of : Option State → State
  packet_of none = fresh
  packet_of (some s) = s

  -- From `Unmarshal` on. `writes` is whether the `io.Writer` takes the bytes.
  abbrev write_data : Bool → H264Writer → Option (List ℕ) × State → Bool × H264Writer
  write_data writes h (none, s) = (false, record h { cached_packet = some s })
  write_data writes h (some bytes, s) =
      (writes, record h { cached_packet = some s; written = h.written ++ (bytes ∷ []) })

  -- The result is false on an error.
  unfoldable pub write_rtp : Bool → List ℕ → H264Writer → Bool × H264Writer
  write_rtp writes [] h = (true, h)
  write_rtp writes (b ∷ payload) h =
      if h.has_key_frame || is_key_frame (b ∷ payload)
      then write_data writes (record h { has_key_frame = true })
          (unmarshal (b ∷ payload) (packet_of (h.cached_packet)))
      else (true, h)

  unfoldable pub close : H264Writer → H264Writer
  close h = record h { cached_packet = none }

  -- A run of packets, with what the writer says to each.
  unfoldable pub write_all : List (Bool × List ℕ) → H264Writer → H264Writer
  write_all [] h = h
  write_all ((writes, payload) ∷ rest) h = write_all rest (write_rtp writes payload h).1

  abbrev pub NoKeyframes : List (Bool × List ℕ) → Type 0
  NoKeyframes [] = Unit
  NoKeyframes ((writes, payload) ∷ rest) = (is_key_frame payload ≡ false) × NoKeyframes rest

  skipped :
      (writes : Bool) (payload : List ℕ)
      → is_key_frame payload ≡ false
      → write_rtp writes payload new_writer ≡ (true, new_writer)
  unfolding write_rtp
  skipped writes [] plain = refl
  skipped writes (b ∷ payload) plain = rw plain

  -- Packets in front of the first keyframe leave no trace: the writer is as if they had not come.
  write_all-skips :
      (early late : List (Bool × List ℕ))
      → NoKeyframes early
      → write_all (early ++ late) new_writer ≡ write_all late new_writer
  unfolding write_all
  write_all-skips [] late none_yet = refl
  write_all-skips ((writes, payload) ∷ early) late (plain, none_yet) =
      rw (skipped writes payload plain, write_all) (write_all-skips early late none_yet)
