-- ===== src/Video/Keyframer.antt =====
-- pkg/control/keyframer.go: the packets of one timestamp are collected and, at the marker, put
-- together in the order of their sequence numbers.
-- The Go map of packets is an association list with distinct keys.
use waveguide.Base.{
  ℕ, Bool, true, false, not, ◌&&◌, Option, none, some, List, [], ◌∷◌, ◌++◌, ltb, ◌==◌,
  if◌then◌else◌,
}
use waveguide.Video.Nal.{is_any_keyframe}
use waveguide.Video.Writer.{Depacketizer}

-- The fields of `rtp.Packet` that are read.
pub record Packet : Type 0 where
  pub timestamp : ℕ
  pub sequence_number : ℕ
  pub marker : Bool
  pub payload : List ℕ

abbrev pub PacketMap : Type 0
PacketMap = List (ℕ × List ℕ)

-- `last_full_keyframe` is nil at first.
pub record Keyframer : Type 0 where
  pub last_full_keyframe : Option (List ℕ)
  pub frame_started : Bool
  pub timestamp : ℕ
  pub packets : PacketMap

unfoldable pub new_keyframer : Keyframer
new_keyframer = record {
  last_full_keyframe = none;
  frame_started = false;
  timestamp = 0;
  packets = [];
}

unfoldable pub reset : Keyframer → Keyframer
reset kf = record kf { timestamp = 0; frame_started = false; packets = [] }

-- `kf.packets[k] = v`
unfoldable pub put : ℕ → List ℕ → PacketMap → PacketMap
put k v [] = (k, v) ∷ []
put k v ((j, w) ∷ m) = if k == j then (k, v) ∷ m else (j, w) ∷ put k v m

-- `sort.Sort(sequenceNumSort(keys))`, each key with its packet.
unfoldable pub insert_sorted : ℕ × List ℕ → PacketMap → PacketMap
insert_sorted e [] = e ∷ []
insert_sorted e (f ∷ m) = if ltb f.0 e.0 then f ∷ insert_sorted e m else e ∷ f ∷ m

unfoldable pub sort_packets : PacketMap → PacketMap
sort_packets [] = []
sort_packets (e ∷ m) = insert_sorted e (sort_packets m)

module _ (D : Depacketizer) where
  open D use {State, fresh, unmarshal}

  -- A packet that is not taken is skipped.
  abbrev append_data : Option (List ℕ) → List ℕ → List ℕ
  append_data none frame = frame
  append_data (some bytes) frame = bytes ++ frame

  -- The bytes of the packets in turn, through one depacketizer.
  unfoldable pub assemble : State → PacketMap → List ℕ
  assemble s [] = []
  assemble s ((k, payload) ∷ m) =
      let (bytes, s') = unmarshal payload s in append_data bytes (assemble s' m)

  -- The packet belongs to the frame: it is stored, and the marker ends the frame.
  abbrev collect : Packet → Keyframer → Option (List ℕ) × Keyframer
  collect p kf =
      let packets = put (p.sequence_number) (p.payload) (kf.packets) in
      let kf' = record kf { packets = packets } in
      let frame = assemble fresh (sort_packets packets) in
      if p.marker then (some frame, record kf' { last_full_keyframe = some frame }) else (none, kf')

  -- `none` is nil.
  unfoldable pub write_rtp : Packet → Keyframer → Option (List ℕ) × Keyframer
  write_rtp p kf =
      if kf.frame_started && not (kf.timestamp == p.timestamp)
      then (none, kf)
      else if kf.frame_started
      then collect p kf
      else if is_any_keyframe (p.payload)
      then collect p (record kf { timestamp = p.timestamp; frame_started = true })
      else (none, kf)

  unfoldable pub keyframe : Keyframer → Option (List ℕ)
  keyframe kf = kf.last_full_keyframe

  -- The loop of the thumbnailer over the packets that it reads while the stream lasts: a frame is
  -- handed on, and the keyframer is reset.
  unfoldable pub thumbnail_loop : List Packet → Keyframer → List (List ℕ)
  thumbnail_loop [] kf = []
  thumbnail_loop (p ∷ ps) kf = elim ((write_rtp p kf).0) [
    | none ↦ thumbnail_loop ps (write_rtp p kf).1
    | some frame ↦ frame ∷ thumbnail_loop ps (reset (write_rtp p kf).1)
  ]
