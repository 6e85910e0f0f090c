-- ===== src/Video/Nal.antt =====
-- util.go: what the first bytes of an RTP payload say of its NAL units. `x & 0x1F` is `x % 32`.
use waveguide.Base.{
  ℕ, ◌+◌, ◌*◌, ◌/◌, ◌%◌, ◌^◌, ◌≡◌, refl, Bool, true, false, ◌&&◌, ◌||◌, Option, none, some, List,
  [], ◌∷◌, arith, ◌==◌, if◌then◌else◌,
}
use waveguide.Base.Words.{IsU8}

-- `binary.Read` of a big-endian uint32: an error on fewer than four bytes.
abbrev pub read_word : List ℕ → Option ℕ
read_word (a ∷ b ∷ c ∷ d ∷ _) = some (a * 16777216 + b * 65536 + c * 256 + d)
read_word _ = none

abbrev pub starts_parameter_set : ℕ → Bool
starts_parameter_set word =
    let nalu_type = word / 2 ^ 24 % 32 in
    if nalu_type == 24 && word % 32 == 7 then true else if nalu_type == 7 then true else false

unfoldable pub is_any_keyframe : List ℕ → Bool
is_any_keyframe payload = elim (read_word payload) [
  | none ↦ false
  | some word ↦ starts_parameter_set word
]

unfoldable pub is_keyframe_part : List ℕ → Bool
is_keyframe_part [] = false
is_keyframe_part (a ∷ []) = false
is_keyframe_part (a ∷ b ∷ rest) =
    let nal_type = a % 32 in
    if nal_type == 7 || nal_type == 8
    then true
    else if nal_type == 5
    then true
    else if nal_type == 28 || nal_type == 29
    then (let fragment_type = b % 32 in
        if fragment_type == 7 || fragment_type == 5 then true else false)
    else false

-- The texts of `WhichKeyframePart`.
pub data Part : Type 0 where
  too_small sequence_parameter_set picture_parameter_set idr : Part
  fragment_of_sps fragment_of_idr : ℕ → Part
  unknown_fragment : ℕ → ℕ → Part
  unknown : ℕ → Part

abbrev fragment : ℕ → ℕ → Part
fragment nal_type fragment_type =
    if fragment_type == 7
    then fragment_of_sps nal_type
    else if fragment_type == 5
    then fragment_of_idr nal_type
    else unknown_fragment nal_type fragment_type

unfoldable pub which_keyframe_part : List ℕ → Part
which_keyframe_part [] = too_small
which_keyframe_part (a ∷ []) = too_small
which_keyframe_part (a ∷ b ∷ rest) =
    let nal_type = a % 32 in
    if nal_type == 7
    then sequence_parameter_set
    else if nal_type == 8
    then picture_parameter_set
    else if nal_type == 5
    then idr
    else if nal_type == 28
    then fragment nal_type (b % 32)
    else if nal_type == 29
    then fragment nal_type (b % 32)
    else unknown nal_type

-- The parts that are of a keyframe.
abbrev pub is_named : Part → Bool
is_named too_small = false
is_named sequence_parameter_set = true
is_named picture_parameter_set = true
is_named idr = true
is_named (fragment_of_sps n) = true
is_named (fragment_of_idr n) = true
is_named (unknown_fragment n m) = false
is_named (unknown n) = false

-- `IsKeyframePart` accepts exactly the payloads that `WhichKeyframePart` gives a name to.
pub is_keyframe_part-named :
    (payload : List ℕ) → is_keyframe_part payload ≡ is_named (which_keyframe_part payload)
unfolding is_keyframe_part which_keyframe_part
is_keyframe_part-named [] = refl
is_keyframe_part-named (a ∷ []) = refl
is_keyframe_part-named (a ∷ b ∷ rest) = ground arith

-- A payload of bytes starts a keyframe exactly if it has four bytes and is a sequence parameter set,
-- or an aggregate whose first unit is one.
is_any_keyframe_bytes :
    (a b c d : ℕ) (rest : List ℕ)
    → IsU8 a
    → IsU8 b
    → IsU8 c
    → IsU8 d
    → is_any_keyframe (a ∷ b ∷ c ∷ d ∷ rest) ≡ (a % 32 == 7 || (a % 32 == 24 && d % 32 == 7))
unfolding is_any_keyframe
is_any_keyframe_bytes a b c d rest ha hb hc hd = ground (arith, first, last)
  where
    first : (a * 16777216 + b * 65536 + c * 256 + d) / 2 ^ 24 % 32 ≡ a % 32
    first = omega arith

    last : (a * 16777216 + b * 65536 + c * 256 + d) % 32 ≡ d % 32
    last = omega arith
