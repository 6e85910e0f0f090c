-- ===== src/Video/Runs.antt =====
-- A keyframe in one run, and what the theorems say of it.
use waveguide.Base.{ℕ, ◌≡◌, refl, arith, Bool, true, false, none, some, [], ◌∷◌}
use waveguide.Video.Writer.{Depacketizer}
use waveguide.Video.Keyframer.{Packet, Keyframer, write_rtp}
use waveguide.Video.Assembly.{write_rtp_order}

-- A depacketizer that hands the payload on.
abbrev plain : Depacketizer
plain = record { State = Unit; fresh = tt; unmarshal = λ payload s. (some payload, s) }

abbrev part : ℕ → Bool → Packet
part n last = record { timestamp = 90; sequence_number = n; marker = last; payload = n ∷ [] }

abbrev collecting : Keyframer
collecting = record {
  last_full_keyframe = none;
  frame_started = true;
  timestamp = 90;
  packets = (3, 0x67 ∷ []) ∷ [];
}

write_rtp_order_example :
    (write_rtp plain
      (part 6 true)
      (write_rtp plain (part 5 false) (write_rtp plain (part 4 false) collecting).1).1).0
    ≡ (write_rtp plain
        (part 6 true)
        (write_rtp plain (part 4 false) (write_rtp plain (part 5 false) collecting).1).1).0
write_rtp_order_example =
    write_rtp_order plain (part 4 false) (part 5 false) (part 6 true) collecting
      (refl, refl, ((λ e. omega arith), tt)) (refl, refl, ((λ e. omega arith), tt))
      (refl, refl, ((λ e. omega arith), tt)) refl refl refl (λ e. omega arith) (λ e. omega arith)
      (λ e. omega arith)
