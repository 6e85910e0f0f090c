-- ===== src/Video/Assembly.antt =====
-- What the keyframer makes of a run of packets.
use waveguide.Base.{
  ℕ, ◌≡◌, ◌≢◌, refl, sym, true, false, none, some, List, [], ◌∷◌, ◌++◌, arith, All,
}
use waveguide.Video.Writer.{Depacketizer}
use waveguide.Video.Keyframer.{
  Packet, PacketMap, Keyframer, put, insert_sorted, sort_packets, assemble, write_rtp,
}

-- `k` is no key of the map.
abbrev pub IsNewKey : ℕ → PacketMap → Type 0
IsNewKey k m = All (λ e. k ≢ e.0) m

put_new : (k : ℕ) (v : List ℕ) (m : PacketMap) → IsNewKey k m → put k v m ≡ m ++ ((k, v) ∷ [])
unfolding put
put_new k v [] new = refl
put_new k v ((j, w) ∷ m) (ne, new) = ground (arith, put_new k v m new)

insert_insert :
    (a b : ℕ × List ℕ) (m : PacketMap)
    → a.0 ≢ b.0
    → insert_sorted a (insert_sorted b m) ≡ insert_sorted b (insert_sorted a m)
unfolding insert_sorted
insert_insert a b [] ne = ground arith
insert_insert a b (e ∷ m) ne = ground (arith, insert_insert a b m ne)

sort_snoc :
    (e : ℕ × List ℕ) (m : PacketMap)
    → IsNewKey e.0 m
    → sort_packets (m ++ (e ∷ [])) ≡ insert_sorted e (sort_packets m)
unfolding sort_packets
sort_snoc e [] new = refl
sort_snoc e (f ∷ m) (ne, new) =
    rw (sort_snoc e m new) (insert_insert f e (sort_packets m) (λ h. ne (sym h)))

-- Storing a packet under a new number is an insertion in the sorted list.
pub sort-put :
    (k : ℕ) (v : List ℕ) (m : PacketMap)
    → IsNewKey k m
    → sort_packets (put k v m) ≡ insert_sorted (k, v) (sort_packets m)
sort-put k v m new = rw (put_new k v m new) (sort_snoc (k, v) m new)

IsNewKey-put :
    (k j : ℕ) (v : List ℕ) (m : PacketMap) → k ≢ j → IsNewKey k m → IsNewKey k (put j v m)
unfolding put
IsNewKey-put k j v [] ne new = (ne, tt)
IsNewKey-put k j v ((i, w) ∷ m) ne (h, new) = ground (arith, IsNewKey-put k j v m ne new)

module _ (D : Depacketizer) where
  open D use {fresh}

  -- `p` belongs to the frame that is being collected, under a new number.
  abbrev pub IsNext : Packet → Keyframer → Type 0
  IsNext p kf =
      (kf.frame_started ≡ true)
      × (kf.timestamp ≡ p.timestamp)
      × IsNewKey (p.sequence_number) (kf.packets)

  -- The keyframer with the packet stored.
  abbrev stored : Packet → Keyframer → Keyframer
  stored p kf = record kf { packets = put (p.sequence_number) (p.payload) (kf.packets) }

  write_rtp-inner :
      (p : Packet) (kf : Keyframer)
      → kf.frame_started ≡ true
      → kf.timestamp ≡ p.timestamp
      → p.marker ≡ false
      → write_rtp D p kf ≡ (none, stored p kf)
  unfolding write_rtp
  write_rtp-inner p kf started same inner = ground arith

  write_rtp-last :
      (p : Packet) (kf : Keyframer)
      → kf.frame_started ≡ true
      → kf.timestamp ≡ p.timestamp
      → p.marker ≡ true
      → (write_rtp D p kf).0 ≡ some (assemble D fresh (sort_packets ((stored p kf).packets)))
  unfolding write_rtp
  write_rtp-last p kf started same last = ground arith

  sorted_twice :
      (p q last : Packet) (kf : Keyframer)
      → IsNext p kf
      → IsNext q kf
      → IsNext last kf
      → p.sequence_number ≢ q.sequence_number
      → last.sequence_number ≢ p.sequence_number
      → last.sequence_number ≢ q.sequence_number
      → sort_packets ((stored last (stored q (stored p kf))).packets)
        ≡ insert_sorted
            (last.sequence_number, last.payload)
            (insert_sorted
              (q.sequence_number, q.payload)
              (insert_sorted (p.sequence_number, p.payload) (sort_packets kf.packets)))
  sorted_twice p q last kf (sp, tp, np) (sq, tq, nq) (sl, tl, nl) pq lp lq =
      rw
        (
          sort-put last.sequence_number last.payload ((stored q (stored p kf)).packets) (
              IsNewKey-put last.sequence_number q.sequence_number q.payload ((stored p kf).packets)
                lq
                (IsNewKey-put last.sequence_number p.sequence_number p.payload kf.packets lp nl)),
          sort-put q.sequence_number q.payload ((stored p kf).packets) (
              IsNewKey-put q.sequence_number p.sequence_number p.payload kf.packets
                (λ h. pq (sym h)) nq),
          sort-put p.sequence_number p.payload kf.packets np,
        )
        refl

  three_packets :
      (p q last : Packet) (kf : Keyframer)
      → IsNext p kf
      → IsNext q kf
      → IsNext last kf
      → p.marker ≡ false
      → q.marker ≡ false
      → last.marker ≡ true
      → (write_rtp D last (write_rtp D q (write_rtp D p kf).1).1).0
        ≡ some (assemble D fresh (sort_packets ((stored last (stored q (stored p kf))).packets)))
  three_packets p q last kf (sp, tp, np) (sq, tq, nq) (sl, tl, nl) mp mq ml =
      rw
        (
          write_rtp-inner p kf sp tp mp,
          write_rtp-inner q (stored p kf) sq tq mq,
          write_rtp-last last (stored q (stored p kf)) sl tl ml,
        )
        refl

  -- Two packets of the frame that is being collected, in either order of arrival, the marker behind
  -- them: the keyframe is the same.
  pub write_rtp_order :
      (p q last : Packet) (kf : Keyframer)
      → IsNext p kf
      → IsNext q kf
      → IsNext last kf
      → p.marker ≡ false
      → q.marker ≡ false
      → last.marker ≡ true
      → p.sequence_number ≢ q.sequence_number
      → last.sequence_number ≢ p.sequence_number
      → last.sequence_number ≢ q.sequence_number
      → (write_rtp D last (write_rtp D q (write_rtp D p kf).1).1).0
        ≡ (write_rtp D last (write_rtp D p (write_rtp D q kf).1).1).0
  write_rtp_order p q last kf np nq nl mp mq ml pq lp lq =
      rw
        (
          three_packets p q last kf np nq nl mp mq ml,
          three_packets q p last kf nq np nl mq mp ml,
          sorted_twice p q last kf np nq nl pq lp lq,
          sorted_twice q p last kf nq np nl (λ h. pq (sym h)) lq lp,
          insert_insert (q.sequence_number, q.payload) (p.sequence_number, p.payload)
              (sort_packets kf.packets) (λ h. pq (sym h)),
        )
        refl
