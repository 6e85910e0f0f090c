-- ===== src/Inputs/Rtmp/Media/Pcm.antt =====
-- rtmp.go: OnAudio takes every sample once and in order, however the samples arrive.
use waveguide.Base.{
  ℕ, suc, ◌<◌, ◌≡◌, ap, ◌∙◌, sym, Bool, true, List, ◌++◌, arith, length, append_assoc,
}
use waveguide.Inputs.Rtmp.Media.{Codecs, Media, block_bytes, blocks_loop, encode_block, take_pcm}
use waveguide.Inputs.Rtmp.Media.Blocks.{blocks_loop_ends, blocks_loop-append, blocks_loop_natural}

module _ (C : Codecs) where
  abbrev keep : List ℕ → Media C → Media C
  keep buffer m = record m { audio_buffer = buffer }

  abbrev keep_all : List ℕ → Bool × Media C → Bool × Media C
  keep_all buffer r = (r.0, keep buffer r.1)

  -- A block is taken without a look at the buffer.
  encode_block-keep :
      (block buffer : List ℕ) (m : Media C)
      → encode_block C block (keep buffer m) ≡ keep_all buffer (encode_block C block m)
  unfolding encode_block
  encode_block-keep block buffer m = ground (arith)

  abbrev take_blocks : List ℕ → Media C → Bool × (List ℕ × Media C)
  take_blocks buffer m = blocks_loop block_bytes (encode_block C) (suc (length buffer)) buffer m

  abbrev store_rest : Bool × (List ℕ × Media C) → Bool × Media C
  store_rest r = (r.0, keep r.1.0 r.1.1)

  -- On a PCM after which no block failed, less than a block is kept, and a second PCM that follows it is
  -- taken as if both had come at once: the same packets, reports and states of encoder and packetizer.
  pub take_pcm-append :
      (p q : List ℕ) (m : Media C)
      → (take_pcm C p m).0 ≡ true
      → (length (take_pcm C p m).1.audio_buffer < block_bytes)
        × (take_pcm C (p ++ q) m ≡ take_pcm C q (take_pcm C p m).1)
  take_pcm-append p q m fine =
      let front = m.audio_buffer ++ p in
      let r = take_blocks front m in
      let small =
        blocks_loop_ends block_bytes (omega arith) (encode_block C) (suc (length front)) front m
          (omega arith) fine in
      let joined =
        blocks_loop-append block_bytes (omega arith) (encode_block C) (suc (length front))
          (suc (length (front ++ q))) (suc (length (r.1.0 ++ q))) front q m (omega arith)
          (omega arith) (omega arith) fine in
      let apart =
        blocks_loop_natural block_bytes (encode_block C) (keep r.1.0)
          (λ block. encode_block-keep block r.1.0) (suc (length (r.1.0 ++ q))) (r.1.0 ++ q) r.1.1 in
      (
        small,
        ap (λ bytes. store_rest (take_blocks bytes m)) (sym (append_assoc (m.audio_buffer) p q))
            ∙ ap store_rest joined
            ∙ sym (ap store_rest apart),
      )
