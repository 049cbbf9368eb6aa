-- ===== src/Pusher/Prefix.antt =====
-- Which samples server_sppush_push reads: the first `len` bytes.
use castserver.Base.{
  ℕ, zero, suc, pos, ◌+◌, ◌*◌, ◌/◌, ◌%◌, ◌≤◌, ◌≡◌, refl, sym, ap, ◌∙◌, Bool-cases, inl, inr, ◌&&◌,
  List, [], ◌∷◌, length, take, drop, take-drop-take, length-take, length-drop, arith, leb, ltb,
  ◌==◌,
}
use castserver.Env.{Env}
use castserver.World.{World, pure, ◌>>=◌, >>=-cong}
use castserver.Config.{config_mtu}
use castserver.Pusher.{
  channel_buffer_size, store_buffer, assert, copy_loop, server_sppush_push_channel, channels_loop,
  server_sppush_push,
}

module _ {T : Type 0} (e : Env T) where
  -- BITS_CPY reads as many bytes as it copies.
  abbrev pub ReadsBytes : Type 0
  ReadsBytes =
      (buf src : List ℕ) (dst bits : ℕ)
      → bits ≤ length src
      → e.bits_cpy buf dst src bits ≡ e.bits_cpy buf dst (take bits src) bits

  module _ (reads : ReadsBytes) (samples : List ℕ) (len : ℕ) (whole : len ≤ length samples) where
    copy-take :
        (src dst bits : ℕ) (buf : List ℕ)
        → src + bits ≤ len
        → e.bits_cpy buf dst (drop src samples) bits
          ≡ e.bits_cpy buf dst (drop src (take len samples)) bits
    copy-take src dst bits buf inside =
        reads buf (drop src samples) dst bits (omega (arith, length-drop src samples))
        ∙ (ap (λ k. e.bits_cpy buf dst k bits) (sym (take-drop-take bits src len samples inside))
            ∙ sym (
                reads buf (drop src (take len samples)) dst bits
                  (omega (arith, length-drop src (take len samples), length-take len samples))))

    copy_loop-take :
        (bits step fuel src dst : ℕ) (buf : List ℕ)
        → copy_loop e samples len bits step fuel src dst buf
          ≡ copy_loop e (take len samples) len bits step fuel src dst buf
    unfolding copy_loop
    copy_loop-take bits step zero src dst buf = refl
    copy_loop-take bits step (suc fuel) src dst buf = elim (Bool-cases (leb (src + bits) len)) [
      | inl inside ↦
          let first = copy-take src dst bits buf (ground arith) in
          rw (inside, first) (copy_loop-take bits step fuel (src + step) (dst + bits) _)
      | inr done ↦ rw done refl
    ]

    channels_loop-take :
        (line bits step i : ℕ) (chs : List ℕ) (w : World T)
        → channels_loop e line samples len bits step i chs w
          ≡ channels_loop e line (take len samples) len bits step i chs w
    unfolding channels_loop
    channels_loop-take line bits step i [] w = refl
    channels_loop-take line bits step i (ch ∷ chs) w =
        rw (copy_loop-take bits step (suc len) (i * bits) e.pcm_header_size w.pusher.channel_buffer)
          (>>=-cong
            (store_buffer e (
              copy_loop e (take len samples) len bits step (suc len) (i * bits) e.pcm_header_size
                w.pusher.channel_buffer))
            _ _ w
            λ _ v _.
              >>=-cong (server_sppush_push_channel e line ch (len + e.pcm_header_size)) _ _ v
                λ _ u _. channels_loop-take line bits step (i + 1) chs u)

    push-take :
        (line : ℕ) (chlist : List ℕ) (bits : ℕ) (w : World T)
        → server_sppush_push e line samples len chlist bits w
          ≡ server_sppush_push e line (take len samples) len chlist bits w
    unfolding server_sppush_push
    push-take line chlist bits w =
        >>=-cong (assert e (ltb (e.pcm_header_size + len) channel_buffer_size)) _ _ w λ _ v _.
          >>=-cong (assert e (ltb 0 (length chlist * bits) && len % (length chlist * bits) == 0)) _
            _ v
            λ _ u _.
              >>=-cong (assert e (ltb 0 (length chlist) && ltb (len / length chlist) config_mtu)) _
                _ u
                λ _ x _.
                  ap (λ o. ((λ _. o) >>= λ _. pure (pos 0)) x)
                    (channels_loop-take line bits (bits * length chlist) 0 chlist x)

  -- Pushing reads the first `len` bytes of its samples and no other: two buffers that agree on them,
  -- whatever they hold behind them, are pushed with the same calls, result and state, in every state
  -- and on every branch. BITS_CPY has to read no more bytes than it copies.
  pub server_sppush_push-prefix :
      (reads : ReadsBytes) (line : ℕ) (samples others : List ℕ) (len : ℕ) (chlist : List ℕ)
      (bits : ℕ) (w : World T)
      → len ≤ length samples
      → len ≤ length others
      → take len samples ≡ take len others
      → server_sppush_push e line samples len chlist bits w
        ≡ server_sppush_push e line others len chlist bits w
  server_sppush_push-prefix reads line samples others len chlist bits w whole whole' same =
      push-take reads samples len whole line chlist bits w
      ∙ (ap (λ s. server_sppush_push e line s len chlist bits w) same
          ∙ sym (push-take reads others len whole' line chlist bits w))
