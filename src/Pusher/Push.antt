-- ===== src/Pusher/Push.antt =====
-- A chunk of audio, from the interleaved samples to the datagrams (server_sppush_push).
use native.Mathlib.Nat.{mul-mod_left, mul_comm}
use castserver.Base.{
  ℕ, ℤ, pos, ◌+◌, ◌*◌, ◌/◌, ◌%◌, ◌<◌, ◌≡◌, refl, ap, ◌∙◌, Bool, Bool-cases, inl, inr, lt→ltb, true,
  ◌&&◌, List, length, drop, arith, All, logged, ltb, ◌==◌,
}
use castserver.Env.{Env, Store}
use castserver.World.{World, M, pure, ◌>>◌, ◌>>=◌, done, state_of, settled, >>=-done}
use castserver.Config.{config_mtu}
use castserver.Pusher.{channel_buffer_size, assert, channels_loop, server_sppush_push}
use castserver.Pusher.Channel.{EncodesHeader, AllReady, recipients}
use castserver.Pusher.Packets.{all_packets, Room, Sent}
use castserver.Pusher.Frames.{IsFrame, interleave, length-interleave}
use castserver.Pusher.Deinterleave.{CopiesBytes}
use castserver.Pusher.Chunk.{channels_loop-Sent}

module _ {T : Type 0} (e : Env T) (header : List ℕ → List ℕ) (enc : EncodesHeader e header)
    (cpy : CopiesBytes e) (channels bits line : ℕ) (frames : List (List (List ℕ)))
    (whole : All (IsFrame channels bits) frames) (pos_bits : 0 < bits) where
  abbrev len : ℕ
  len = length (interleave frames)

  -- The bytes of one channel's samples.
  abbrev size : ℕ
  size = length frames * bits

  abbrev AllTold : Store T → List ℕ → Type 0
  AllTold store chs = All (λ ch. AllReady e store.mem (recipients e store line ch)) chs

  whole_frames : len % (channels * bits) ≡ 0
  whole_frames =
      ap (λ n. n % (channels * bits))
        (length-interleave channels bits frames whole
          ∙ ap (λ s. length frames * s) (mul_comm bits channels))
      ∙ mul-mod_left (length frames) (channels * bits)

  asserted : (c : Bool) (f : M T ℤ) (w : World T) → c ≡ true → (assert e c >> f) w ≡ f w
  asserted c f w h = elim (Bool-cases e.debug) [
    | inl debug ↦ rw (h, debug, ◌>>=◌)
    | inr release ↦ rw (h, release, ◌>>=◌)
  ]

  pub server_sppush_push-Sent :
      (chlist : List ℕ) (rest : List ℕ) (w : World T)
      → length chlist ≡ channels
      → 0 < channels
      → e.pcm_header_size + len < channel_buffer_size
      → len / channels < config_mtu
      → Room e len size rest w
      → AllTold w.speakers chlist
      → let v = state_of (server_sppush_push e line (interleave frames) len chlist bits w) in
        (server_sppush_push e line (interleave frames) len chlist bits w ≡ done (pos 0) v)
        × Sent e len size
            (all_packets e header line frames w.speakers w.pusher.pcm_head rest 0 chlist)
            rest
            w
            v
  unfolding server_sppush_push
  server_sppush_push-Sent chlist rest w count some_channel fits mtu room told =
      let (r, t) =
        channels_loop-Sent e header enc cpy channels bits line frames whole pos_bits 0 chlist rest w
          (omega (arith, count)) room told in
      let pushing = λ (n : ℕ).
        channels_loop e line (interleave frames) len bits (bits * n) 0 chlist >> pure (pos 0) in
      let positive : 0 < channels * bits = grind arith in
      let third =
        assert e (ltb 0 (length chlist) && ltb (len / length chlist) config_mtu)
        >> pushing (length chlist) in
      settled
        (Sent e len size
          (all_packets e header line frames w.speakers w.pusher.pcm_head rest 0 chlist) rest w)
        _ (pos 0) _
        (asserted (ltb (e.pcm_header_size + len) channel_buffer_size) _ w (lt→ltb _ _ fits)
          ∙ (asserted (ltb 0 (length chlist * bits) && len % (length chlist * bits) == 0) third w
                (rw count (ground (arith, whole_frames, positive)))
              ∙ (asserted (ltb 0 (length chlist) && ltb (len / length chlist) config_mtu)
                    (pushing (length chlist)) w (rw count (ground arith))
                  ∙ (ap (λ n. pushing n w) count
                      ∙ >>=-done
                          (channels_loop e line (interleave frames) len bits (bits * channels) 0
                            chlist)
                          (λ _. pure (pos 0)) w _ tt r))))
        t

  -- Pushing whole frames of samples of `bits` bytes, one channel of the list for each sample of a
  -- frame, always returns 0. The conditions are that the chunk meets the bounds of the asserts, that
  -- the static buffer has its size, and that every speaker of the channels is ready. Then each of
  -- them is sent one datagram on its own socket, in the order of the channels and of their lists: the
  -- header, the samples of its channel and no other's, in order, and behind them the bytes that the
  -- buffer happened to hold, to the length of the chunk of all channels. Nobody else is sent
  -- anything, and no speaker changes. `common/` has to write the header where it belongs, and to copy
  -- by BITS_CPY.
  pub server_sppush_push_lem :
      (chlist : List ℕ) (w : World T)
      → length chlist ≡ channels
      → 0 < channels
      → e.pcm_header_size + len < channel_buffer_size
      → len / channels < config_mtu
      → length w.pusher.channel_buffer ≡ channel_buffer_size
      → AllTold w.speakers chlist
      → let v = state_of (server_sppush_push e line (interleave frames) len chlist bits w) in
        (server_sppush_push e line (interleave frames) len chlist bits w ≡ done (pos 0) v)
        × (v.speakers ≡ w.speakers)
        × (v.trace
            ≡ logged
                (all_packets e header line frames w.speakers w.pusher.pcm_head
                  (drop (e.pcm_header_size + length frames * bits) w.pusher.channel_buffer)
                  0
                  chlist)
                w.trace)
  server_sppush_push_lem chlist w count some_channel fits mtu full told =
      let rest = drop (e.pcm_header_size + size) w.pusher.channel_buffer in
      let room : Room e len size rest w = record {
        room = omega (arith, full, fits);
        behind = refl;
      } in
      let (q, p) = server_sppush_push-Sent chlist rest w count some_channel fits mtu room told in
      (q, p.speakers, p.trace)
