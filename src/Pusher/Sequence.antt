-- ===== src/Pusher/Sequence.antt =====
-- The number of a package (package_seq, server_sppush_push_channel).
use castserver.Base.{ℕ, ◌+◌, ◌-◌, ◌%◌, ◌^◌, ◌≤◌, ◌<◌, ◌≡◌, refl, ◌∙◌, List, [], ◌∷◌, arith}
use castserver.Env.{Env}
use castserver.World.{World, state_of}
use castserver.Pusher.{next_seq, pusher_sendto_speaker, push_loop, server_sppush_push_channel}

abbrev pub IsSeq : ℕ → Type 0
IsSeq s = (1 ≤ s) × (s < 2 ^ 16)

pub next_seq_lem : (s : ℕ) → IsSeq s → IsSeq (next_seq s) × (next_seq s ≡ s % (2 ^ 16 - 1) + 1)
next_seq_lem s h = ground arith

module _ {T : Type 0} (e : Env T) where
  pusher-pusher_sendto_speaker :
      (sp : ℕ) (packet : List ℕ) (len : ℕ) (w : World T)
      → (state_of (pusher_sendto_speaker e sp packet len w)).pusher ≡ w.pusher
  unfolding pusher_sendto_speaker
  pusher-pusher_sendto_speaker sp packet len w = ground arith

  seq-push_loop :
      (sps : List ℕ) (len : ℕ) (w : World T)
      → (state_of (push_loop e sps len w)).pusher.package_seq ≡ w.pusher.package_seq
  unfolding push_loop
  seq-push_loop [] len w = refl
  seq-push_loop (sp ∷ rest) len w =
      let buf = e.pcm_header_encode w.pusher.channel_buffer w.pusher.pcm_head in
      let v : World T = record w { pusher = record (w.pusher) { channel_buffer = buf } } in
      ground (
        arith,
        pusher-pusher_sendto_speaker sp buf len v,
        seq-push_loop rest len (state_of (pusher_sendto_speaker e sp buf len v)),
      )

  next_seq-push_channel :
      (line ch len : ℕ) (w : World T)
      → (state_of (server_sppush_push_channel e line ch len w)).pusher.package_seq
        ≡ next_seq w.pusher.package_seq
  unfolding server_sppush_push_channel
  next_seq-push_channel line ch len w =
      let v : World T = record w {
        pusher = record (w.pusher) { package_seq = next_seq w.pusher.package_seq };
      } in
      ground (arith, seq-push_loop (e.get_speaker_list w.speakers line ch).1 len v)

  -- Each push of a channel takes the next package number, whether or not the channel has speakers and
  -- whatever happens to its datagrams: the numbers from 1 to 65535 in turn, and from 65535 to 1.
  pub IsSeq-push_channel :
      (line ch len : ℕ) (w : World T)
      → IsSeq w.pusher.package_seq
      → let v = state_of (server_sppush_push_channel e line ch len w) in
        IsSeq v.pusher.package_seq
        × (v.pusher.package_seq ≡ w.pusher.package_seq % (2 ^ 16 - 1) + 1)
  IsSeq-push_channel line ch len w seq =
      let r = next_seq-push_channel line ch len w in
      let (good, next) = next_seq_lem w.pusher.package_seq seq in (rw r good, r ∙ next)
