-- ===== src/Pusher/Chunk.antt =====
-- The loop over the channels of server_sppush_push, which takes a chunk of interleaved samples apart.
use castserver.Base.{
  ℕ, suc, ◌+◌, ◌*◌, ◌≤◌, ◌<◌, ◌≡◌, refl, sym, ap, ◌∙◌, List, [], ◌∷◌, ◌++◌, map, length, take, drop,
  length-append, length-take, length-drop, drop-length, drop-add, arith, All, logged,
}
use castserver.Env.{Env, Store}
use castserver.World.{World, M, ◌>>◌, done, state_of, settled, >>=-done}
use castserver.Pusher.{store_buffer, copy_loop, server_sppush_push_channel, channels_loop}
use castserver.Pusher.Channel.{
  EncodesHeader, AllReady, Pushed, packet_for, recipients, push_channel-Pushed,
}
use castserver.Pusher.Packets.{channel_packets, all_packets, Room, Sent, Sent-trans}
use castserver.Pusher.Frames.{
  IsFrame, interleave, channel_bytes, length-interleave, length-channel_bytes,
}
use castserver.Pusher.Deinterleave.{CopiesBytes, copy_loop_lem}

module _ {T : Type 0} (e : Env T) (header : List ℕ → List ℕ) (enc : EncodesHeader e header)
    (cpy : CopiesBytes e) (channels bits line : ℕ) (frames : List (List (List ℕ)))
    (whole : All (IsFrame channels bits) frames) (pos_bits : 0 < bits) where
  abbrev pub len : ℕ
  len = length (interleave frames)

  -- The bytes of one channel's samples.
  abbrev pub size : ℕ
  size = length frames * bits

  abbrev copied : ℕ → List ℕ → World T → World T
  copied i rest w = record w {
    pusher = record (w.pusher) {
      channel_buffer =
          take e.pcm_header_size w.pusher.channel_buffer ++ (channel_bytes i frames ++ rest);
    };
  }

  samples_fit : 0 < channels → length frames * bits ≤ len
  samples_fit some_channel = let total = length-interleave channels bits frames whole in grind arith

  header_length :
      (rest : List ℕ) (w : World T)
      → Room e len size rest w
      → length (take e.pcm_header_size w.pusher.channel_buffer) ≡ e.pcm_header_size
  header_length rest w room =
      let fits : e.pcm_header_size ≤ length w.pusher.channel_buffer = omega (arith, room.room) in
      omega (arith, length-take e.pcm_header_size w.pusher.channel_buffer)

  body-copied :
      (i : ℕ) (rest : List ℕ) (w : World T)
      → Room e len size rest w
      → drop e.pcm_header_size (copied i rest w).pusher.channel_buffer
        ≡ channel_bytes i frames ++ rest
  body-copied i rest w room =
      let start = take e.pcm_header_size w.pusher.channel_buffer in
      ap (λ k. drop k (start ++ (channel_bytes i frames ++ rest))) (sym (header_length rest w room))
      ∙ drop-length start (channel_bytes i frames ++ rest)

  length-copied :
      (i : ℕ) (rest : List ℕ) (w : World T)
      → i < channels
      → Room e len size rest w
      → length (copied i rest w).pusher.channel_buffer ≡ length w.pusher.channel_buffer
  length-copied i rest w lt room =
      let start = take e.pcm_header_size w.pusher.channel_buffer in
      omega (
        arith,
        length-append start (channel_bytes i frames ++ rest),
        length-append (channel_bytes i frames) rest,
        length-channel_bytes channels bits i frames whole lt,
        header_length rest w room,
        ap length room.behind,
        length-drop (e.pcm_header_size + size) w.pusher.channel_buffer,
        samples_fit (omega arith),
        room.room,
      )

  store-copied :
      (i : ℕ) (rest : List ℕ) (w : World T)
      → i < channels
      → Room e len size rest w
      → store_buffer e
          (copy_loop e
            (interleave frames)
            len
            bits
            (bits * channels)
            (suc len)
            (i * bits)
            e.pcm_header_size
            w.pusher.channel_buffer)
          w
        ≡ done tt (copied i rest w)
  store-copied i rest w lt room = rw (
    copy_loop_lem e cpy channels bits i e.pcm_header_size frames w.pusher.channel_buffer whole lt
        pos_bits (omega (arith, room.room, samples_fit (omega arith))),
    room.behind,
  )

  Pushed-Sent :
      (i ch : ℕ) (rest : List ℕ) (w v : World T)
      → i < channels
      → Room e len size rest w
      → Pushed e header
          (recipients e w.speakers line ch)
          (len + e.pcm_header_size)
          (copied i rest w)
          v
      → Sent e len size
          (channel_packets e header line frames w.speakers w.pusher.pcm_head rest i ch)
          rest
          w
          v
  Pushed-Sent i ch rest w v lt room p = record {
    speakers = p.speakers;
    head = p.head;
    room = record {
      room = omega (arith, p.size, length-copied i rest w lt room, room.room);
      behind =
          drop-add e.pcm_header_size (length frames * bits) v.pusher.channel_buffer
          ∙ (ap (drop (length frames * bits)) (p.body ∙ body-copied i rest w room)
              ∙ (ap (λ k. drop k (channel_bytes i frames ++ rest))
                    (sym (length-channel_bytes channels bits i frames whole lt))
                  ∙ drop-length (channel_bytes i frames) rest));
    };
    trace =
        p.trace
        ∙ ap
            (λ b.
              logged
                (map
                  (packet_for e w.speakers.mem (header w.pusher.pcm_head ++ b)
                    (len + e.pcm_header_size))
                  (recipients e w.speakers line ch))
                w.trace)
            (body-copied i rest w room);
  }

  -- The speakers of all channels of a list are ready.
  abbrev pub AllTold : Store T → List ℕ → Type 0
  AllTold store chs = All (λ ch. AllReady e store.mem (recipients e store line ch)) chs

  abbrev pub loop : ℕ → List ℕ → M T (Unit {0})
  loop i chs = channels_loop e line (interleave frames) len bits (bits * channels) i chs

  pub channels_loop-Sent :
      (i : ℕ) (chs : List ℕ) (rest : List ℕ) (w : World T)
      → i + length chs ≤ channels
      → Room e len size rest w
      → AllTold w.speakers chs
      → (loop i chs w ≡ done tt (state_of (loop i chs w)))
        × Sent e len size
            (all_packets e header line frames w.speakers w.pusher.pcm_head rest i chs)
            rest
            w
            (state_of (loop i chs w))
  unfolding channels_loop
  channels_loop-Sent i [] rest w bound room told =
      (refl, record { speakers = refl; head = refl; room = room; trace = refl })
  channels_loop-Sent i (ch ∷ chs) rest w bound room told =
      let lt : i < channels = omega arith in
      let u = copied i rest w in
      let n = len + e.pcm_header_size in
      let same_size = length-copied i rest w lt room in
      let (q, p) =
        push_channel-Pushed e header enc line ch n u (omega (arith, same_size, room.room))
          (omega (arith, same_size, room.room)) told.0 in
      let v = state_of (server_sppush_push_channel e line ch n u) in
      let s = Pushed-Sent i ch rest w v lt room p in
      let told' : AllTold v.speakers chs = rw s.speakers told.1 in
      let (r, t) = channels_loop-Sent (i + 1) chs rest v (omega arith) s.room told' in
      let packets =
        ap (λ st. all_packets e header line frames st v.pusher.pcm_head rest (i + 1) chs) s.speakers
        ∙ ap (λ h. all_packets e header line frames w.speakers h rest (i + 1) chs) s.head in
      settled
        (Sent e len size
          (all_packets e header line frames w.speakers w.pusher.pcm_head rest i (ch ∷ chs)) rest w)
        _ tt _
        (>>=-done
            (store_buffer e (
              copy_loop e (interleave frames) len bits (bits * channels) (suc len) (i * bits)
                e.pcm_header_size w.pusher.channel_buffer))
            (λ _. server_sppush_push_channel e line ch n >> loop (i + 1) chs) w u tt
            (store-copied i rest w lt room)
          ∙ (>>=-done (server_sppush_push_channel e line ch n) (λ _. loop (i + 1) chs) u v _ q ∙ r))
        (Sent-trans e len size
          (channel_packets e header line frames w.speakers w.pusher.pcm_head rest i ch) _ _ rest w v
          _ packets s t)
