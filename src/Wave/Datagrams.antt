-- ===== src/Wave/Datagrams.antt =====
-- The chunks that come with the command, down to the datagrams (the first loop of cmd_wave).
use native.Mathlib.Nat.{mul-div_cancel, mul_assoc}
use castserver.Base.{
  ℕ, suc, pos, ◌+◌, ◌*◌, ◌/◌, ◌^◌, ◌≤◌, ◌<◌, ◌≡◌, refl, sym, ap, ◌∙◌, List, [], ◌∷◌, ◌++◌, length,
  take, drop, take-all, length-take, arith, All, true, ltb, logged,
}
use castserver.Types.{Call}
use castserver.Env.{Env, Store}
use castserver.World.{World, done, state_of, settled, >>=-done}
use castserver.Config.{config_mtu}
use castserver.Pusher.{channel_buffer_size}
use castserver.Pusher.Channel.{EncodesHeader, AllReady, recipients}
use castserver.Pusher.Frames.{IsFrame, interleave, length-interleave}
use castserver.Pusher.Deinterleave.{CopiesBytes}
use castserver.Pusher.Prefix.{ReadsBytes, server_sppush_push-prefix}
use castserver.Pusher.Packets.{all_packets, Room, Sent, Sent-trans}
use castserver.Pusher.Push.{server_sppush_push-Sent}
use castserver.Wave.{Playing, push, chunk_loop}
use castserver.Wave.Body.{pieces, push_all, chunk_loop-pieces}

-- The first `len` bytes of each chunk are the frames of the part of that number.
abbrev pub Plays : ℕ → ℕ → ℕ → List (List ℕ) → List (List (List (List ℕ))) → Type 0
Plays channels bits len [] [] = Unit
Plays channels bits len [] (part ∷ parts) = ⊥
Plays channels bits len (body ∷ bodies) [] = ⊥
Plays channels bits len (body ∷ bodies) (part ∷ parts) =
    All (IsFrame channels bits) part
    × (len ≤ length body)
    × (take len body ≡ interleave part)
    × Plays channels bits len bodies parts

-- The packets of all chunks, one behind the other.
abbrev pub played_packets :
    {T : Type 0} (e : Env T)
    → (List ℕ → List ℕ)
    → Playing
    → Store T
    → List ℕ
    → List ℕ
    → List (List (List (List ℕ)))
    → List Call
played_packets e header p store head rest [] = []
played_packets e header p store head rest (part ∷ parts) =
    all_packets e header e.default_line part store head rest 0 p.chlist
    ++ played_packets e header p store head rest parts

-- What server_sppush_push needs of the numbers of a file.
pub record Playable {T : Type 0} (e : Env T) (p : Playing) : Type 0 where
  pub some_channel : 0 < length p.chlist
  pub some_byte : 0 < p.bytes
  pub small : p.per_sample_chunk_bytes < 2 ^ 31
  pub fits : e.pcm_header_size + p.per_sample_chunk_bytes < channel_buffer_size
  pub mtu : p.per_sample_chunk_bytes / length p.chlist < config_mtu

module _ {T : Type 0} (e : Env T) (header : List ℕ → List ℕ) (enc : EncodesHeader e header)
    (cpy : CopiesBytes e) (reads : ReadsBytes e) (p : Playing) where
  abbrev len : ℕ
  len = p.per_sample_chunk_bytes

  abbrev channels : ℕ
  channels = length p.chlist

  abbrev AllTold : Store T → Type 0
  AllTold store = All (λ ch. AllReady e store.mem (recipients e store e.default_line ch)) p.chlist

  module _ (ok : Playable e p) where
    -- The length of a part, and the bytes that it has for each channel.
    part_size :
        (body : List ℕ) (part : List (List (List ℕ)))
        → All (IsFrame channels p.bytes) part
        → len ≤ length body
        → take len body ≡ interleave part
        → (length (interleave part) ≡ len) × (length part * p.bytes ≡ len / channels)
    part_size body part whole long same =
        let total : length (interleave part) ≡ len =
          omega (arith, ap length same, length-take len body) in
        let product : length part * p.bytes * channels ≡ len =
          mul_assoc (length part) p.bytes channels
          ∙ (sym (length-interleave channels p.bytes part whole) ∙ total) in
        (
          total,
          sym (mul-div_cancel (length part * p.bytes) ok.some_channel)
              ∙ ap (λ n. n / channels) product,
        )

    pub push-Sent :
        (body : List ℕ) (part : List (List (List ℕ))) (rest : List ℕ) (w : World T)
        → All (IsFrame channels p.bytes) part
        → len ≤ length body
        → take len body ≡ interleave part
        → Room e len (len / channels) rest w
        → AllTold w.speakers
        → let v = state_of (push e p body w) in
          (push e p body w ≡ done (pos 0) v)
          × Sent e len
              (len / channels)
              (all_packets e header e.default_line part w.speakers w.pusher.pcm_head rest 0
                p.chlist)
              rest
              w
              v
    push-Sent body part rest w whole long same room told =
        let (total, size) = part_size body part whole long same in
        let exact : ltb len (2 ^ 31) ≡ true = ground (arith, ok.small) in
        let room' : Room e (length (interleave part)) (length part * p.bytes) rest w =
          rw (total, size) room in
        let sent =
          server_sppush_push-Sent e header enc cpy channels p.bytes e.default_line part whole
            ok.some_byte p.chlist rest w refl ok.some_channel (omega (arith, ok.fits, total))
            (rw total ok.mtu) room' told in
        let first =
          server_sppush_push-prefix e reads e.default_line body (interleave part) len p.chlist
            p.bytes w long (omega (arith, total))
            (same ∙ sym (take-all len (interleave part) (omega (arith, total)))) in
        rw (exact, first, sym size, sym total) sent

    pub push_all-Sent :
        (bodies : List (List ℕ)) (parts : List (List (List (List ℕ)))) (rest : List ℕ) (w : World T)
        → Plays channels p.bytes len bodies parts
        → Room e len (len / channels) rest w
        → AllTold w.speakers
        → let v = state_of (push_all e p bodies w) in
          (push_all e p bodies w ≡ done tt v)
          × Sent e len
              (len / channels)
              (played_packets e header p w.speakers w.pusher.pcm_head rest parts)
              rest
              w
              v
    push_all-Sent [] [] rest w plays room told =
        (refl, record { speakers = refl; head = refl; room = room; trace = refl })
    push_all-Sent [] (part ∷ parts) rest w plays room told = absurd plays
    push_all-Sent (body ∷ bodies) [] rest w plays room told = absurd plays
    push_all-Sent (body ∷ bodies) (part ∷ parts) rest w plays room told =
        let (q, s) = push-Sent body part rest w plays.0 plays.1 plays.2 room told in
        let v = state_of (push e p body w) in
        let told' : AllTold v.speakers = rw s.speakers told in
        let (r, t) = push_all-Sent bodies parts rest v plays.3 s.room told' in
        let packets =
          ap (λ st. played_packets e header p st v.pusher.pcm_head rest parts) s.speakers
          ∙ ap (λ h. played_packets e header p w.speakers h rest parts) s.head in
        settled
          (Sent e len (len / channels)
            (played_packets e header p w.speakers w.pusher.pcm_head rest (part ∷ parts)) rest w)
          _ tt _ (>>=-done (push e p body) (λ _. push_all e p bodies) w v _ q ∙ r)
          (Sent-trans e len (len / channels)
            (all_packets e header e.default_line part w.speakers w.pusher.pcm_head rest 0 p.chlist)
            _ _ rest w v _ packets s t)

    pub chunk_loop-packets :
        (header_size n left size : ℕ) (samples : List ℕ) (parts : List (List (List (List ℕ))))
        (w : World T)
        → size ≡ header_size + (n * p.chunk + left)
        → n * p.chunk + left < 2 ^ 32
        → size < 2 ^ 64
        → left < p.chunk
        → Plays channels p.bytes len (pieces p.chunk n samples) parts
        → e.pcm_header_size + len ≤ length w.pusher.channel_buffer
        → AllTold w.speakers
        → let v = state_of (chunk_loop e p header_size (suc (n * p.chunk + left)) size samples w) in
          (chunk_loop e p header_size (suc (n * p.chunk + left)) size samples w
            ≡ done (drop (n * p.chunk) samples, left) v)
          × (v.speakers ≡ w.speakers)
          × (v.trace
              ≡ logged
                  (played_packets e header p w.speakers w.pusher.pcm_head
                    (drop (e.pcm_header_size + len / channels) w.pusher.channel_buffer)
                    parts)
                  w.trace)
    chunk_loop-packets header_size n left size samples parts w eq small wide lt plays fits told =
        let rest = drop (e.pcm_header_size + len / channels) w.pusher.channel_buffer in
        let enough : n < suc (n * p.chunk + left) = grind arith in
        let loop =
          chunk_loop-pieces e p header_size n left _ size samples w eq small wide lt enough in
        let (q, s) =
          push_all-Sent (pieces p.chunk n samples) parts rest w plays
            (record { room = omega (arith, fits); behind = refl }) told in
        let (r, t) =
          settled
            (Sent e len (len / channels)
              (played_packets e header p w.speakers w.pusher.pcm_head rest parts) rest w)
            _ (drop (n * p.chunk) samples, left) _
            (loop ∙ >>=-done (push_all e p (pieces p.chunk n samples)) _ w _ tt q) s in
        (r, t.speakers, t.trace)
