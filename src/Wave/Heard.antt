-- ===== src/Wave/Heard.antt =====
-- The datagrams of a file, whatever part of it comes with the command (cmd_wave).
use mathlib.Core.List.{flatten}
use native.Mathlib.Nat.{div-le_self}
use castserver.Base.{
  ℕ, ℤ, pos, ◌+◌, ◌-◌, ◌/◌, ◌%◌, ◌^◌, ◌≤◌, ◌<◌, ◌≡◌, ◌≢◌, refl, List, ◌++◌, length, take, drop,
  length-drop, arith, All, logged, keep, some, keep-map,
}
use castserver.Env.{Env}
use castserver.World.{World, done, state_of}
use castserver.Control.Format.{EncodesWhole}
use castserver.Pusher.Channel.{EncodesHeader, AllReady, recipients}
use castserver.Pusher.Deinterleave.{CopiesBytes}
use castserver.Pusher.Prefix.{ReadsBytes}
use castserver.Wave.{playing, cmd_wave}
use castserver.Wave.Stream.{received, Delivers}
use castserver.Wave.Datagrams.{Plays, Playable, played_packets}
use castserver.Wave.Chunks.{Fills, Whole}
use castserver.Wave.Sound.{format_calls, cmd_wave-calls}
use castserver.Wave.Sendto.{is_sendto, heard}
use castserver.Wave.Split.{Allocates, Fills-Fits, Plays-split}

module _ {T : Type 0} (e : Env T) (header : List ℕ → List ℕ) (enc : EncodesHeader e header)
    (cpy : CopiesBytes e) (reads : ReadsBytes e) (whole : EncodesWhole e) (alloc : Allocates e)
    (fd : ℤ) (messages : List (List ℕ)) (peer : Delivers e fd messages) where
  -- What is heard of a file does not depend on how much of it came with the command. The samples
  -- that stand in the command behind the header, and then the messages of the peer, are together a
  -- list of whole chunks. The command with the file returns 0, and changes no speaker; the datagrams
  -- that it adds to the trace are the commands that tell the format and then, chunk by chunk, those
  -- of `cmd_wave-calls` for the first `chunk / channels` bytes of each chunk, also of the chunk that
  -- is begun in the command and completed by a message. The conditions are those of `cmd_wave-calls`,
  -- and: each message fills the free part of the buffer, and `malloc` gives as many bytes as it was
  -- asked for.
  pub cmd_wave-chunks :
      (rounds len : ℕ) (arg : List ℕ) (chunks : List (List ℕ)) (parts : List (List (List (List ℕ))))
      (w : World T)
      → let header_size = e.header_check arg len in
        let format = e.get_format arg len in
        let p = playing e arg len in
        let size = len - header_size in
        let rest = drop (received w.trace) messages in
        let old =
          drop
            (e.pcm_header_size + p.per_sample_chunk_bytes / length p.chlist)
            w.pusher.channel_buffer in
        0 < header_size
        → header_size ≤ len
        → len < 2 ^ 32
        → len ≤ length arg
        → format.channels ≢ 0
        → 0 < p.chunk
        → Fills p.chunk (size % p.chunk) rest
        → length rest < rounds
        → Playable e p
        → All (λ sp. sp ≢ 0) (e.speaker_foreach w.speakers)
        → All (λ ch. AllReady e w.speakers.mem (recipients e w.speakers e.default_line ch)) p.chlist
        → p.per_sample_chunk_bytes + e.pcm_header_size ≤ length w.pusher.channel_buffer
        → take size (drop header_size arg) ++ flatten rest ≡ flatten chunks
        → Whole p.chunk chunks
        → Plays (length p.chlist) p.bytes p.per_sample_chunk_bytes chunks parts
        → let v = state_of (cmd_wave e rounds fd (some arg) len w) in
          (cmd_wave e rounds fd (some arg) len w ≡ done (pos 0) v)
          × (v.speakers ≡ w.speakers)
          × (keep is_sendto v.trace
              ≡ logged
                  (format_calls e format w
                    ++ played_packets e header p w.speakers w.pusher.pcm_head old parts)
                  (keep is_sendto w.trace))
  cmd_wave-chunks rounds len arg chunks parts w found inside small long some_channel some_chunk
        fills enough playable live ready room joined cut plays =
      let p = playing e arg len in
      let header_size = e.header_check arg len in
      let size = len - header_size in
      let n = size / p.chunk in
      let left = size % p.chunk in
      let rest = drop (received w.trace) messages in
      let old =
        drop (e.pcm_header_size + p.per_sample_chunk_bytes / length p.chlist)
          w.pusher.channel_buffer in
      let commands = format_calls e (e.get_format arg len) w in
      let h =
        logged (played_packets e header p w.speakers w.pusher.pcm_head old (take n parts))
          (logged commands w.trace) in
      let (less, front, back) =
        Plays-split e alloc p some_chunk (div-le_self _ _) size (drop header_size arg) rest chunks
          parts h (omega (arith, length-drop header_size arg)) fills joined cut plays in
      let (r, s, t) =
        cmd_wave-calls e header enc cpy reads whole fd messages peer rounds len arg (take n parts)
          (drop n parts) w found inside small long some_channel some_chunk
          (Fills-Fits p.chunk left rest less fills) enough playable live ready room front back in
      (
        r,
        s,
        heard e header p w.speakers w.pusher.pcm_head old commands fd left n parts
            (keep-map is_sendto _ (λ sp. refl) _) w.trace _ t,
      )
