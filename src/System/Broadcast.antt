-- ===== src/System/Broadcast.antt =====
-- The client, the server and the speakers together: a file on its way from pipe_init to the datagrams
-- of cmd_wave.
use castserver.Base.{
  ℕ, ℤ, pos, ◌+◌, ◌-◌, ◌/◌, ◌%◌, ◌≤◌, ◌<◌, ◌≡◌, ◌≢◌, sym, ap, ◌∙◌, List, [], ◌∷◌, ◌++◌, length,
  take, drop, take-all, length-drop, append_assoc, take-append-drop, arith, All, logged, keep,
}
use mathlib.Core.List.{flatten}
use castserver.Env.{Env}
use castserver.World.{World, done, state_of}
use castserver.Control.Format.{EncodesWhole}
use castserver.Pusher.Channel.{EncodesHeader, AllReady, recipients}
use castserver.Pusher.Deinterleave.{CopiesBytes}
use castserver.Pusher.Prefix.{ReadsBytes}
use castserver.Client.{fread, pipe_request}
use castserver.Client.Blocks.{
  blocks, reads, reads-IsReads, fread-back, flatten-blocks, length-fread, length-blocks,
}
use castserver.Command.{call_command}
use castserver.Wave.{playing}
use castserver.Wave.Stream.{received, Delivers}
use castserver.Wave.Datagrams.{Plays, Playable, played_packets}
use castserver.Wave.Chunks.{Fills, Whole}
use castserver.Wave.Sound.{format_calls}
use castserver.Wave.Sendto.{is_sendto}
use castserver.Wave.Split.{Allocates}
use castserver.Wave.Heard.{cmd_wave-chunks}
use castserver.System.Playback.{request_played}

Whole-Fills : (chunk : ℕ) (rest : List (List ℕ)) → Whole chunk rest → Fills chunk 0 rest
Whole-Fills chunk [] whole = tt
Whole-Fills chunk (m ∷ rest) whole = (omega (arith, whole.0), Whole-Fills chunk rest whole.1)

Fills-at :
    (chunk left : ℕ) (rest : List (List ℕ)) → left ≡ 0 → Whole chunk rest → Fills chunk left rest
Fills-at chunk left rest aligned whole =
    let fills = Whole-Fills chunk rest whole in rw aligned fills

module _ {T : Type 0} (e : Env T) (header : List ℕ → List ℕ) (enc : EncodesHeader e header)
    (cpy : CopiesBytes e) (reads_bits : ReadsBytes e) (whole : EncodesWhole e) (alloc : Allocates e)
    (fd : ℤ) (messages : List (List ℕ)) (peer : Delivers e fd messages) where
  -- What the speakers get of a file that the client was given. The server receives the first message
  -- of pipe_init and then, one for each `recv`, the blocks that the client sends after it; the
  -- samples behind the header in the first 4084 bytes of the file are whole chunks. Then call_command
  -- returns 0 and changes no speaker. The datagrams that it adds to the trace are the commands that
  -- tell the format and then, chunk by chunk and in order, those for the first `chunk / channels`
  -- bytes of every chunk (as in `cmd_wave-calls`); and the chunks, behind the header and cut to the
  -- length of the file, are the file. The other conditions are those of `cmd_wave-chunks`, where the
  -- header is within the first 4084 bytes.
  pub file_heard :
      (rounds : ℕ) (file stale heap : List ℕ) (chunks : List (List ℕ))
      (parts : List (List (List (List ℕ)))) (w : World T)
      → let part = fread 4084 file stale in
        let header_size = e.header_check part 4084 in
        let format = e.get_format part 4084 in
        let p = playing e part 4084 in
        let later = drop 4084 file in
        let sent = blocks p.chunk (reads p.chunk (length later)) later heap in
        let old =
          drop
            (e.pcm_header_size + p.per_sample_chunk_bytes / length p.chlist)
            w.pusher.channel_buffer in
        length stale ≡ 4084
        → length heap ≡ p.chunk
        → 0 < header_size
        → header_size ≤ 4084
        → format.channels ≢ 0
        → 0 < p.chunk
        → (4084 - header_size) % p.chunk ≡ 0
        → drop (received w.trace) messages ≡ sent
        → length sent < rounds
        → Playable e p
        → All (λ sp. sp ≢ 0) (e.speaker_foreach w.speakers)
        → All (λ ch. AllReady e w.speakers.mem (recipients e w.speakers e.default_line ch)) p.chlist
        → p.per_sample_chunk_bytes + e.pcm_header_size ≤ length w.pusher.channel_buffer
        → drop header_size part ++ flatten sent ≡ flatten chunks
        → Whole p.chunk chunks
        → Plays (length p.chlist) p.bytes p.per_sample_chunk_bytes chunks parts
        → let m = call_command e rounds fd (pipe_request part) 4096 in
          let v = state_of (m w) in
          (m w ≡ done (pos 0) v)
          × (v.speakers ≡ w.speakers)
          × (keep is_sendto v.trace
              ≡ logged
                  (format_calls e format w
                    ++ played_packets e header p w.speakers w.pusher.pcm_head old parts)
                  (keep is_sendto w.trace))
          × (take (length file) (take header_size part ++ flatten chunks) ≡ file)
  file_heard rounds file stale heap chunks parts w full sized found inside some_channel some_chunk
        aligned same enough playable live ready room joined cut plays =
      let part = fread 4084 file stale in
      let p = playing e part 4084 in
      let later = drop 4084 file in
      let sent = blocks p.chunk (reads p.chunk (length later)) later heap in
      let long = length-fread 4084 file stale full in
      let h = e.header_check part 4084 in
      let all : take (4084 - h) (drop h part) ≡ drop h part =
        take-all (4084 - h) (drop h part) (omega (arith, length-drop h part, long)) in
      let (r, s, t) =
        cmd_wave-chunks e header enc cpy reads_bits whole alloc fd messages peer rounds 4084 part
          chunks parts w found inside (omega arith) (omega arith) some_channel some_chunk
          (rw same (
            Fills-at p.chunk ((4084 - h) % p.chunk) sent aligned
              (length-blocks p.chunk (reads p.chunk (length later)) later heap sized)))
          (rw same enough) playable live ready room
          (ap (λ k. k ++ flatten (drop (received w.trace) messages)) all
            ∙ (ap (λ k. drop h part ++ flatten k) same ∙ joined))
          cut plays in
      let gone : take h part ++ flatten chunks ≡ part ++ flatten sent =
        ap (λ k. take h part ++ k) (sym joined)
        ∙ (sym (append_assoc (take h part) (drop h part) (flatten sent))
            ∙ ap (λ k. k ++ flatten sent) (take-append-drop h part)) in
      let told = format_calls e (e.get_format part 4084) w in
      let old =
        drop (e.pcm_header_size + p.per_sample_chunk_bytes / length p.chlist)
          w.pusher.channel_buffer in
      let packets = played_packets e header p w.speakers w.pusher.pcm_head old parts in
      let m = call_command e rounds fd (pipe_request part) 4096 in
      let (r', s', t') : (m w ≡ done (pos 0) (state_of (m w)))
          × ((state_of (m w)).speakers ≡ w.speakers)
          × (keep is_sendto (state_of (m w)).trace
              ≡ logged (told ++ packets) (keep is_sendto w.trace)) =
        rw (request_played e fd messages peer rounds part w) (r, s, t) in
      (
        r',
        s',
        t',
        ap (take (length file)) gone
            ∙ fread-back 4084 file stale _ full (
                flatten-blocks p.chunk (reads p.chunk (length later)) later heap sized
                  (reads-IsReads p.chunk (length later) some_chunk)),
      )
