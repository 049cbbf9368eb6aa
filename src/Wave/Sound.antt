-- ===== src/Wave/Sound.antt =====
-- All calls of the server when a file is played, from the command to the end of the connection
-- (cmd_wave).
use castserver.Control.Format.{
  EncodesWhole, told, is_told, set_format-pusher, server_spctrl_set_format_lem,
}
use castserver.Control.{server_spctrl_set_format}
use castserver.Types.{AudioFormat}
use castserver.Wave.{playing, cmd_wave}
use castserver.Wave.Stream.{received, Fits}
use castserver.Wave.Play.{cmd_wave_lem}
use castserver.Base.{
  ℕ, ℤ, pos, ◌+◌, ◌-◌, ◌*◌, ◌/◌, ◌%◌, ◌^◌, ◌≤◌, ◌<◌, ◌≡◌, ◌≢◌, refl, ◌∙◌, List, ◌++◌, length, drop,
  All, logged, keep, map, some,
}
use castserver.Types.{Call, control_package_zero}
use castserver.Env.{Env}
use castserver.World.{World, done, state_of, settled}
use castserver.Pusher.Channel.{EncodesHeader, AllReady, recipients}
use castserver.Pusher.Deinterleave.{CopiesBytes}
use castserver.Pusher.Prefix.{ReadsBytes}
use castserver.Pusher.Packets.{Sent}
use castserver.Wave.Body.{pieces}
use castserver.Wave.Stream.{Delivers}
use castserver.Wave.Play.{left_over}
use castserver.Wave.Datagrams.{Plays, Playable, played_packets}
use castserver.Wave.Messages.{buffers, message_calls}
use castserver.Wave.File.{play_file-after}

module _ {T : Type 0} (e : Env T) where
  -- The commands that tell the format of a file.
  abbrev pub format_calls : AudioFormat → World T → List Call
  format_calls format w =
      let hd = record control_package_zero {
        cmd = e.spcmd_sample;
        bits = format.bits_per_sample;
        rate = format.samples_per_sec;
      } in
      map (told e w.control.read_fd w.speakers.mem hd)
        (keep (is_told e w.speakers.mem) (e.speaker_foreach w.speakers))

module _ {T : Type 0} (e : Env T) (header : List ℕ → List ℕ) (enc : EncodesHeader e header)
    (cpy : CopiesBytes e) (reads : ReadsBytes e) (whole : EncodesWhole e) (fd : ℤ)
    (messages : List (List ℕ)) (peer : Delivers e fd messages) where
  -- Playing a file, down to every call of the server: the command with the file returns 0, changes
  -- no speaker, and makes exactly these calls, in this order. The speakers that are online with a
  -- port are told the format. Then, for each chunk that lies whole in the command, each speaker of
  -- each channel of the list gets a datagram: it has the header, the samples of its channel out of
  -- the first `chunk / channels` bytes of the chunk, and behind them stale bytes of the static
  -- buffer. Then each message of the peer is received, the buffer that it was put in goes to the
  -- speakers in the same way, and it is answered; and the last `recv` finds the end of the
  -- connection. Of every chunk, the bytes behind the first `chunk / channels` reach nobody. The
  -- conditions are those of `cmd_wave_lem`; these first bytes are whole frames, with a sample of at
  -- least one byte for each channel of the list, and meet the bounds of the asserts and of the
  -- static buffer; the speakers of the channels are ready, and none is at NULL; and `common/`
  -- encodes the commands and the header whole, and copies by BITS_CPY.
  pub cmd_wave-calls :
      (rounds len : ℕ) (arg : List ℕ) (parts later : List (List (List (List ℕ)))) (w : World T)
      → let header_size = e.header_check arg len in
        let format = e.get_format arg len in
        let p = playing e arg len in
        let channels = length p.chlist in
        let size = len - header_size in
        let n = size / p.chunk in
        let left = size % p.chunk in
        let samples = drop header_size arg in
        let rest = drop (received w.trace) messages in
        let old =
          drop (e.pcm_header_size + p.per_sample_chunk_bytes / channels) w.pusher.channel_buffer in
        let commands = format_calls e format w in
        let first = played_packets e header p w.speakers w.pusher.pcm_head old parts in
        0 < header_size
        → header_size ≤ len
        → len < 2 ^ 32
        → len ≤ length arg
        → format.channels ≢ 0
        → 0 < p.chunk
        → Fits p.chunk left rest
        → length rest < rounds
        → Playable e p
        → All (λ sp. sp ≢ 0) (e.speaker_foreach w.speakers)
        → All (λ ch. AllReady e w.speakers.mem (recipients e w.speakers e.default_line ch)) p.chlist
        → p.per_sample_chunk_bytes + e.pcm_header_size ≤ length w.pusher.channel_buffer
        → Plays channels p.bytes p.per_sample_chunk_bytes (pieces p.chunk n samples) parts
        → Plays channels p.bytes p.per_sample_chunk_bytes
            (buffers left
              (left_over e p left
                (drop (n * p.chunk) samples)
                (logged first (logged commands w.trace)))
              rest)
            later
        → let v = state_of (cmd_wave e rounds fd (some arg) len w) in
          (cmd_wave e rounds fd (some arg) len w ≡ done (pos 0) v)
          × (v.speakers ≡ w.speakers)
          × (v.trace
              ≡ logged
                  (commands
                    ++ (first
                        ++ message_calls e header fd p w.speakers w.pusher.pcm_head old left later))
                  w.trace)
  cmd_wave-calls rounds len arg parts later w found inside small long some_channel some_chunk ok
        enough playable live ready room plays plays' =
      let header_size = e.header_check arg len in
      let format = e.get_format arg len in
      let p = playing e arg len in
      let rest = drop (received w.trace) messages in
      let set = server_spctrl_set_format e p.chlist format.samples_per_sec format.bits_per_sample in
      let (q, sp, tr) =
        server_spctrl_set_format_lem e whole p.chlist format.samples_per_sec format.bits_per_sample
          w live in
      let pu =
        set_format-pusher e whole p.chlist format.samples_per_sec format.bits_per_sample w live in
      let old =
        drop (e.pcm_header_size + p.per_sample_chunk_bytes / length p.chlist)
          w.pusher.channel_buffer in
      let (r, t) =
        play_file-after e header enc cpy reads p playable fd messages peer set
          (format_calls e format w) (len - header_size) (drop header_size arg) rest parts later old
          w (state_of (set w)) q sp pu tr plays plays' (record { room = room; behind = refl })
          ready in
      let (r', t') =
        settled
          (Sent e p.per_sample_chunk_bytes (p.per_sample_chunk_bytes / length p.chlist)
            (format_calls e format w
              ++ (played_packets e header p w.speakers w.pusher.pcm_head old parts
                  ++ message_calls e header fd p w.speakers w.pusher.pcm_head old
                      ((len - header_size) % p.chunk) later))
            old w)
          _ (pos 0) _
          (cmd_wave_lem e fd messages peer rounds len arg w found inside small long some_channel
              some_chunk ok enough
            ∙ r)
          t in
      (r', t'.speakers, t'.trace)
