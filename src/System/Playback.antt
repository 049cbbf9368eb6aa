-- ===== src/System/Playback.antt =====
-- The client and the server together: a file on its way from pipe_init to cmd_wave.
use castserver.Base.{
  ℕ, ℤ, ◌+◌, ◌-◌, ◌*◌, ◌%◌, ◌^◌, ◌≤◌, ◌<◌, ◌≡◌, ◌≢◌, refl, ap, ◌∙◌, List, ◌++◌, length, take, drop,
  length-append, length-take, length-drop, some, arith,
}
use mathlib.Core.List.{flatten}
use castserver.Env.{Env}
use castserver.World.{World, ◌>>◌}
use castserver.Control.{server_spctrl_set_format}
use castserver.Client.{fread, pipe_request}
use castserver.Client.Blocks.{
  blocks, reads, reads-IsReads, fread-back, flatten-blocks, length-fread,
}
use castserver.Command.{call_command, command_loop}
use castserver.Wave.{playing, cmd_wave}
use castserver.Wave.Stream.{received, Fits, Delivers}
use castserver.Wave.Play.{play_file, cmd_wave_lem}

module _ {T : Type 0} (e : Env T) (fd : ℤ) (messages : List (List ℕ))
    (peer : Delivers e fd messages) where
  pub request_played :
      (rounds : ℕ) (part : List ℕ) (w : World T)
      → call_command e rounds fd (pipe_request part) 4096 w
        ≡ cmd_wave e rounds fd (some part) 4084 w
  unfolding call_command command_loop castserver.Base.eq_bytes castserver.Base.eq_ncase
  request_played rounds part w = refl

  -- The server gets the whole file that the client was given, and takes it in order. It receives
  -- the first message of pipe_init whole, and then the bytes of the client's further messages, cut
  -- in any way into pieces that fit what `recv` is asked for; the header is within the first 4084
  -- bytes of the file and says that there are channels and that a chunk is not empty; `rounds`
  -- exceeds the number of pieces. Then call_command tells the speakers the format of the file and
  -- pushes, in order, the chunks of the first message and those pieces (`play_file`); and the bytes
  -- that it was sent, cut to the length of the file, are the file.
  pub file_played :
      (rounds : ℕ) (file stale heap : List ℕ) (w : World T)
      → let part = fread 4084 file stale in
        let header_size = e.header_check part 4084 in
        let format = e.get_format part 4084 in
        let p = playing e part 4084 in
        let later = drop 4084 file in
        let sent = blocks p.chunk (reads p.chunk (length later)) later heap in
        let pieces = drop (received w.trace) messages in
        length stale ≡ 4084
        → length heap ≡ p.chunk
        → 0 < header_size
        → header_size ≤ 4084
        → format.channels ≢ 0
        → 0 < p.chunk
        → flatten pieces ≡ flatten sent
        → Fits p.chunk ((4084 - header_size) % p.chunk) pieces
        → length pieces < rounds
        → (call_command e rounds fd (pipe_request part) 4096 w
            ≡ (server_spctrl_set_format e p.chlist format.samples_per_sec format.bits_per_sample
                  >> play_file e fd messages peer p
                      (4084 - header_size)
                      (drop header_size part)
                      pieces)
                w)
          × (take (length file) (part ++ flatten pieces) ≡ file)
  file_played rounds file stale heap w full sized found fits some_channel some_chunk same ok
        enough =
      let part = fread 4084 file stale in
      let p = playing e part 4084 in
      let later = drop 4084 file in
      (
        request_played rounds part w
            ∙ cmd_wave_lem e fd messages peer rounds 4084 part w found fits (omega arith)
                (omega (arith, length-fread 4084 file stale full)) some_channel some_chunk ok
                enough,
        fread-back 4084 file stale _ full (
            ap (take (length later)) same
            ∙ flatten-blocks p.chunk (reads p.chunk (length later)) later heap sized
                (reads-IsReads p.chunk (length later) some_chunk)),
      )
