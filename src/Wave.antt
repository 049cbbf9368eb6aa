-- ===== src/Wave.antt =====
-- command/pushwave.c: the command that plays a file, from its header on to the end of the connection.
-- Its file-level variables are used by this function only, so they are its local state here.
pub mod Body
pub mod Stream
pub mod Play
pub mod Datagrams
pub mod Messages
pub mod File
pub mod Chunks
pub mod Sendto
pub mod Split
pub mod Sound
pub mod Heard
pub mod Endless
pub mod Streams
mod Tests
mod HeardTests
use castserver.Base.{
  ℕ, zero, suc, ℤ, pos, negsuc, to_u32, int_size, ◌+◌, ◌-◌, ◌/◌, ◌%◌, ◌^◌, List, ◌++◌, length, take,
  drop, replicate, Option, none, some, ltb, leb, ◌==◌, if◌then◌else◌,
}
use castserver.Types.{Call, WaveChunk, AudioFormat}
use castserver.Env.{Env}
use castserver.Config.{config_chunk_type}
use castserver.World.{World, M, ◌>>=◌, ◌>>◌, pure, get, undefined, out_of_rounds, sys}
use castserver.Control.{server_spctrl_set_format}
use castserver.Pusher.{server_sppush_push}

-- What the calls of server_sppush_push have in common: `per_sample_chunk_bytes`, the channels and the
-- bytes of a sample.
pub record Playing : Type 0 where
  pub chunk : ℕ
  pub per_sample_chunk_bytes : ℕ
  pub chlist : List ℕ
  pub bytes : ℕ

-- offset = length - header_size, of `size_t`s and kept in a `uint32_t`
abbrev pub offset_of : ℕ → ℕ → ℕ
offset_of len header_size = (len + 2 ^ 64 - header_size) % 2 ^ 32

-- What `recv` leaves in the buffer behind its first `offset` bytes.
abbrev pub received_at : ℕ → ℤ → List ℕ → List ℕ → List ℕ
received_at offset (pos n) bytes buffer =
    take offset buffer ++ (take n bytes ++ drop (offset + n) buffer)
received_at offset (negsuc n) bytes buffer = buffer

module _ {T : Type 0} (e : Env T) where
  abbrev pub push : Playing → List ℕ → M T ℤ
  push p samples =
      server_sppush_push e e.default_line samples (int_size p.per_sample_chunk_bytes) p.chlist
        p.bytes

  -- The loop over the chunks that came with the command, on fuel: it leaves `data` and `offset`.
  unfoldable pub chunk_loop : Playing → ℕ → ℕ → ℕ → List ℕ → M T (List ℕ × ℕ)
  chunk_loop p header_size zero len samples = out_of_rounds
  chunk_loop p header_size (suc fuel) len samples =
      let offset = offset_of len header_size in
      let rest =
        chunk_loop p header_size fuel ((len + 2 ^ 64 - p.chunk) % 2 ^ 64) (drop p.chunk samples) in
      if leb p.chunk offset then (do push p samples; rest) else pure (samples, offset)

  -- uint32_t time = 0;
  abbrev pub time_zero : List ℕ
  time_zero = replicate 4 0

  -- The loop over what the connection sends. Its result is kept in a `uint32_t`, so only 0 ends it.
  unfoldable pub receive_loop : Playing → ℤ → ℕ → ℕ → List ℕ → M T ℤ
  receive_loop p socket_connfd zero offset buffer = out_of_rounds
  receive_loop p socket_connfd (suc rounds) offset buffer = do
    w ← get
    let call = Call.recv socket_connfd (p.chunk - offset)
    len ← sys e call
    let filled = received_at offset len (e.bytes w.trace call) buffer
    let rest = receive_loop p socket_connfd rounds 0 filled
    if to_u32 len == 0
        then pure (pos 0)
        else do push p filled; sys e (Call.send socket_connfd time_zero); rest

  -- From the first loop on. A copy of more bytes than `data` has reads past its end.
  unfoldable pub play : ℕ → Playing → ℤ → ℕ → ℕ → List ℕ → M T ℤ
  play rounds p connfd header_size len samples = do
    left ← chunk_loop p header_size (suc (offset_of len header_size)) len samples
    w ← get
    if ltb (length left.0) left.1
        then undefined
        else receive_loop p connfd rounds left.1
            (take left.1 left.0 ++ drop left.1 (e.heap w.trace p.chunk))

  abbrev pub playing : List ℕ → ℕ → Playing
  playing arg len =
      let chunk = (e.get_chunksize arg len (config_chunk_type e)).chunk % 2 ^ 32 in
      record {
        chunk = chunk;
        per_sample_chunk_bytes = chunk / (e.get_format arg len).channels;
        chlist = e.get_channel_list arg len;
        bytes = (e.get_format arg len).bits_per_sample / 8 % 256;
      }

  -- `rounds` bounds the messages that are taken from the connection. Division by no channels is
  -- undefined.
  unfoldable pub cmd_wave : ℕ → ℤ → Option (List ℕ) → ℕ → M T ℤ
  cmd_wave rounds connfd none len = pure (pos 1)
  cmd_wave rounds connfd (some arg) len =
      let header_size = e.header_check arg len % 2 ^ 32 in
      let format = e.get_format arg len in
      if header_size == 0 then pure (pos 1) else if format.channels == 0 then undefined else do
        server_spctrl_set_format e (e.get_channel_list arg len) format.samples_per_sec
            format.bits_per_sample
        play rounds (playing arg len) connfd header_size len (drop header_size arg)
