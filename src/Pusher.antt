-- ===== src/Pusher.antt =====
-- server_speaker_pusher.c: the audio channel to the speakers.
pub mod Send
pub mod Connect
pub mod Sequence
pub mod Channel
pub mod Frames
pub mod Deinterleave
pub mod Packets
pub mod Chunk
pub mod Push
pub mod Prefix
pub mod Start
mod Tests
use castserver.Base.{
  ℕ, zero, suc, ℤ, pos, negsuc, is_neg, is_nonpos, is_nonzero, eq_int, to_size, Bool, ◌+◌, ◌-◌, ◌*◌,
  ◌/◌, ◌%◌, ◌^◌, not, ◌&&◌, ◌||◌, List, [], ◌∷◌, length, take, drop, Option, none, some, ltb, leb,
  ◌==◌, if◌then◌else◌,
}
use castserver.Types.{ip_or_any, Addr, Speaker, Call, sock_dgram, sock_dgram_nonblock}
use castserver.Env.{Env}
use castserver.Config.{config_mtu}
use castserver.World.{
  World, M, ◌>>=◌, ◌>>◌, pure, get, modify, undefined, out_of_rounds, when, sys, speaker,
  update_speaker, update_store,
}
use castserver.Shutdown.{xexit}

-- struct speaker_push_config
pub record SpeakerPushConfig : Type 0 where
  pub ip : Option Addr
  pub family : ℕ

-- sizeof(channel_buffer)
abbrev pub channel_buffer_size : ℕ
channel_buffer_size = 1500

-- package_seq after `if ((short) package_seq++ == -1) package_seq = 1;`
abbrev pub next_seq : ℕ → ℕ
next_seq seq = if seq % 2 ^ 16 == 2 ^ 16 - 1 then 1 else seq + 1

module _ {T : Type 0} (e : Env T) where
  abbrev pub set_fd : ℕ → ℤ → M T (Unit {0})
  set_fd sp fd = update_speaker sp (λ s. record s { fd = fd })

  unfoldable pub server_sppush_connect : ℕ → M T ℤ
  server_sppush_connect sp = do
    w ← get
    let s = speaker w sp
    if not (e.speaker_supported s)
        then pure e.error_speaker
        else if not (e.speaker_is_online s)
        then pure e.error_speaker
        else do
          fd ← sys e (Call.socket w.pusher.listen_ip.type sock_dgram_nonblock)
          set_fd sp fd
          when (is_neg fd) (set_fd sp w.pusher.read_fd)
          v ← get
          r ← sys e (Call.connect (speaker v sp).fd (e.set_sockaddr s.ip s.dport))
          if is_nonzero r then pure e.error_socket else pure e.ok

  unfoldable pub server_sppush_disconnect : ℕ → M T ℤ
  server_sppush_disconnect sp = do
    w ← get
    let fd = (speaker w sp).fd
    if sp == 0
        then pure (pos 0)
        else if is_neg fd || eq_int fd w.pusher.read_fd
        then pure (pos 0)
        else do sys e (Call.shutdown fd); sys e (Call.close fd); pure (pos 0)

  -- The result of `sendto` is kept in a `size_t`. A null pointer is read by the log line, and a
  -- datagram longer than the buffer reads past it.
  unfoldable pub pusher_sendto_speaker : ℕ → List ℕ → ℕ → M T ℤ
  unfolding server_sppush_disconnect
  pusher_sendto_speaker sp packet len = do
    w ← get
    let s = speaker w sp
    if sp == 0
        then undefined
        else if s.dport == 0 || (not (e.speaker_is_online s) || is_nonpos s.fd)
        then (do
          update_store (λ st. e.speaker_check_online st sp)
          server_sppush_disconnect sp
          pure (pos 1))
        else if not (e.speaker_supported s)
        then (do server_sppush_disconnect sp; pure (pos 1))
        else if ltb (length packet) len
        then undefined
        else do
          n ← sys e (Call.sendto s.fd (take len packet) (e.set_sockaddr s.ip s.dport))
          if ltb (to_size n) 0 then pure (pos 1) else pure (pos 0)

  -- The loop over the speakers of a channel; `buf` of the source is always the static buffer.
  unfoldable pub push_loop : List ℕ → ℕ → M T (Unit {0})
  unfolding pusher_sendto_speaker
  push_loop [] len = pure tt
  push_loop (sp ∷ rest) len = do
    modify (λ w. record w {
      pusher = record (w.pusher) {
        channel_buffer = e.pcm_header_encode w.pusher.channel_buffer w.pusher.pcm_head;
      };
    })
    w ← get
    pusher_sendto_speaker sp w.pusher.channel_buffer len
    push_loop rest len

  unfoldable pub server_sppush_push_channel : ℕ → ℕ → ℕ → M T ℤ
  unfolding push_loop
  server_sppush_push_channel line ch len = do
    modify (λ w. record w {
      pusher = record (w.pusher) { package_seq = next_seq w.pusher.package_seq };
    })
    w ← get
    let (list, speakers) = e.get_speaker_list w.speakers line ch
    if list == 0 then pure (pos 1) else do push_loop speakers len; pure (pos 0)

  -- The copy of one channel out of the samples: `while (src <= end)`, with offsets for the pointers.
  -- `none` means that the fuel ran out.
  unfoldable pub copy_loop : List ℕ → ℕ → ℕ → ℕ → ℕ → ℕ → ℕ → List ℕ → Option (List ℕ)
  copy_loop samples len bits step zero src dst buf = none
  copy_loop samples len bits step (suc fuel) src dst buf =
      let rest =
        copy_loop samples len bits step fuel (src + step) (dst + bits)
          (e.bits_cpy buf dst (drop src samples) bits) in
      if leb (src + bits) len then rest else some buf

  -- assert(c), which the build keeps or drops
  abbrev pub assert : Bool → M T (Unit {0})
  assert c = when (e.debug && not c) undefined

  abbrev pub store_buffer : Option (List ℕ) → M T (Unit {0})
  store_buffer none = out_of_rounds
  store_buffer (some buf) =
      modify (λ w. record w { pusher = record (w.pusher) { channel_buffer = buf } })

  -- The loop over the channels from the `i`-th on. A copy that does not end is cut.
  unfoldable pub channels_loop : ℕ → List ℕ → ℕ → ℕ → ℕ → ℕ → List ℕ → M T (Unit {0})
  channels_loop line samples len bits step i [] = pure tt
  channels_loop line samples len bits step i (ch ∷ chs) = do
    w ← get
    store_buffer (
        copy_loop samples len bits step (suc len) (i * bits) e.pcm_header_size
          w.pusher.channel_buffer)
    server_sppush_push_channel line ch (len + e.pcm_header_size)
    channels_loop line samples len bits step (i + 1) chs

  -- `bits` is the number of bytes of a sample. The second assert says that `len` is a whole number
  -- of frames; it and the third divide by the number of channels.
  unfoldable pub server_sppush_push : ℕ → List ℕ → ℕ → List ℕ → ℕ → M T ℤ
  server_sppush_push line samples len chlist bits = do
    assert (ltb (e.pcm_header_size + len) channel_buffer_size)
    assert (ltb 0 (length chlist * bits) && len % (length chlist * bits) == 0)
    assert (ltb 0 (length chlist) && ltb (len / length chlist) config_mtu)
    channels_loop line samples len bits (bits * length chlist) 0 chlist
    pure (pos 0)

  unfoldable pub srv_sppush_read : ℕ → M T ℤ
  srv_sppush_read len = if ltb len 16 then pure (negsuc 0) else pure (pos 0)

  unfoldable pub create_pusher_socket : M T ℤ
  unfolding xexit
  create_pusher_socket = do
    w ← get
    fd ← sys e (Call.socket w.pusher.listen_ip.type sock_dgram)
    if is_neg fd then xexit e e.eerr_socket else pure fd

  sppush_start : SpeakerPushConfig → M T ℤ
  unfolding create_pusher_socket
  sppush_start cfg = do
    modify (λ w. record w {
      pusher = record (w.pusher) { listen_ip = ip_or_any cfg.ip cfg.family; family = cfg.family };
    })
    fd ← create_pusher_socket
    modify (λ w. record w { pusher = record (w.pusher) { read_fd = fd } })
    pure (pos 0)

  unfoldable pub server_sppush_init : Option SpeakerPushConfig → M T ℤ
  unfolding sppush_start xexit
  server_sppush_init none = xexit e e.eerr_arg
  server_sppush_init (some cfg) = if cfg.family == 0 then xexit e e.eerr_arg else sppush_start cfg
