-- ===== src/Control.antt =====
-- server_speaker_control.c: the control channel of the speakers. Numbers of `uint64_t` wrap.
pub mod Send
pub mod Format
pub mod Time
pub mod Start
mod Tests
use castserver.Base.{
  ℕ, ℤ, pos, negsuc, is_neg, to_size, Bool, ◌+◌, ◌-◌, ◌*◌, ◌%◌, ◌^◌, not, ◌&&◌, ◌||◌, List, [], ◌∷◌,
  take, Option, none, some, ltb, ◌==◌, if◌then◌else◌,
}
use castserver.Types.{
  ip_or_any, Addr, Speaker, ControlPackage, control_package_zero, Call, sock_dgram,
}
use castserver.Env.{Env}
use castserver.World.{
  World, M, ◌>>=◌, ◌>>◌, pure, get, modify, undefined, when, sys, speaker, update_speaker,
}
use castserver.Shutdown.{xexit}

-- struct server_spctrl_config_s
pub record SpctrlConfig : Type 0 where
  pub ip : Option Addr
  pub family : ℕ

module _ {T : Type 0} (e : Env T) where
  abbrev pub clock : World T → ℕ
  clock w = (e.tv_sec w.trace * 1000000 + e.tv_usec w.trace) % 2 ^ 64

  -- The answer to a speaker that asks for the time.
  abbrev pub time_packet : ℕ → ℕ → ControlPackage
  time_packet now conn_time = record control_package_zero {
    cmd = e.spcmd_time;
    server = now;
    offset = (now + 2 ^ 64 - conn_time) % 2 ^ 64;
  }

  unfoldable pub utime : M T ℕ
  utime = do w ← get; sys e Call.gettimeofday; pure (clock w)

  -- The result of `sendto` is kept in a `size_t`. A null pointer is read by the log line.
  unfoldable pub server_spctrl_sendto_speaker : ℕ → List ℕ → ℕ → M T ℤ
  server_spctrl_sendto_speaker sp packet len = do
    w ← get
    let s = speaker w sp
    if sp == 0
        then undefined
        else if s.dport == 0 || not (s.state == e.stat_online)
        then pure (pos 1)
        else do
          n ← sys e (Call.sendto w.control.read_fd (take len packet) (e.set_sockaddr s.ip s.dport))
          if ltb (to_size n) 0 then pure (pos 1) else pure (pos 0)

  unfoldable pub server_spctrl_speaker : ℕ → ControlPackage → M T ℤ
  unfolding server_spctrl_sendto_speaker
  server_spctrl_speaker sp hd = do
    modify (λ w. record w {
      control = record (w.control) { buffer = e.control_package_encode w.control.buffer hd };
    })
    w ← get
    server_spctrl_sendto_speaker sp w.control.buffer e.control_package_size

  unfoldable pub spctrl_time : List ℕ → M T (Unit {0})
  unfolding utime server_spctrl_speaker
  spctrl_time packet = do
    w ← get
    let sp = e.find_speaker_by_id w.speakers (e.control_time_spid packet)
    if sp == 0 then pure tt else do
      now ← utime
      v ← get
      server_spctrl_speaker sp (time_packet now (speaker v sp).conn_time)
      pure tt

  unfoldable pub srv_spctrl_read : List ℕ → ℕ → M T ℤ
  unfolding spctrl_time
  srv_spctrl_read packet len =
      if len == e.control_time_size && e.control_is_cmd packet e.spcmd_time
      then (do spctrl_time packet; pure (pos 0))
      else if ltb len 16
      then pure (negsuc 0)
      else pure (pos 0)

  unfoldable pub server_spctrl_set_time : ℕ → M T (Unit {0})
  unfolding utime
  server_spctrl_set_time sp = do now ← utime; update_speaker sp (λ s. record s { conn_time = now })

  -- The body of SPEAKER_FOREACH over the speakers that are left.
  unfoldable pub format_loop : ControlPackage → List ℕ → M T (Unit {0})
  unfolding server_spctrl_speaker
  format_loop hd [] = pure tt
  format_loop hd (sp ∷ rest) = do
    w ← get
    let s = speaker w sp
    when (e.speaker_is_online s)
        (do server_spctrl_speaker sp (record hd { channel = s.channel }); pure tt)
    format_loop hd rest

  unfoldable pub server_spctrl_format : ℕ → ℕ → M T (Unit {0})
  unfolding format_loop
  server_spctrl_format rate bits = do
    w ← get
    format_loop (record control_package_zero { cmd = e.spcmd_sample; bits = bits; rate = rate })
        (e.speaker_foreach w.speakers)

  unfoldable pub server_spctrl_set_format : List ℕ → ℕ → ℕ → M T (Unit {0})
  unfolding server_spctrl_format
  server_spctrl_set_format list rate bits = do
    modify (λ w. record w { control = record (w.control) { server_channel_list = list } })
    server_spctrl_format rate bits

  unfoldable pub create_control_socket : M T ℤ
  unfolding xexit
  create_control_socket = do
    w ← get
    fd ← sys e (Call.socket w.control.listen_ip.type sock_dgram)
    if is_neg fd then xexit e e.eerr_socket else pure fd

  spctrl_start : SpctrlConfig → M T ℤ
  unfolding create_control_socket
  spctrl_start cfg = do
    modify (λ w. record w {
      control = record (w.control) { listen_ip = ip_or_any cfg.ip cfg.family; family = cfg.family };
    })
    fd ← create_control_socket
    modify (λ w. record w { control = record (w.control) { read_fd = fd } })
    sys e (Call.event_add fd)
    pure (pos 0)

  unfoldable pub server_spctrl_init : Option SpctrlConfig → M T ℤ
  unfolding spctrl_start xexit
  server_spctrl_init none = xexit e e.eerr_arg
  server_spctrl_init (some cfg) = if cfg.family == 0 then xexit e e.eerr_arg else spctrl_start cfg
