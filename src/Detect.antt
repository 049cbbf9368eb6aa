-- ===== src/Detect.antt =====
-- server_detect.c: speakers announce themselves on the multicast group, and time out.
pub mod Speaker
pub mod Request
pub mod Monitor
pub mod Silence
pub mod Socket
pub mod Start
pub mod Handshake
pub mod Known
pub mod Refine
mod TableTests
mod Tests
use castserver.Base.{
  ℕ, ℤ, pos, negsuc, is_neg, is_nonpos, is_nonzero, Bool, true, ◌+◌, not, ◌&&◌, List, [], ◌∷◌, take,
  eq_bytes, codes, ◌==◌, Option, none, some, if◌then◌else◌,
}
use castserver.Types.{
  Addr, Interface, Sockaddr, DetectRequest, DetectResponse, ControlPackage, control_package_zero,
  Call, SockOpt, Thread, DetectFn, speaker_added_handle, ipproto_ip, sock_dgram, af_inet, af_inet6,
  s_addr,
}
use castserver.Env.{Env}
use castserver.World.{
  World, M, ◌>>=◌, ◌>>◌, pure, get, modify, exit, when, sys, speaker, update_speaker, update_store,
}
use castserver.Config.{config_speaker_bits, config_speaker_rate}
use castserver.Shutdown.{set_notify_type, multicast_serverinfo, xexit}
use castserver.Control.{server_spctrl_speaker, server_spctrl_set_time}
use castserver.Pusher.{server_sppush_connect, server_sppush_disconnect}
use castserver.Mutex.{mutex_tag, mutex_tag_size, mutex_rsp, mutex_rsp_size}

-- struct server_detect_config_s
pub record DetectConfig : Type 0 where
  pub multicast_group : Option Addr
  pub interface : Option Interface
  pub multicast_port : ℕ
  pub data_port : ℕ
  pub added_cb : Option DetectFn

-- The port to which a speaker is answered.
abbrev pub response_port : ℕ
response_port = 4414

abbrev pub of_bool : Bool → ℕ
of_bool b = if b then 1 else 0

module _ {T : Type 0} (e : Env T) where
  abbrev pub sample_packet : ℕ → ControlPackage
  sample_packet channel = record control_package_zero {
    cmd = e.spcmd_sample;
    bits = config_speaker_bits e;
    rate = config_speaker_rate e;
    channel = channel;
  }

  -- server.c: speaker_added_handle, the one function that `detect_cb` can name.
  unfoldable pub call_detect_cb : Option DetectFn → ℕ → M T ℤ
  call_detect_cb none sp = pure (pos 0)
  call_detect_cb (some speaker_added_handle) sp = do
    w ← get
    if sp == 0
        then pure (pos 1)
        else if (speaker w sp).dport == 0
        then pure (pos 1)
        else server_spctrl_speaker e sp (record control_package_zero {
          cmd = e.spcmd_sample;
          bits = e.bit_24;
          rate = e.rate_48000;
        })

  abbrev pub is_supported : DetectRequest → Bool
  is_supported header =
      e.mask_isset header.bits_mask (config_speaker_bits e)
      && e.mask_isset header.rate_mask (config_speaker_rate e)

  -- What follows for a speaker that is new, once it has its struct.
  unfoldable pub welcome : ℕ → Bool → M T ℤ
  welcome sp support = do
    server_sppush_connect e sp
    if not support then pure (negsuc 0) else do
      server_spctrl_set_time e sp
      w ← get
      server_spctrl_speaker e sp (sample_packet (speaker w sp).channel)
      call_detect_cb w.detect.detect_cb sp
      pure (pos 0)

  unfoldable pub valid_speaker : DetectRequest → M T ℤ
  unfolding welcome
  valid_speaker header =
      if header.bits_mask == 0
      then pure (pos 1)
      else if header.rate_mask == 0
      then pure (pos 1)
      else do
        w ← get
        let support = is_supported header
        let sp = e.find_speaker_by_id w.speakers header.id
        if not (sp == 0)
            then (do
              update_speaker sp (λ s. record s { supported = of_bool support })
              update_store (λ st. e.speaker_check_online st sp)
              pure (pos 0))
            else (do
              let (p, added) = e.add_speaker w.speakers header.id e.default_line e.default_channel
              update_store (λ _. added)
              if p == 0 then pure (negsuc 0) else do
                update_speaker p (λ s. record s { supported = of_bool support })
                update_speaker p (λ s. e.init_from_header s header)
                update_store (λ st. e.speaker_check_online st p)
                welcome p support)

  -- A message that is MUTEX_TAG.
  abbrev pub is_probe : List ℕ → ℕ → Bool
  is_probe packet len = len == mutex_tag_size && eq_bytes (take mutex_tag_size packet) mutex_tag

  unfoldable pub respond : Addr → M T ℤ
  respond addr = do
    set_notify_type e 0
    w ← get
    n ← sys e (
        Call.sendto w.detect.read_fd (e.detect_response_bytes w.detect.server_notify_resp)
          (e.set_sockaddr addr response_port))
    if is_neg n then pure (negsuc 0) else pure (pos 0)

  unfoldable pub srv_detect_read : Sockaddr → List ℕ → ℕ → M T ℤ
  unfolding valid_speaker respond eq_bytes
  srv_detect_read src packet len =
      if is_probe packet len
      then (do
        w ← get
        sys e (Call.sendto w.detect.read_fd (take mutex_rsp_size mutex_rsp) src)
        pure (pos 0))
      else if len == e.detect_request_size src.ss_family
      then (do
        let req = e.detect_request_decode src.ss_family packet
        if not (e.equal_sock_addr src req.addr) then pure (negsuc 0) else do
          r ← valid_speaker req
          if is_nonzero r then pure (negsuc 0) else respond req.addr)
      else pure (negsuc 0)

  -- The body of SPEAKER_FOREACH in the monitor thread: `if (sp->timeout-- <= 0) { … }`.
  unfoldable pub online_detect_loop : List ℕ → M T (Unit {0})
  unfolding server_sppush_disconnect
  online_detect_loop [] = pure tt
  online_detect_loop (sp ∷ rest) = do
    w ← get
    update_speaker sp (λ s. record s { timeout = e.timeout_pred s.timeout })
    when (is_nonpos (speaker w sp).timeout)
        (do update_store (λ st. e.speaker_offline st sp); server_sppush_disconnect e sp; pure tt)
    online_detect_loop rest

  -- One round of the monitor thread: `false` is the end of the thread.
  unfoldable pub thread_online_detect : M T Bool
  unfolding online_detect_loop
  thread_online_detect = do
    w ← get
    if w.exit_thread_flag
        then pure (not true)
        else do online_detect_loop (e.speaker_foreach w.speakers); sys e (Call.sleep 5); pure true
