-- ===== src/Shutdown.antt =====
-- How the process ends: the `*_deinit` functions of each file, and `server_deinit` and `xexit` of
-- server.c, in the order in which they call one another.
pub mod Order
mod Tests
use castserver.Base.{ℕ, ℤ, pos, is_nonzero, true, false}
use castserver.Types.{Sockaddr, Call, Thread, af_inet}
use castserver.Env.{Env}
use castserver.World.{M, ◌>>=◌, ◌>>◌, pure, get, modify, exit, when, sys}

module _ {T : Type 0} (e : Env T) where
  abbrev pub default_group : Sockaddr
  default_group = record {
    ss_family = af_inet;
    host = e.inet_addr e.default_multicast_group;
    port = e.default_multicast_port;
  }

  abbrev pub set_notify_type : ℕ → M T (Unit {0})
  set_notify_type t = modify (λ w. record w {
    detect = record (w.detect) {
      server_notify_resp = record (w.detect.server_notify_resp) { type = t };
    };
  })

  unfoldable pub multicast_serverinfo : M T (Unit {0})
  multicast_serverinfo = do
    w ← get
    _ ← sys e (
        Call.sendto w.detect.read_fd (e.detect_response_bytes w.detect.server_notify_resp)
          default_group)
    set_notify_type 0

  unfoldable pub server_http_deinit : M T ℤ
  server_http_deinit = do
    w ← get
    when w.http.d (do sys e Call.mhd_stop_daemon; pure tt)
    pure (pos 0)

  unfoldable pub mutex_deinit : M T ℤ
  mutex_deinit = pure (pos 0)

  unfoldable pub server_cmdctrl_deinit : M T ℤ
  server_cmdctrl_deinit = do
    w ← get
    sys e Call.write_exit_thread_cmd
    sys e Call.deinit_thread_cmd
    sys e (Call.unlink w.command.sock_path)
    pure (pos 0)

  unfoldable pub server_sppush_deinit : M T ℤ
  server_sppush_deinit = do w ← get; sys e (Call.close w.pusher.read_fd); pure (pos 0)

  unfoldable pub server_spctrl_deinit : M T ℤ
  server_spctrl_deinit = do w ← get; sys e (Call.close w.control.read_fd); pure (pos 1)

  unfoldable pub server_detect_deinit : M T ℤ
  unfolding multicast_serverinfo
  server_detect_deinit = do
    w ← get
    when w.detect.online_detect_thread (do
      sys e (Call.pthread_cancel Thread.online_detect)
      modify (λ v. record v { detect = record (v.detect) { online_detect_thread = false } }))
    when (is_nonzero w.detect.read_fd) (do
      set_notify_type e.detect_type_exit
      multicast_serverinfo
      sys e (Call.close w.detect.read_fd)
      pure tt)
    pure (pos 0)

  unfoldable pub server_deinit : M T (Unit {0})
  unfolding server_http_deinit mutex_deinit server_cmdctrl_deinit server_sppush_deinit
      server_spctrl_deinit server_detect_deinit
  server_deinit = do
    modify (λ w. record w { exit_thread_flag = true })
    server_http_deinit
    sys e Call.event_deinit
    mutex_deinit
    server_cmdctrl_deinit
    server_sppush_deinit
    server_spctrl_deinit
    server_detect_deinit
    sys e Call.speaker_deinit
    pure tt

  unfoldable pub xexit : {A : Type 0} → ℕ → M T A
  unfolding server_deinit
  xexit status = do server_deinit; exit status

  unfoldable pub signal_handle : ℕ → M T (Unit {0})
  unfolding server_deinit
  signal_handle signum = do server_deinit; exit 0
