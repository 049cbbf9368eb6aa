-- ===== src/Command/Start.antt =====
-- How the command socket is opened (server_cmdctrl_init).
use castserver.Base.{ℕ, ℤ, pos, is_neg, ◌<◌, ◌≡◌, List, ◌∷◌, length, arith, if◌then◌else◌}
use castserver.Types.{Call, Thread, af_unix, sock_stream}
use castserver.Env.{Env}
use castserver.World.{World, done, exited, state_of}
use castserver.Shutdown.{server_deinit}
use castserver.Shutdown.Order.{xexit-exited}
use castserver.Command.{sun_path_size, server_cmdctrl_init}

module _ {T : Type 0} (e : Env T) where
  -- The state with the path and the descriptor, after some calls on top of the first two.
  abbrev pub after : List ℕ → ℤ → List Call → World T → World T
  after sock fd calls w = record w {
    trace = calls;
    command = record (w.command) { sock_path = sock; listenfd = fd };
  }

  -- A path that fits is kept. The process ends with status 3 where no socket can be made, and with 4
  -- where it cannot be bound to the path, both times without the shutdown of the other parts; with 1
  -- and EERR_THREAD, by `xexit`, where `listen` or the start of the thread gives a negative result.
  -- Otherwise the result is 0, and the calls are, in this order: the thread command, the socket, the
  -- removal of an old socket file, `bind`, `listen`, and the thread, detached.
  pub server_cmdctrl_init_lem :
      (sock : List ℕ) (w : World T)
      → length sock < sun_path_size
      → let asked = Call.init_thread_cmd ∷ w.trace in
        let fd = e.ret asked (Call.socket af_unix sock_stream) in
        let unlinked = Call.unlink sock ∷ Call.socket af_unix sock_stream ∷ asked in
        let bound = Call.bind_path fd sock ∷ unlinked in
        let listening = Call.listen fd 10 ∷ bound in
        let created = Call.pthread_create Thread.control_socket ∷ listening in
        server_cmdctrl_init e sock w ≡ (
          if is_neg fd
          then exited 3 (after sock fd (Call.socket af_unix sock_stream ∷ asked) w)
          else if is_neg (e.ret unlinked (Call.bind_path fd sock))
          then exited 4 (after sock fd bound w)
          else if is_neg (e.ret bound (Call.listen fd 10))
          then exited 1 (state_of (server_deinit e (after sock fd listening w)))
          else if is_neg (e.ret listening (Call.pthread_create Thread.control_socket))
          then exited e.eerr_thread (state_of (server_deinit e (after sock fd created w)))
          else done (pos 0) (after sock fd (Call.pthread_detach Thread.control_socket ∷ created) w))
  unfolding server_cmdctrl_init
  server_cmdctrl_init_lem sock w fits =
      let asked = Call.init_thread_cmd ∷ w.trace in
      let fd = e.ret asked (Call.socket af_unix sock_stream) in
      let unlinked = Call.unlink sock ∷ Call.socket af_unix sock_stream ∷ asked in
      let listening = Call.listen fd 10 ∷ Call.bind_path fd sock ∷ unlinked in
      ground (
        arith,
        xexit-exited e ℤ 1 (after sock fd listening w),
        xexit-exited e ℤ e.eerr_thread
            (after sock fd (Call.pthread_create Thread.control_socket ∷ listening) w),
      )
