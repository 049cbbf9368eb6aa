-- ===== src/Shutdown/Order.antt =====
-- What is left when the process ends by `xexit`: the calls made, and the state.
use castserver.Shutdown.{signal_handle}
use castserver.Base.{
  ℕ, zero, ℤ, pos, Bool, ◌≡◌, refl, true, false, is_nonzero, List, [], ◌∷◌, ◌++◌, if◌then◌else◌,
}
use castserver.Types.{Call, Thread}
use castserver.Env.{Env}
use castserver.World.{World, exited, state_of}
use castserver.Shutdown.{default_group, server_deinit, xexit}

module _ {T : Type 0} (e : Env T) where
  -- The calls of the shutdown, newest first.
  abbrev pub farewell : World T → List Call
  farewell w =
      Call.speaker_deinit
      ∷ ((if is_nonzero w.detect.read_fd
            then (Call.close w.detect.read_fd
                ∷ Call.sendto w.detect.read_fd
                    (e.detect_response_bytes
                      (record (w.detect.server_notify_resp) { type = e.detect_type_exit }))
                    (default_group e)
                ∷ [])
            else [])
          ++ ((if w.detect.online_detect_thread
                then (Call.pthread_cancel Thread.online_detect ∷ [])
                else [])
              ++ (Call.close w.control.read_fd
                  ∷ Call.close w.pusher.read_fd
                  ∷ Call.unlink w.command.sock_path
                  ∷ Call.deinit_thread_cmd
                  ∷ Call.write_exit_thread_cmd
                  ∷ Call.event_deinit
                  ∷ (if w.http.d then (Call.mhd_stop_daemon ∷ []) else []))))

  -- The state with the three values that `server_deinit` tests.
  abbrev with_tests : Bool → Bool → ℤ → World T → World T
  with_tests d thread fd w = record w {
    http = record (w.http) { d = d };
    detect = record (w.detect) { online_detect_thread = thread; read_fd = fd };
  }

  xexit_at :
      (A : Type 0) (d thread : Bool) (fd : ℤ) (status signum : ℕ) (w : World T)
      → let v = with_tests d thread fd w in
        let u = state_of (server_deinit e v) in
        (xexit e {A = A} status v ≡ exited status u)
        × (signal_handle e signum v ≡ exited 0 u)
        × (u.exit_thread_flag ≡ true)
        × (u.detect.online_detect_thread ≡ false)
        × (u.trace ≡ farewell v ++ v.trace)
  unfolding xexit signal_handle
  xexit_at A true true (pos zero) status signum w = (refl, refl, refl, refl, refl)
  xexit_at A true false (pos zero) status signum w = (refl, refl, refl, refl, refl)
  xexit_at A false true (pos zero) status signum w = (refl, refl, refl, refl, refl)
  xexit_at A false false (pos zero) status signum w = (refl, refl, refl, refl, refl)
  xexit_at A _ _ _ status signum w = (refl, refl, refl, refl, refl)

  pub xexit_lem :
      (A : Type 0) (status signum : ℕ) (w : World T)
      → let u = state_of (server_deinit e w) in
        (xexit e {A = A} status w ≡ exited status u)
        × (signal_handle e signum w ≡ exited 0 u)
        × (u.exit_thread_flag ≡ true)
        × (u.detect.online_detect_thread ≡ false)
        × (u.trace ≡ farewell w ++ w.trace)
  xexit_lem A status signum w =
      xexit_at A w.http.d w.detect.online_detect_thread w.detect.read_fd status signum w

  pub xexit-exited :
      (A : Type 0) (status : ℕ) (w : World T)
      → xexit e {A = A} status w ≡ exited status (state_of (server_deinit e w))
  xexit-exited A status w = (xexit_lem A status 0 w).0
