-- ===== src/Control/Start.antt =====
-- How the control channel is opened (server_spctrl_init, create_control_socket).
use castserver.Base.{ℤ, is_neg, if◌then◌else◌, pos, ◌≡◌, ◌∷◌, some, none, arith, ◌==◌}
use castserver.Types.{ip_or_any, Call, sock_dgram}
use castserver.Env.{Env}
use castserver.World.{World, done, exited, state_of}
use castserver.Shutdown.{server_deinit}
use castserver.Shutdown.Order.{xexit-exited}
use castserver.Control.{SpctrlConfig, server_spctrl_init}

module _ {T : Type 0} (e : Env T) where
  abbrev pub configured : SpctrlConfig → World T → World T
  configured cfg w = record w {
    control = record (w.control) { listen_ip = ip_or_any cfg.ip cfg.family; family = cfg.family };
  }

  abbrev pub asked : SpctrlConfig → World T → World T
  asked cfg w = record (configured cfg w) {
    trace = Call.socket (ip_or_any cfg.ip cfg.family).type sock_dgram ∷ w.trace;
  }

  abbrev pub opened : SpctrlConfig → ℤ → World T → World T
  opened cfg fd w = record (asked cfg w) {
    trace = Call.event_add fd ∷ (asked cfg w).trace;
    control = record ((asked cfg w).control) { read_fd = fd };
  }

  -- With no configuration or no address family the process ends by `xexit` with EERR_ARG. Otherwise a
  -- socket of the family of the listen address is asked for: if there is none, the process ends with
  -- EERR_SOCKET, and if there is one, it is stored, given to the event loop, and 0 is returned.
  pub server_spctrl_init_lem :
      (cfg : SpctrlConfig) (w : World T)
      → let fd = e.ret w.trace (Call.socket (ip_or_any cfg.ip cfg.family).type sock_dgram) in
        (server_spctrl_init e none w ≡ exited e.eerr_arg (state_of (server_deinit e w)))
        × (server_spctrl_init e (some cfg) w ≡ (
            if cfg.family == 0
            then exited e.eerr_arg (state_of (server_deinit e w))
            else if is_neg fd
            then exited e.eerr_socket (state_of (server_deinit e (asked cfg w)))
            else done (pos 0) (opened cfg fd w)))
  unfolding server_spctrl_init
  server_spctrl_init_lem cfg w = (
    xexit-exited e ℤ e.eerr_arg w,
    ground (arith, xexit-exited e ℤ e.eerr_arg w, xexit-exited e ℤ e.eerr_socket (asked cfg w)),
  )
