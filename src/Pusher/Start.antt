-- ===== src/Pusher/Start.antt =====
-- How the audio channel is opened (server_sppush_init, create_pusher_socket).
use castserver.Base.{ℤ, pos, is_neg, ◌≡◌, ◌∷◌, some, none, arith, ◌==◌, if◌then◌else◌}
use castserver.Types.{ip_or_any, Call, sock_dgram}
use castserver.Env.{Env}
use castserver.World.{World, done, exited, state_of}
use castserver.Shutdown.{server_deinit}
use castserver.Shutdown.Order.{xexit-exited}
use castserver.Pusher.{SpeakerPushConfig, server_sppush_init}

module _ {T : Type 0} (e : Env T) where
  -- The state after the socket was asked for.
  abbrev pub asked : SpeakerPushConfig → World T → World T
  asked cfg w = record w {
    trace = Call.socket (ip_or_any cfg.ip cfg.family).type sock_dgram ∷ w.trace;
    pusher = record (w.pusher) { listen_ip = ip_or_any cfg.ip cfg.family; family = cfg.family };
  }

  -- With no configuration or no address family the process ends by `xexit` with EERR_ARG. Otherwise a
  -- socket of the family of the listen address is asked for: if there is none, the process ends with
  -- EERR_SOCKET, and if there is one, it is stored and 0 is returned; the event loop is not told of it.
  pub server_sppush_init_lem :
      (cfg : SpeakerPushConfig) (w : World T)
      → let fd = e.ret w.trace (Call.socket (ip_or_any cfg.ip cfg.family).type sock_dgram) in
        let v = asked cfg w in
        (server_sppush_init e none w ≡ exited e.eerr_arg (state_of (server_deinit e w)))
        × (server_sppush_init e (some cfg) w ≡ (
            if cfg.family == 0
            then exited e.eerr_arg (state_of (server_deinit e w))
            else if is_neg fd
            then exited e.eerr_socket (state_of (server_deinit e v))
            else done (pos 0) (record v { pusher = record (v.pusher) { read_fd = fd } })))
  unfolding server_sppush_init
  server_sppush_init_lem cfg w = (
    xexit-exited e ℤ e.eerr_arg w,
    ground (arith, xexit-exited e ℤ e.eerr_arg w, xexit-exited e ℤ e.eerr_socket (asked cfg w)),
  )
