-- ===== src/Http/Life.antt =====
-- The start and the end of the HTTP daemon (server_http_init, server_http_deinit).
use castserver.Base.{
  ℕ, pos, is_nonzero, ◌<◌, ◌≡◌, List, ◌∷◌, length, codes, none, some, arith, if◌then◌else◌,
}
use castserver.Types.{Call}
use castserver.Env.{Env}
use castserver.World.{World, done, ◌>>◌}
use castserver.Shutdown.{server_http_deinit}
use castserver.Http.{HttpConfig, path_size, server_http_init}

module _ {T : Type 0} (e : Env T) where
  -- The state after the start on a port with a root.
  abbrev pub serving : ℕ → List ℕ → World T → World T
  serving port root w = record w {
    trace = Call.mhd_start_daemon port ∷ w.trace;
    http = record { root_path = root; d = is_nonzero (e.ret w.trace (Call.mhd_start_daemon port)) };
  }

  -- The calls of a start with the end right behind it.
  abbrev pub ended : ℕ → List ℕ → World T → World T
  ended port root w = record (serving port root w) {
    trace =
        if is_nonzero (e.ret w.trace (Call.mhd_start_daemon port))
        then Call.mhd_stop_daemon ∷ Call.mhd_start_daemon port ∷ w.trace
        else Call.mhd_start_daemon port ∷ w.trace;
  }

  -- The daemon serves the configured directory on the configured port, where its path fits the array,
  -- and "/tmp" on port 4415 where there is no configuration. It is stopped at the end exactly where it
  -- was started: where MHD_start_daemon gave NULL, nothing is stopped.
  pub server_http_init-deinit :
      (cfg : HttpConfig) (w : World T)
      → length cfg.root_path < path_size
      → ((server_http_init e none >> server_http_deinit e) w
          ≡ done (pos 0) (ended 4415 (codes "/tmp") w))
        × ((server_http_init e (some cfg) >> server_http_deinit e) w
            ≡ done (pos 0) (ended cfg.port cfg.root_path w))
  unfolding server_http_init server_http_deinit
  server_http_init-deinit cfg w fits = (ground arith, ground arith)
