-- ===== src/Http/Tests.antt =====
-- The HTTP handler on a concrete system.
use castserver.Base.{pos, ◌≡◌, refl, false, true, [], ◌∷◌, ◌++◌, codes, arith}
use castserver.Types.{Call}
use castserver.World.{done}
use castserver.Http.{HttpConfig, method_get, page, ahc_echo, server_http_init}
use castserver.Http.Path.{parent_refused, ahc_echo_file}
use castserver.Sample.{system, server}

parent_refused_example :
    ahc_echo system (codes "/a" ++ (codes "../" ++ codes "etc")) method_get 0 true server
    ≡ done
        (pos 1, false)
        (record server {
          trace =
              Call.mhd_destroy_response
              ∷ Call.mhd_queue_response
              ∷ Call.mhd_response_from_buffer page
              ∷ [];
        })
parent_refused_example = parent_refused system (codes "/a") (codes "etc") method_get server refl

ahc_echo_file_example :
    ahc_echo system (codes "/index") method_get 0 true server
    ≡ done
        (pos 1, false)
        (record server {
          trace =
              Call.mhd_destroy_response
              ∷ Call.mhd_queue_response
              ∷ Call.mhd_response_from_fd 64 (pos 41)
              ∷ Call.fstat (pos 41)
              ∷ Call.open_file (codes "/www/index")
              ∷ [];
        })
unfolding castserver.Http.has_dot_slash
ahc_echo_file_example =
    ahc_echo_file system (codes "/index") method_get 40 server refl refl (omega arith) refl
      (λ s. refl)
