-- ===== src/Server/Tests.antt =====
-- The start of the server on a concrete system.
use castserver.World.{M, ◌>>◌}
use castserver.Control.{srv_spctrl_read}
use castserver.World.{pure}
use castserver.Base.{ℕ, ℤ, pos, negsuc, ◌≡◌, refl, true, false, List, [], ◌∷◌, codes, none, some}
use castserver.Types.{Call, SockOpt, ipproto_ip, sol_socket, sock_dgram, af_inet}
use castserver.Env.{Env}
use castserver.World.{done, exited}
use castserver.Server.{Opt, Settings, default_settings, parse, main}
use castserver.Server.Start.{second_server_main}
use castserver.Sample.{system, server, lan}

-- A system in which a text is the number `n`.
abbrev reading : ℤ → Env (List ℕ)
reading n = record system { strtol = λ text. n }

abbrev with_port : ℕ → Settings
with_port p = record (default_settings system) { multicast_port = p }

-- -p 70000 is taken as 4464, -p -1 as 65535, and -p 65536 is refused.
ports_wrap :
    (parse (reading (pos 70000)) (Opt.port_number [] ∷ []) (with_port 0) server
      ≡ done (with_port 4464) server)
    × (parse (reading (negsuc 0)) (Opt.port_number [] ∷ []) (with_port 0) server
        ≡ done (with_port 65535) server)
    × (parse (reading (pos 65536)) (Opt.port_number [] ∷ []) (with_port 0) server
        ≡ exited 11 server)
unfolding parse
ports_wrap = (refl, refl, refl)

abbrev settings : Settings
settings = record (default_settings system) { interface_name = some (codes "eth0") }

parsed :
    parse system (Opt.daemon ∷ Opt.iface (codes "eth0") ∷ []) (default_settings system) server
    ≡ done settings server
unfolding parse
parsed = refl

second_server_main_example :
    main system (Opt.daemon ∷ Opt.iface (codes "eth0") ∷ []) false server
    ≡ exited 1 (record server {
      trace =
          Call.close (pos 7)
          ∷ Call.recvfrom (pos 7) 19
          ∷ Call.sendto
              (pos 7)
              (codes "castspeaker server")
              (record { ss_family = af_inet; host = 12; port = 4414 })
          ∷ Call.setsockopt (pos 7) sol_socket (SockOpt.so_rcvtimeo 1)
          ∷ Call.setsockopt (pos 7) ipproto_ip (SockOpt.ip_multicast_loop 0)
          ∷ Call.setsockopt (pos 7) ipproto_ip (SockOpt.ip_multicast_if 50)
          ∷ Call.setsockopt (pos 7) ipproto_ip (SockOpt.ip_multicast_ttl 1)
          ∷ Call.socket af_inet sock_dgram
          ∷ Call.event_init
          ∷ [];
    })
unfolding castserver.Base.eq_ncase
second_server_main_example =
    second_server_main system (Opt.daemon ∷ Opt.iface (codes "eth0") ∷ []) settings lan none server
      parsed refl refl refl (λ t level o. refl) refl refl

-- A turn of the event loop that gives a message to the control socket.
abbrev turn : M (List ℕ) (Unit {0})
turn = srv_spctrl_read system (2 ∷ 5 ∷ 0 ∷ []) 3 >> pure tt
