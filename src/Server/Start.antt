-- ===== src/Server/Start.antt =====
-- The start of a second server, from its command line (main, mutex_init, create_mutex).
use castserver.World.{>>=-done}
use castserver.Base.{Option}
use castserver.Types.{Addr}
use castserver.Base.{
  ℕ, pos, is_neg, ◌≡◌, refl, ◌∙◌, true, false, List, ◌∷◌, ◌==◌, if◌then◌else◌, take,
}
use castserver.Types.{
  Interface, Call, Level, SockOpt, ipproto_ip, sol_socket, sock_dgram, af_inet, s_addr,
}
use castserver.Env.{Env}
use castserver.World.{World, done, exited, ◌>>=◌}
use castserver.Shutdown.{default_group}
use castserver.Mutex.{mutex_tag, mutex_tag_size, is_refused, create_mutex, mutex_init}
use castserver.Mutex.Probe.{asked, listen_for, optioned, probe_lem, create_mutex_lem}
use castserver.Server.{
  Opt, Settings, default_settings, parse, choose_interface, choose_group, start, main,
}

module _ {T : Type 0} (e : Env T) where
  -- The state in which `mutex_init` looks for another server.
  abbrev pub looking : Interface → World T → World T
  looking interface w = record w { trace = Call.event_init ∷ w.trace; mutex = interface }

  -- The state after the probe was sent.
  abbrev pub probing : Interface → World T → World T
  probing interface w =
      let v = looking interface w in
      let fd = e.ret v.trace (Call.socket af_inet sock_dgram) in asked e fd (optioned e fd v)

  start-exited :
      (interface : Interface) (group : Option Addr) (port : ℕ) (w u : World T)
      → create_mutex e (looking interface w) ≡ exited 1 u
      → start e interface group port w ≡ exited 1 u
  unfolding start mutex_init
  start-exited interface group port w u h = rw (h, ◌>>=◌) refl

  main-start :
      (options : List Opt) (s : Settings) (interface : Interface) (group : Option Addr)
      (w : World T)
      → parse e options (default_settings e) w ≡ done s w
      → choose_interface e s.interface_name w ≡ done interface w
      → choose_group e s.group_ip w ≡ done group w
      → main e options false w ≡ start e interface group s.multicast_port w
  unfolding main
  main-start options s interface group w parsed chosen grouped =
      let on_interface =
        λ (i : Interface). choose_group e s.group_ip >>= λ g. start e i g s.multicast_port in
      >>=-done (parse e options (default_settings e))
        (λ s. choose_interface e s.interface_name >>= λ i.
          choose_group e s.group_ip >>= λ g. start e i g s.multicast_port)
        w w s parsed
      ∙ (>>=-done (choose_interface e s.interface_name) on_interface w w interface chosen
          ∙ >>=-done (choose_group e s.group_ip) (λ g. start e interface g s.multicast_port) w w
              group grouped)

  -- A second server does not disturb the first: its options are right, its interface and its group
  -- are known, and the socket of the probe can be opened and set up. Where the answer to the probe is
  -- that of a running server, `main` ends with status 1, and its calls are those listed here and no
  -- others: no file is unlinked, nothing is bound, and no other part is started.
  pub second_server_main :
      (options : List Opt) (s : Settings) (interface : Interface) (group : Option Addr)
      (w : World T)
      → parse e options (default_settings e) w ≡ done s w
      → choose_interface e s.interface_name w ≡ done interface w
      → choose_group e s.group_ip w ≡ done group w
      → let v = looking interface w in
        let fd = e.ret v.trace (Call.socket af_inet sock_dgram) in
        let p = probing interface w in
        is_neg fd ≡ false
        → ((t : List Call) (level : Level) (o : SockOpt)
            → e.ret t (Call.setsockopt fd level o) ≡ pos 0)
        → is_neg (
            e.ret
              (optioned e fd v).trace
              (Call.sendto fd (take mutex_tag_size mutex_tag) (default_group e)))
          ≡ false
        → is_refused e (e.ret p.trace (listen_for e fd)) (e.bytes p.trace (listen_for e fd)) ≡ true
        → main e options false w
          ≡ exited 1 (record v {
            trace =
                Call.close fd
                ∷ Call.recvfrom fd 19
                ∷ Call.sendto fd (take mutex_tag_size mutex_tag) (default_group e)
                ∷ Call.setsockopt fd sol_socket (SockOpt.so_rcvtimeo 1)
                ∷ Call.setsockopt fd ipproto_ip (SockOpt.ip_multicast_loop 0)
                ∷ (if interface.ip.type == 0
                    then Call.setsockopt fd ipproto_ip (SockOpt.ip_multicast_ttl 1)
                      ∷ Call.socket af_inet sock_dgram
                      ∷ Call.event_init
                      ∷ w.trace
                    else Call.setsockopt fd ipproto_ip
                        (SockOpt.ip_multicast_if (s_addr interface.ip))
                      ∷ Call.setsockopt fd ipproto_ip (SockOpt.ip_multicast_ttl 1)
                      ∷ Call.socket af_inet sock_dgram
                      ∷ Call.event_init
                      ∷ w.trace);
          })
  second_server_main options s interface group w parsed chosen grouped opened set went refused =
      let v = looking interface w in
      let fd = e.ret v.trace (Call.socket af_inet sock_dgram) in
      main-start options s interface group w parsed chosen grouped
      ∙ start-exited interface group s.multicast_port w _ (
          create_mutex_lem e v opened set
          ∙ (probe_lem e fd (optioned e fd v) ∙ rw (went, refused) refl))
