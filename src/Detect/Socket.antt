-- ===== src/Detect/Socket.antt =====
-- server_detect.c: the multicast socket, and the start of the component.
use castserver.Base.{ℕ, ℤ, pos, is_neg, true, Option, none, some, ◌==◌, if◌then◌else◌}
use castserver.Types.{
  Addr, Interface, Call, SockOpt, Thread, ipproto_ip, sock_dgram, af_inet, af_inet6, s_addr,
}
use castserver.Env.{Env}
use castserver.World.{World, M, ◌>>=◌, ◌>>◌, pure, get, modify, exit, sys}
use castserver.Shutdown.{multicast_serverinfo, xexit}
use castserver.Detect.{DetectConfig}

module _ {T : Type 0} (e : Env T) where
  -- A failed option ends the process by `xexit`.
  abbrev pub must_set : ℤ → SockOpt → M T (Unit {0})
  must_set fd option = do
    r ← sys e (Call.setsockopt fd ipproto_ip option)
    if is_neg r then xexit e e.eerr_socket else pure tt

  -- A failed option closes the socket first.
  abbrev pub must_set_or_close : ℤ → SockOpt → M T (Unit {0})
  must_set_or_close fd option = do
    r ← sys e (Call.setsockopt fd ipproto_ip option)
    if is_neg r then (do sys e (Call.close fd); xexit e e.eerr_socket) else pure tt

  -- The interface of outgoing datagrams, by the family of its address.
  abbrev pub set_interface : ℤ → Interface → M T (Unit {0})
  set_interface fd interface =
      if interface.ip.type == af_inet
      then must_set_or_close fd (SockOpt.ip_multicast_if (s_addr interface.ip))
      else if interface.ip.type == af_inet6
      then must_set_or_close fd (SockOpt.ipv6_multicast_if interface.ip.body)
      else pure tt

  -- The membership that is asked for; the group of IPv6 is left zero.
  abbrev pub membership : Interface → Addr → SockOpt
  membership interface group =
      if interface.ip.type == af_inet
      then SockOpt.ip_add_membership
          (if s_addr group == 0 then e.inet_addr e.default_multicast_group else s_addr group)
          (s_addr interface.ip)
      else SockOpt.ipv6_add_membership 0 interface.ifindex

  abbrev pub no_loop : Interface → SockOpt
  no_loop interface =
      if interface.ip.type == af_inet
      then SockOpt.ip_multicast_loop 0
      else SockOpt.ipv6_multicast_loop 0

  unfoldable pub create_detect_socket : M T ℤ
  create_detect_socket = do
    w ← get
    let interface = w.detect.interface
    let af = interface.ip.type
    fd ← sys e (Call.socket af sock_dgram)
    if is_neg fd then xexit e e.eerr_socket else do
      r ←
          sys e
            (Call.bind fd (e.set_sockaddr (record { type = af; body = 0 }) w.detect.multicast_port))
      if is_neg r then xexit e e.eerr_socket else do
        t ← sys e (Call.setsockopt fd ipproto_ip (SockOpt.ip_multicast_ttl 2))
        if is_neg t then (do sys e (Call.close fd); exit e.eerr_socket) else do
          set_interface fd interface
          must_set fd (membership interface w.detect.multicast_group)
          must_set fd (no_loop interface)
          pure fd

  abbrev pub group_or_default : Option Addr → ℕ → Addr
  group_or_default none family =
      if family == af_inet
      then e.addr_stoa e.default_multicast_group
      else e.addr_stoa e.default_multicast_groupv6
  group_or_default (some group) family = group

  abbrev pub configure : DetectConfig → Interface → World T → World T
  configure cfg interface w = record w {
    detect = record (w.detect) {
      interface = interface;
      multicast_group = group_or_default cfg.multicast_group interface.ip.type;
      multicast_port =
          if cfg.multicast_port == 0 then e.default_multicast_port else cfg.multicast_port;
      detect_cb = cfg.added_cb;
      family = interface.ip.type;
    };
  }

  detect_start : DetectConfig → Interface → M T ℤ
  detect_start cfg interface = do
    modify (configure cfg interface)
    fd ← create_detect_socket
    modify (λ w. record w { detect = record (w.detect) { read_fd = fd } })
    sys e (Call.event_add fd)
    modify (λ w. record w {
      detect = record (w.detect) {
        server_notify_resp = record {
          ver = 1;
          type = e.detect_type_first_run;
          addr = interface.ip;
        };
      };
    })
    multicast_serverinfo e
    sys e (Call.pthread_create Thread.online_detect)
    modify (λ w. record w { detect = record (w.detect) { online_detect_thread = true } })
    sys e (Call.pthread_detach Thread.online_detect)
    pure (pos 0)

  abbrev start_on : DetectConfig → Option Interface → M T ℤ
  start_on cfg none = xexit e e.eerr_arg
  start_on cfg (some interface) = detect_start cfg interface

  unfoldable pub server_detect_init : Option DetectConfig → M T ℤ
  unfolding detect_start
  server_detect_init none = xexit e e.eerr_arg
  server_detect_init (some cfg) = start_on cfg cfg.interface
