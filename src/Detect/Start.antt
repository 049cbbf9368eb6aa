-- ===== src/Detect/Start.antt =====
-- How the detection of speakers is started (server_detect_init, create_detect_socket).
use castserver.Base.{ℕ, ℤ, is_neg, ◌≡◌, true, false, List, [], ◌∷◌, ◌==◌, if◌then◌else◌}
use castserver.Types.{
  Addr, Interface, DetectResponse, Call, SockOpt, Thread, ipproto_ip, sock_dgram, af_inet, af_inet6,
  s_addr,
}
use castserver.Env.{Env}
use castserver.World.{World}
use castserver.Shutdown.{default_group, xexit}
use castserver.Detect.{DetectConfig}
use castserver.Detect.Socket.{membership, no_loop, configure}

module _ {T : Type 0} (e : Env T) where
  -- No system call fails.
  abbrev pub NoneFails : Type 0
  NoneFails = (t : List Call) (c : Call) → is_neg (e.ret t c) ≡ false

  -- The option for the interface of outgoing datagrams, if its family has one.
  abbrev pub interface_option : Interface → List SockOpt
  interface_option interface =
      if interface.ip.type == af_inet
      then (SockOpt.ip_multicast_if (s_addr interface.ip) ∷ [])
      else if interface.ip.type == af_inet6
      then (SockOpt.ipv6_multicast_if interface.ip.body ∷ [])
      else []

  abbrev pub option : ℤ → SockOpt → Call
  option fd o = Call.setsockopt fd ipproto_ip o

  -- The trace after the options were set, in order.
  abbrev pub options_set : ℤ → List SockOpt → List Call → List Call
  options_set fd [] t = t
  options_set fd (o ∷ os) t = options_set fd os (option fd o ∷ t)

  -- The trace after the socket of the interface was opened, bound and set up.
  abbrev pub opened : ℤ → Interface → Addr → ℕ → List Call → List Call
  opened fd interface group port t =
      let af = interface.ip.type in
      option fd (no_loop e interface)
      ∷ option fd (membership e interface group)
      ∷ options_set fd (interface_option interface) (
          option fd (SockOpt.ip_multicast_ttl 2)
          ∷ Call.bind fd (e.set_sockaddr (record { type = af; body = 0 }) port)
          ∷ Call.socket af sock_dgram
          ∷ t)

  abbrev at : List Call → World T → World T
  at t w = record w { trace = t }

  -- The notice of a server that starts.
  abbrev pub first_run : Interface → DetectResponse
  first_run interface = record { ver = 1; type = e.detect_type_first_run; addr = interface.ip }

  abbrev pub started : DetectConfig → Interface → ℤ → World T → World T
  started cfg interface fd w =
      let v = configure e cfg interface w in
      record v {
        detect = record (v.detect) {
          read_fd = fd;
          server_notify_resp = record (first_run interface) { type = 0 };
          online_detect_thread = true;
        };
        trace =
            Call.pthread_detach Thread.online_detect
            ∷ Call.pthread_create Thread.online_detect
            ∷ Call.sendto fd (e.detect_response_bytes (first_run interface)) (default_group e)
            ∷ Call.event_add fd
            ∷ opened fd interface v.detect.multicast_group v.detect.multicast_port w.trace;
      }
