-- ===== src/Mutex/Probe.antt =====
-- The start of a second server (create_mutex), and the answer of the first (srv_detect_read).
use castserver.Base.{
  ℤ, pos, is_neg, is_nonzero, ◌+◌, ◌≡◌, ◌∙◌, Bool-cases, inl, inr, false, List, ◌∷◌, take, arith,
  ◌==◌, if◌then◌else◌,
}
use castserver.Types.{Call, Level, SockOpt, ipproto_ip, sol_socket, sock_dgram, af_inet, s_addr}
use castserver.Env.{Env}
use castserver.World.{World, M, pure, ◌>>=◌, ◌>>◌, sys, done, exited}
use castserver.Shutdown.{xexit, default_group}
use castserver.Mutex.{
  mutex_tag, mutex_tag_size, mutex_rsp_size, is_refused, set_or_exit, probe, create_mutex,
}

module _ {T : Type 0} (e : Env T) where
  abbrev pub asked : ℤ → World T → World T
  asked fd w = record w {
    trace = Call.sendto fd (take mutex_tag_size mutex_tag) (default_group e) ∷ w.trace;
  }

  abbrev pub listen_for : ℤ → Call
  listen_for fd = Call.recvfrom fd (mutex_rsp_size + 1)

  -- The probe is sent once. If that fails the process ends with status 1. If the answer is the text
  -- of a running server, the socket is closed and the process ends with status 1; after any other
  -- answer, or none, the socket is shut down and closed, and the start goes on.
  pub probe_lem :
      (fd : ℤ) (w : World T)
      → let v = asked fd w in
        let len = e.ret v.trace (listen_for fd) in
        let bytes = e.bytes v.trace (listen_for fd) in
        probe e fd w ≡ (
          if is_neg
            (e.ret w.trace (Call.sendto fd (take mutex_tag_size mutex_tag) (default_group e)))
          then exited 1 v
          else if is_refused e len bytes
          then exited 1 (record v { trace = Call.close fd ∷ listen_for fd ∷ v.trace })
          else done tt
              (record v { trace = Call.close fd ∷ Call.shutdown fd ∷ listen_for fd ∷ v.trace }))
  unfolding probe
  probe_lem fd w = ground arith

  -- The state after the options of the socket were set.
  abbrev pub optioned : ℤ → World T → World T
  optioned fd w = record w {
    trace =
        Call.setsockopt fd sol_socket (SockOpt.so_rcvtimeo 1)
        ∷ Call.setsockopt fd ipproto_ip (SockOpt.ip_multicast_loop 0)
        ∷ (if w.mutex.ip.type == 0
            then Call.setsockopt fd ipproto_ip (SockOpt.ip_multicast_ttl 1)
              ∷ Call.socket af_inet sock_dgram
              ∷ w.trace
            else Call.setsockopt fd ipproto_ip (SockOpt.ip_multicast_if (s_addr w.mutex.ip))
              ∷ Call.setsockopt fd ipproto_ip (SockOpt.ip_multicast_ttl 1)
              ∷ Call.socket af_inet sock_dgram
              ∷ w.trace);
  }

  option-set :
      (fd : ℤ) (o : SockOpt) (k : M T (Unit {0})) (w : World T)
      → e.ret w.trace (Call.setsockopt fd ipproto_ip o) ≡ pos 0
      → (set_or_exit e fd o >> k) w
        ≡ k (record w { trace = Call.setsockopt fd ipproto_ip o ∷ w.trace })
  option-set fd o k w h = rw (h, ◌>>=◌)

  -- The end of `create_mutex`: no loopback, a timeout, and the probe.
  abbrev rest_of : ℤ → M T (Unit {0})
  rest_of fd = do
    r ← sys e (Call.setsockopt fd ipproto_ip (SockOpt.ip_multicast_loop 0))
    if is_neg r then xexit e e.eerr_socket else do
      q ← sys e (Call.setsockopt fd sol_socket (SockOpt.so_rcvtimeo 1))
      if is_nonzero q then xexit e e.eerr_socket else probe e fd

  rest_of-set :
      (fd : ℤ) (w : World T)
      → let quiet = Call.setsockopt fd ipproto_ip (SockOpt.ip_multicast_loop 0) in
        e.ret w.trace quiet ≡ pos 0
        → e.ret (quiet ∷ w.trace) (Call.setsockopt fd sol_socket (SockOpt.so_rcvtimeo 1)) ≡ pos 0
        → rest_of fd w
          ≡ probe e fd (record w {
            trace = Call.setsockopt fd sol_socket (SockOpt.so_rcvtimeo 1) ∷ quiet ∷ w.trace;
          })
  rest_of-set fd w h k = rw (h, if◌then◌else◌, k)

  -- Where the socket can be made and no option fails, the probe goes out over a socket with a time
  -- to live of 1, over the given interface if there is one, without loopback, and with a timeout of
  -- a second for the answer.
  pub create_mutex_lem :
      (w : World T)
      → let fd = e.ret w.trace (Call.socket af_inet sock_dgram) in
        is_neg fd ≡ false
        → ((t : List Call) (level : Level) (o : SockOpt)
            → e.ret t (Call.setsockopt fd level o) ≡ pos 0)
        → create_mutex e w ≡ probe e fd (optioned fd w)
  unfolding create_mutex
  create_mutex_lem w opened set =
      let fd = e.ret w.trace (Call.socket af_inet sock_dgram) in
      let base = Call.socket af_inet sock_dgram ∷ w.trace in
      let ttl = Call.setsockopt fd ipproto_ip (SockOpt.ip_multicast_ttl 1) ∷ base in
      let iface =
        Call.setsockopt fd ipproto_ip (SockOpt.ip_multicast_if (s_addr w.mutex.ip)) ∷ ttl in
      let quiet = Call.setsockopt fd ipproto_ip (SockOpt.ip_multicast_loop 0) in
      let at : List Call → World T = λ t. record w { trace = t } in
      let on_interface = set_or_exit e fd (SockOpt.ip_multicast_if (s_addr w.mutex.ip)) in
      elim (Bool-cases (w.mutex.ip.type == 0)) [
        | inl any ↦
            rw (opened, any)
              (option-set fd (SockOpt.ip_multicast_ttl 1) (pure tt >> rest_of fd) (at base)
                  (set base ipproto_ip _)
                ∙ rest_of-set fd (at ttl) (set ttl ipproto_ip _) (set (quiet ∷ ttl) sol_socket _))
        | inr given ↦
            rw (opened, given)
              (option-set fd (SockOpt.ip_multicast_ttl 1) (on_interface >> rest_of fd) (at base)
                  (set base ipproto_ip _)
                ∙ (option-set fd (SockOpt.ip_multicast_if (s_addr w.mutex.ip)) (rest_of fd) (at ttl)
                      (set ttl ipproto_ip _)
                    ∙ rest_of-set fd (at iface) (set iface ipproto_ip _)
                        (set (quiet ∷ iface) sol_socket _)))
      ]
