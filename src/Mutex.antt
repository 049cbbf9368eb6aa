-- ===== src/Mutex.antt =====
-- server_mutex.c: a starting server asks on the multicast group whether another one runs.
pub mod Probe
use castserver.Base.{
  ℕ, ℤ, pos, is_neg, is_nonzero, is_nonpos, Bool, ◌+◌, not, ◌&&◌, List, take, codes, eq_ncase, ◌==◌,
  Option, none, some, if◌then◌else◌,
}
use castserver.Types.{Interface, Call, SockOpt, ipproto_ip, sol_socket, sock_dgram, af_inet, s_addr}
use castserver.Env.{Env}
use castserver.World.{World, M, ◌>>=◌, ◌>>◌, pure, get, modify, exit, sys}
use castserver.Shutdown.{default_group, xexit}

abbrev pub mutex_tag : List ℕ
mutex_tag = codes "castspeaker server"

abbrev pub mutex_tag_size : ℕ
mutex_tag_size = 18

abbrev pub mutex_rsp : List ℕ
mutex_rsp = codes "hey, kill yourself"

abbrev pub mutex_rsp_size : ℕ
mutex_rsp_size = 18

-- What `recvfrom` leaves in the zeroed buffer, up to the NUL behind it.
abbrev pub received : ℤ → List ℕ → List ℕ
received (pos n) bytes = take n bytes
received _ bytes = take 0 bytes

module _ {T : Type 0} (e : Env T) where
  -- len > 0 && strncasecmp(buf, MUTEX_RSP, MUTEX_RSP_SIZE) == 0
  abbrev pub is_refused : ℤ → List ℕ → Bool
  is_refused len bytes =
      not (is_nonpos len) && eq_ncase mutex_rsp_size (received len bytes) mutex_rsp

  -- Asking, and ending if another server answers.
  unfoldable pub probe : ℤ → M T (Unit {0})
  probe fd = do
    r ← sys e (Call.sendto fd (take mutex_tag_size mutex_tag) (default_group e))
    if is_neg r then exit 1 else do
      w ← get
      len ← sys e (Call.recvfrom fd (mutex_rsp_size + 1))
      if is_refused len (e.bytes w.trace (Call.recvfrom fd (mutex_rsp_size + 1)))
          then (do sys e (Call.close fd); exit 1)
          else (do sys e (Call.shutdown fd); sys e (Call.close fd); pure tt)

  -- A failed option closes the socket and ends the process.
  abbrev pub set_or_exit : ℤ → SockOpt → M T (Unit {0})
  set_or_exit fd option = do
    r ← sys e (Call.setsockopt fd ipproto_ip option)
    if is_neg r then (do sys e (Call.close fd); exit e.eerr_socket) else pure tt

  unfoldable pub create_mutex : M T (Unit {0})
  create_mutex = do
    w ← get
    fd ← sys e (Call.socket af_inet sock_dgram)
    if is_neg fd then exit e.eerr_socket else do
      set_or_exit fd (SockOpt.ip_multicast_ttl 1)
      if w.mutex.ip.type == 0
          then pure tt
          else set_or_exit fd (SockOpt.ip_multicast_if (s_addr w.mutex.ip))
      r ← sys e (Call.setsockopt fd ipproto_ip (SockOpt.ip_multicast_loop 0))
      if is_neg r then xexit e e.eerr_socket else do
        q ← sys e (Call.setsockopt fd sol_socket (SockOpt.so_rcvtimeo 1))
        if is_nonzero q then xexit e e.eerr_socket else probe fd

  unfoldable pub mutex_init : Option Interface → M T ℤ
  mutex_init none = exit e.eerr_arg
  mutex_init (some inface) = do
    modify (λ w. record w { mutex = inface })
    create_mutex
    pure (pos 0)
