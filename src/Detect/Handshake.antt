-- ===== src/Detect/Handshake.antt =====
-- Two servers: the probe of the second (server_mutex.c) meets the answer of the first (server_detect.c).
use castserver.Base.{ℕ, ℤ, pos, ◌+◌, ◌≡◌, refl, true, List, ◌∷◌, take, length, eq_ncase}
use castserver.Types.{Sockaddr, Call}
use castserver.Env.{Env}
use castserver.World.{World, exited, state_of}
use castserver.Shutdown.{default_group}
use castserver.Mutex.{mutex_tag, mutex_tag_size, mutex_rsp, mutex_rsp_size, is_refused, probe}
use castserver.Mutex.Probe.{asked, listen_for, probe_lem}
use castserver.Detect.{srv_detect_read}

-- What the probe carries.
abbrev pub probe_bytes : List ℕ
probe_bytes = take mutex_tag_size mutex_tag

module _ {T : Type 0} (e : Env T) where
  -- A second server on the network does not start: let the first, in any state, receive the probe
  -- and send `bytes` in answer, and let the second have sent its probe and receive exactly those
  -- bytes. Then the second closes its socket and ends with status 1, having sent nothing else.
  pub second_server_exits :
      (src : Sockaddr) (first second : World T) (fd answer_fd : ℤ) (n : ℕ) (bytes : List ℕ)
      → (state_of (srv_detect_read e src probe_bytes (length probe_bytes) first)).trace
        ≡ Call.sendto answer_fd bytes src ∷ first.trace
      → e.ret second.trace (Call.sendto fd probe_bytes (default_group e)) ≡ pos n
      → e.ret (asked e fd second).trace (listen_for e fd) ≡ pos (length bytes)
      → e.bytes (asked e fd second).trace (listen_for e fd) ≡ bytes
      → probe e fd second
        ≡ exited 1 (record second {
          trace =
              Call.close fd
              ∷ Call.recvfrom fd (mutex_rsp_size + 1)
              ∷ Call.sendto fd probe_bytes (default_group e)
              ∷ second.trace;
        })
  unfolding srv_detect_read eq_ncase
  second_server_exits src first second fd answer_fd n bytes sent went arrived same =
      let answer : bytes ≡ mutex_rsp = cc in
      let refused : is_refused e (pos (length bytes)) bytes ≡ true = rw answer refl in
      rw (probe_lem e fd second, went, arrived, same, refused)
