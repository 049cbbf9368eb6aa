-- ===== src/Pusher/Connect.antt =====
-- How a speaker gets its socket (server_sppush_connect).
use castserver.Base.{ℕ, ℤ, is_neg, is_nonzero, ◌≡◌, Bool, ◌&&◌, ◌∷◌, arith, if◌then◌else◌}
use castserver.Types.{Speaker, Call, sock_dgram_nonblock}
use castserver.Env.{Env}
use castserver.World.{write_self, write-write, World, done, speaker, write_mem}
use castserver.Pusher.{server_sppush_connect}

module _ {T : Type 0} (e : Env T) where
  abbrev pub may_connect : Speaker → Bool
  may_connect s = e.speaker_supported s && e.speaker_is_online s

  -- The socket that a speaker is given: a new one, or the pusher's if there is none.
  abbrev pub given_fd : World T → ℤ
  given_fd w =
      let fd = e.ret w.trace (Call.socket w.pusher.listen_ip.type sock_dgram_nonblock) in
      if is_neg fd then w.pusher.read_fd else fd

  abbrev pub connected : ℕ → World T → World T
  connected sp w = record w {
    trace =
        Call.connect (given_fd w) (e.set_sockaddr (speaker w sp).ip (speaker w sp).dport)
        ∷ Call.socket w.pusher.listen_ip.type sock_dgram_nonblock
        ∷ w.trace;
    speakers = write_mem w.speakers sp (record (speaker w sp) { fd = given_fd w });
  }

  -- The result of `connect` for the socket that the speaker is given.
  abbrev pub connect_result : ℕ → World T → ℤ
  connect_result sp w =
      e.ret (Call.socket w.pusher.listen_ip.type sock_dgram_nonblock ∷ w.trace)
        (Call.connect (given_fd w) (e.set_sockaddr (speaker w sp).ip (speaker w sp).dport))

  -- Connecting a speaker that is not supported or not online changes nothing and gives
  -- ERROR_SPEAKER. Otherwise it gets a new socket, or the pusher's where none can be made; that
  -- socket alone is connected to the speaker's address, the descriptor is stored in this speaker and
  -- no other speaker changes, and the result is OK exactly when `connect` gave 0, else ERROR_SOCKET.
  pub server_sppush_connect_lem :
      (sp : ℕ) (w : World T)
      → server_sppush_connect e sp w ≡ (
          if may_connect (speaker w sp)
          then done
              (if is_nonzero (connect_result sp w) then e.error_socket else e.ok)
              (connected sp w)
          else done e.error_speaker w)
  unfolding server_sppush_connect
  server_sppush_connect_lem sp w =
      let fd = e.ret w.trace (Call.socket w.pusher.listen_ip.type sock_dgram_nonblock) in
      let with_fd : ℤ → Speaker = λ f. record (speaker w sp) { fd = f } in
      ground (
        arith,
        write_self w.speakers.mem sp (with_fd fd),
        write_self w.speakers.mem sp (with_fd w.pusher.read_fd),
        write-write w.speakers.mem sp (with_fd fd) (with_fd w.pusher.read_fd),
      )
