-- ===== src/Command/Round.antt =====
-- A round of the command thread (thread_control_socket).
use castserver.Base.{
  ℕ, suc, ℤ, pos, ◌^◌, ◌<◌, ◌≡◌, Bool, true, false, not, List, ◌∷◌, ◌++◌, take, drop, some, arith,
  ◌==◌,
}
use castserver.Types.{Call}
use castserver.Env.{Env}
use castserver.World.{World, ◌>>◌, pure}
use castserver.Command.{control_buffer_size, call_command, receive, thread_control_socket}

module _ {T : Type 0} (e : Env T) (rounds : ℕ) where
  -- The state after a connection was accepted, and after a message was received on it.
  abbrev pub accepted : World T → World T
  accepted w = record w { trace = Call.accept w.command.listenfd ∷ w.trace }

  abbrev pub recv_from : ℤ → Call
  recv_from fd = Call.recv fd control_buffer_size

  abbrev pub holding : ℤ → List ℕ → World T → World T
  holding fd buffer w = record w {
    trace = recv_from fd ∷ w.trace;
    command = record (w.command) { socket_buffer = buffer };
  }

  abbrev pub calm : World T → Bool
  calm w = not (e.errno w.trace == e.eintr)

  -- A message of `n` bytes on a new connection, while the server runs and no call was interrupted,
  -- is put at the start of the static buffer, and is given to call_command with its length, unless it
  -- is the message that ends the thread. The connection is not closed after it.
  pub thread_control_socket_lem :
      (fd n : ℕ) (before : ℤ) (w : World T)
      → w.exit_thread_flag ≡ false
      → e.ret w.trace (Call.accept w.command.listenfd) ≡ pos fd
      → calm (accepted w) ≡ true
      → e.ret (accepted w).trace (recv_from (pos fd)) ≡ pos (suc n)
      → suc n < 2 ^ 64
      → let message = e.bytes (accepted w).trace (recv_from (pos fd)) in
        let buffer = take (suc n) message ++ drop (suc n) w.command.socket_buffer in
        let v = holding (pos fd) buffer (accepted w) in
        calm v ≡ true
        → e.is_exit_thread_cmd buffer ≡ false
        → thread_control_socket e rounds before w
          ≡ (call_command e rounds (pos fd) buffer (suc n) >> pure (some (pos fd))) v
  unfolding thread_control_socket receive
  thread_control_socket_lem fd n before w runs conn c1 got small c2 stays = ground arith
