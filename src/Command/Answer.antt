-- ===== src/Command/Answer.antt =====
-- The list of speakers from the client's request to the server's answer (client/list_speakers.c,
-- command_control.c, command/speakers.c).
use castserver.Base.{
  ℕ, ℤ, pos, ◌*◌, ◌≤◌, ◌≡◌, ◌∙◌, ap, ◌≢◌, true, false, List, ◌∷◌, ◌++◌, length, take, drop, some,
  none, arith,
}
use castserver.Types.{Call}
use castserver.Env.{Env}
use castserver.World.{World, ◌>>◌, pure, done, >>=-done}
use castserver.Client.{list_speakers_request}
use castserver.Command.{call_command, thread_control_socket}
use castserver.Command.Dispatch.{client_requests}
use castserver.Command.Listing.{IsSized, listed, listing, cmd_speakers_lem}
use castserver.Command.Round.{accepted, recv_from, holding, calm, thread_control_socket_lem}

module _ {T : Type 0} (e : Env T) (rounds : ℕ) where
  abbrev pub with_request : World T → List ℕ
  with_request w = list_speakers_request ++ drop 12 w.command.socket_buffer

  -- The state in which the request is handled.
  abbrev pub requested : ℤ → World T → World T
  requested fd w = holding e rounds fd (with_request w) (accepted e rounds w)

  -- A client that connects and sends the request of list_speakers, whole in one message, to a running
  -- server with at least one speaker, is sent one message on its connection in the same round of the
  -- thread: the structs of the speakers in a state between NONE and DELETED, in the order of the
  -- table, and behind them stale bytes up to the size of all. The connection stays open. No call was
  -- interrupted, the request does not end the thread, and each struct has its size.
  pub list_speakers_answered :
      (sized : IsSized e) (fd : ℕ) (before : ℤ) (w : World T)
      → w.exit_thread_flag ≡ false
      → e.ret w.trace (Call.accept w.command.listenfd) ≡ pos fd
      → calm e rounds (accepted e rounds w) ≡ true
      → e.ret (accepted e rounds w).trace (recv_from e rounds (pos fd)) ≡ pos 12
      → e.bytes (accepted e rounds w).trace (recv_from e rounds (pos fd)) ≡ list_speakers_request
      → let v = requested (pos fd) w in
        calm e rounds v ≡ true
        → e.is_exit_thread_cmd (with_request w) ≡ false
        → e.speaker_count v.speakers ≢ 0
        → let sps = e.speaker_foreach v.speakers in
          length (listed e v.speakers.mem sps) ≤ e.speaker_count v.speakers
          → let stale =
              drop
                (length (listed e v.speakers.mem sps) * e.speaker_size)
                (e.stack v.trace (e.speaker_count v.speakers * e.speaker_size)) in
            thread_control_socket e rounds before w
            ≡ done (some (pos fd)) (record v {
              trace = Call.send (pos fd) (listing e v.speakers.mem sps ++ stale) ∷ v.trace;
            })
  list_speakers_answered sized fd before w runs conn c1 got same c2 stays some_speaker room =
      let v = requested (pos fd) w in
      let holds = λ (b : List ℕ). holding e rounds (pos fd) b (accepted e rounds w) in
      let buffer = λ (m : List ℕ). take 12 m ++ drop 12 w.command.socket_buffer in
      let after = λ (m : List ℕ).
        (call_command e rounds (pos fd) (buffer m) 12 >> pure (some (pos fd))) (holds (buffer m)) in
      thread_control_socket_lem e rounds fd 11 before w runs conn c1 got (omega arith) c2
        (rw same stays)
      ∙ (ap after same
          ∙ >>=-done (call_command e rounds (pos fd) (with_request w) 12)
              (λ _. pure (some (pos fd))) v _ (pos 0)
              ((client_requests e rounds (pos fd) (with_request w) (drop 12 w.command.socket_buffer)
                  v).0
                ∙ (cmd_speakers_lem e sized (pos fd) none 0 v room ∙ ground arith)))
