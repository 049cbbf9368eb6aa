-- ===== src/Command/Tests.antt =====
-- The command socket on a concrete system.
use castserver.Base.{
  ℕ, ℤ, pos, ◌≡◌, refl, inl, List, [], ◌∷◌, ◌++◌, codes, drop, replicate, Option, none, some, true,
  arith,
}
use castserver.Types.{Call, Thread, af_unix, sock_stream}
use castserver.World.{World, done, fault}
use castserver.Client.{list_speakers_request}
use castserver.Command.{call_command, thread_control_socket, server_cmdctrl_init}
use castserver.Command.Dispatch.{call_command_lem}
use castserver.Command.Start.{server_cmdctrl_init_lem}
use castserver.Command.Answer.{list_speakers_answered}
use castserver.Sample.{system, server}

-- A command that the table does not have.
call_command_lem_example :
    call_command system 9 (pos 40) (codes "cntlshutdown") 12 server ≡ fault server
unfolding castserver.Base.eq_bytes castserver.Base.eq_ncase
call_command_lem_example = call_command_lem system 9 (pos 40) (codes "cntlshutdown") 12 server

server_cmdctrl_init_lem_example :
    server_cmdctrl_init system (codes "/tmp/c") server
    ≡ done (pos 0) (record server {
      trace =
          Call.pthread_detach Thread.control_socket
          ∷ Call.pthread_create Thread.control_socket
          ∷ Call.listen (pos 7) 10
          ∷ Call.bind_path (pos 7) (codes "/tmp/c")
          ∷ Call.unlink (codes "/tmp/c")
          ∷ Call.socket af_unix sock_stream
          ∷ Call.init_thread_cmd
          ∷ [];
      command = record (server.command) { listenfd = pos 7; sock_path = codes "/tmp/c" };
    })
server_cmdctrl_init_lem_example =
    server_cmdctrl_init_lem system (codes "/tmp/c") server (omega arith)

-- The server with the request of list_speakers in its buffer.
abbrev asked : World (List ℕ)
asked = record server {
  trace = Call.recv (pos 40) 4096 ∷ Call.accept (pos 33) ∷ [];
  command = record (server.command) { socket_buffer = list_speakers_request };
}

list_speakers_answered_example :
    thread_control_socket system 9 (pos 0) server
    ≡ done
        (some (pos 40))
        (record asked { trace = Call.send (pos 40) (5 ∷ 1 ∷ 6 ∷ 2 ∷ []) ∷ asked.trace })
unfolding mathlib.Core.List.flatten
list_speakers_answered_example =
    list_speakers_answered system 9 (λ s. refl) 40 (pos 0) server refl refl refl refl refl refl refl
      (omega arith) (omega arith)
