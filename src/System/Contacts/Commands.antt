-- ===== src/System/Contacts/Commands.antt =====
-- A round of the command thread writes datagrams to contacts only, whatever command it runs.
use castserver.Types.{Call}
use castserver.Base.{ℕ, zero, suc, ℤ, List, [], ◌∷◌, Option, none, some, eq_ncase}
use castserver.Types.{Addr, Sockaddr}
use castserver.Env.{Env}
use castserver.World.{M}
use castserver.Wave.{Playing, push, chunk_loop, receive_loop, play, cmd_wave}
use castserver.Command.{
  PipeCommand, commands, command_loop, call_command, receive, thread_control_socket, send_list,
  cmd_speakers,
}
use castserver.System.Contacts.{KeepsAddresses, Safe, polite, if-Safe}
use castserver.System.Contacts.Handlers.{server_sppush_push-Safe, server_spctrl_set_format-Safe}

module _ {T : Type 0} (e : Env T) (P : Addr → Type 0) (Q : Sockaddr → Type 0)
    (law : KeepsAddresses e) (old : List Call) where
  abbrev S : {A : Type 0} → M T A → Type 0
  S m = Safe e P Q law old m

  send_list-Safe : (fd : ℤ) (o : Option (List ℕ)) → S (send_list e fd o)
  send_list-Safe fd none = search polite depth 24
  send_list-Safe fd (some list) = search polite depth 24

  cmd_speakers-Safe : (fd : ℤ) (arg : Option (List ℕ)) (len : ℕ) → S (cmd_speakers e fd arg len)
  unfolding cmd_speakers
  cmd_speakers-Safe fd arg len = search (polite, send_list-Safe) depth 24

  push-Safe : (p : Playing) (samples : List ℕ) → S (push e p samples)
  push-Safe p samples = server_sppush_push-Safe e P Q law old _ _ _ _ _

  chunk_loop-Safe :
      (p : Playing) (header_size fuel len : ℕ) (samples : List ℕ)
      → S (chunk_loop e p header_size fuel len samples)
  unfolding chunk_loop
  chunk_loop-Safe p header_size zero len samples = search polite depth 24
  chunk_loop-Safe p header_size (suc fuel) len samples =
      let rest = chunk_loop-Safe p header_size fuel in search (polite, push-Safe, rest) depth 24

  receive_loop-Safe :
      (p : Playing) (fd : ℤ) (rounds offset : ℕ) (buffer : List ℕ)
      → S (receive_loop e p fd rounds offset buffer)
  unfolding receive_loop
  receive_loop-Safe p fd zero offset buffer = search polite depth 24
  receive_loop-Safe p fd (suc rounds) offset buffer =
      let rest = receive_loop-Safe p fd rounds in search (polite, push-Safe, rest) depth 24

  cmd_wave-Safe :
      (rounds : ℕ) (fd : ℤ) (arg : Option (List ℕ)) (len : ℕ) → S (cmd_wave e rounds fd arg len)
  unfolding cmd_wave play
  cmd_wave-Safe rounds fd none len = search polite depth 24
  cmd_wave-Safe rounds fd (some arg) len =
      search (polite, server_spctrl_set_format-Safe, chunk_loop-Safe, receive_loop-Safe) depth 30

  module _ (rounds : ℕ) where
    abbrev AllSafe : List (PipeCommand T) → Type 0
    AllSafe [] = Unit
    AllSafe (none ∷ table) = AllSafe table
    AllSafe (some (name, cb) ∷ table) =
        ((fd : ℤ) (arg : Option (List ℕ)) (len : ℕ) → S (cb fd arg len)) × AllSafe table

    command_loop-Safe :
        (fd : ℤ) (cmd : List ℕ) (arg : Option (List ℕ)) (len left : ℕ)
        (table : List (PipeCommand T))
        → AllSafe table
        → S (command_loop e rounds fd cmd arg len left table)
    unfolding command_loop
    command_loop-Safe fd cmd arg len zero table all = search polite depth 24
    command_loop-Safe fd cmd arg len (suc left) [] all = search polite depth 24
    command_loop-Safe fd cmd arg len (suc left) (none ∷ table) all = search polite depth 24
    command_loop-Safe fd cmd arg len (suc left) (some (name, cb) ∷ table) all =
        if-Safe e P Q law old (eq_ncase 8 cmd name) (cb fd arg len) _ (all.0 fd arg len)
          (command_loop-Safe fd cmd arg len left table all.1)

    call_command-Safe : (fd : ℤ) (buf : List ℕ) (len : ℕ) → S (call_command e rounds fd buf len)
    unfolding call_command
    call_command-Safe fd buf len =
        let all : AllSafe (commands e rounds) = (cmd_speakers-Safe, (cmd_wave-Safe rounds, tt)) in
        let run = λ (cmd : List ℕ) (arg : Option (List ℕ)) (n left : ℕ).
          command_loop-Safe fd cmd arg n left (commands e rounds) all in
        search (polite, run) depth 24

    receive-Safe : (fd : ℤ) → S (receive e rounds fd)
    unfolding receive
    receive-Safe fd = search (polite, call_command-Safe) depth 30

    pub thread_control_socket-Safe : (fd : ℤ) → S (thread_control_socket e rounds fd)
    unfolding thread_control_socket
    thread_control_socket-Safe fd = search (polite, receive-Safe) depth 30
