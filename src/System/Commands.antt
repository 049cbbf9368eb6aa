-- ===== src/System/Commands.antt =====
-- A round of the command thread keeps the frame of the server, whatever command it runs.
use castserver.Base.{
  ℕ, zero, suc, ℤ, ◌≡◌, refl, Bool, true, false, ◌||◌, List, [], ◌∷◌, Option, none, some, eq_ncase,
}
use castserver.Types.{Call}
use castserver.Env.{Env}
use castserver.World.{M}
use castserver.Wave.{Playing, push, chunk_loop, receive_loop, play, cmd_wave}
use castserver.Control.{server_spctrl_set_format}
use castserver.Command.{
  PipeCommand, commands, command_loop, call_command, receive, thread_control_socket, cmd_speakers,
}
use castserver.System.Frame.{Keeps, keeps, is_serving, if-Keeps, Keeps-weaken}
use castserver.System.Handlers.{
  server_sppush_push-Keeps, server_spctrl_set_format-Keeps, cmd_speakers-Keeps,
}

-- The calls of the command thread: those that serve, and those that wait for a message.
abbrev is_waiting : Call → Bool
is_waiting (Call.accept fd) = true
is_waiting (Call.recv fd size) = true
is_waiting call = false

abbrev pub is_attending : Call → Bool
is_attending call = is_serving call || is_waiting call

serving_attends : (c : Call) → is_serving c ≡ true → is_attending c ≡ true
serving_attends c h = rw h refl

module _ {T : Type 0} (e : Env T) where
  pub attends : {A : Type 0} {m : M T A} → Keeps is_serving m → Keeps is_attending m
  attends k = Keeps-weaken is_serving is_attending serving_attends _ k

  push-Keeps : (p : Playing) (samples : List ℕ) → Keeps is_attending (push e p samples)
  push-Keeps p samples = attends (server_sppush_push-Keeps e _ _ _ _ _)

  set_format-Keeps :
      (channels : List ℕ) (rate bits : ℕ)
      → Keeps is_attending (server_spctrl_set_format e channels rate bits)
  set_format-Keeps channels rate bits =
      Keeps-weaken is_serving is_attending serving_attends _
        (server_spctrl_set_format-Keeps e _ _ _)

  speakers-Keeps :
      (fd : ℤ) (arg : Option (List ℕ)) (len : ℕ) → Keeps is_attending (cmd_speakers e fd arg len)
  speakers-Keeps fd arg len = attends (cmd_speakers-Keeps e fd arg len)

  pub chunk_loop-Keeps :
      (p : Playing) (header_size fuel len : ℕ) (samples : List ℕ)
      → Keeps is_serving (chunk_loop e p header_size fuel len samples)
  unfolding chunk_loop
  chunk_loop-Keeps p header_size zero len samples = search keeps depth 24
  chunk_loop-Keeps p header_size (suc fuel) len samples =
      let rest = chunk_loop-Keeps p header_size fuel in
      search (keeps, server_sppush_push-Keeps, rest) depth 24

  chunks-Keeps :
      (p : Playing) (header_size fuel len : ℕ) (samples : List ℕ)
      → Keeps is_attending (chunk_loop e p header_size fuel len samples)
  chunks-Keeps p header_size fuel len samples =
      attends (chunk_loop-Keeps p header_size fuel len samples)

  receive_loop-Keeps :
      (p : Playing) (fd : ℤ) (rounds offset : ℕ) (buffer : List ℕ)
      → Keeps is_attending (receive_loop e p fd rounds offset buffer)
  unfolding receive_loop
  receive_loop-Keeps p fd zero offset buffer = search keeps depth 24
  receive_loop-Keeps p fd (suc rounds) offset buffer =
      let rest = receive_loop-Keeps p fd rounds in search (keeps, push-Keeps, rest) depth 24

  cmd_wave-Keeps :
      (rounds : ℕ) (fd : ℤ) (arg : Option (List ℕ)) (len : ℕ)
      → Keeps is_attending (cmd_wave e rounds fd arg len)
  unfolding cmd_wave play
  cmd_wave-Keeps rounds fd none len = search keeps depth 24
  cmd_wave-Keeps rounds fd (some arg) len =
      search (keeps, set_format-Keeps, chunks-Keeps, receive_loop-Keeps) depth 30

  module _ (rounds : ℕ) where
    abbrev AllKeep : List (PipeCommand T) → Type 0
    AllKeep [] = Unit
    AllKeep (none ∷ table) = AllKeep table
    AllKeep (some (name, cb) ∷ table) =
        ((fd : ℤ) (arg : Option (List ℕ)) (len : ℕ) → Keeps is_attending (cb fd arg len))
        × AllKeep table

    command_loop-Keeps :
        (fd : ℤ) (cmd : List ℕ) (arg : Option (List ℕ)) (len left : ℕ)
        (table : List (PipeCommand T))
        → AllKeep table
        → Keeps is_attending (command_loop e rounds fd cmd arg len left table)
    unfolding command_loop
    command_loop-Keeps fd cmd arg len zero table all = search keeps depth 24
    command_loop-Keeps fd cmd arg len (suc left) [] all = search keeps depth 24
    command_loop-Keeps fd cmd arg len (suc left) (none ∷ table) all = search keeps depth 24
    command_loop-Keeps fd cmd arg len (suc left) (some (name, cb) ∷ table) all =
        if-Keeps is_attending (eq_ncase 8 cmd name) (cb fd arg len) _ (all.0 fd arg len)
          (command_loop-Keeps fd cmd arg len left table all.1)

    call_command-Keeps :
        (fd : ℤ) (buf : List ℕ) (len : ℕ) → Keeps is_attending (call_command e rounds fd buf len)
    unfolding call_command
    call_command-Keeps fd buf len =
        let all : AllKeep (commands e rounds) = (speakers-Keeps, (cmd_wave-Keeps rounds, tt)) in
        let run = λ (cmd : List ℕ) (arg : Option (List ℕ)) (n left : ℕ).
          command_loop-Keeps fd cmd arg n left (commands e rounds) all in
        search (keeps, run) depth 24

    receive-Keeps : (fd : ℤ) → Keeps is_attending (receive e rounds fd)
    unfolding receive
    receive-Keeps fd = search (keeps, call_command-Keeps) depth 30

    pub thread_control_socket-Keeps :
        (fd : ℤ) → Keeps is_attending (thread_control_socket e rounds fd)
    unfolding thread_control_socket
    thread_control_socket-Keeps fd = search (keeps, receive-Keeps) depth 30
