-- ===== src/Command.antt =====
-- command_control.c: the command socket, and command/speakers.c: the list of speakers.
pub mod Dispatch
pub mod Listing
pub mod Round
pub mod Start
pub mod Answer
mod Tests
use castserver.Base.{overlay}
use castserver.Base.{
  ℕ, zero, suc, ℤ, pos, negsuc, is_neg, is_nonzero, to_size, Bool, true, false, ◌+◌, ◌-◌, ◌*◌, not,
  ◌&&◌, ◌||◌, List, [], ◌∷◌, ◌++◌, length, take, drop, replicate, keep, map, codes, eq_bytes,
  eq_ncase, Option, none, some, ltb, leb, ◌==◌, if◌then◌else◌,
}
use mathlib.Core.List.{flatten}
use castserver.Types.{Speaker, Call, Thread, sock_stream, af_unix}
use castserver.Env.{Env}
use castserver.World.{World, M, ◌>>=◌, ◌>>◌, pure, get, modify, exit, undefined, sys, speaker}
use castserver.Shutdown.{xexit}
use castserver.Wave.{cmd_wave}

-- A command: the connection, the bytes behind its name (none is NULL), and their number.
abbrev pub Handler : Type 0 → Type 0
Handler T = ℤ → Option (List ℕ) → ℕ → M T ℤ

-- pipe_command_t; a null name has no function.
abbrev pub PipeCommand : Type 0 → Type 0
PipeCommand T = Option (List ℕ × Handler T)

abbrev pub control_buffer_size : ℕ
control_buffer_size = 4096

abbrev pub command_size : ℕ
command_size = 16

-- sizeof(commands), with two pointers for an entry
abbrev pub commands_bytes : ℕ
commands_bytes = 256

abbrev pub control_header_cntl : List ℕ
control_header_cntl = codes "cntl"

-- sizeof(((struct sockaddr_un *) 0)->sun_path)
abbrev pub sun_path_size : ℕ
sun_path_size = 108

module _ {T : Type 0} (e : Env T) where
  -- The speakers that are sent: sp->state > SPEAKER_STAT_NONE && sp->state < SPEAKER_STAT_DELETED
  abbrev pub is_listed : Speaker → Bool
  is_listed s = ltb e.stat_none s.state && ltb s.state e.stat_deleted

  -- The array after the loop over the speakers that are left: `idx` of its `count` items are filled.
  -- `none` means that an item past its end was written.
  unfoldable pub fill_list : (ℕ → Speaker) → List ℕ → ℕ → ℕ → List ℕ → Option (List ℕ)
  fill_list mem [] count idx list = some list
  fill_list mem (sp ∷ rest) count idx list =
      let copied = fill_list mem rest count (idx + 1) (
        take (idx * e.speaker_size) list
        ++ (e.speaker_bytes (mem sp) ++ drop (idx * e.speaker_size + e.speaker_size) list)) in
      let skipped = fill_list mem rest count idx list in
      if is_listed (mem sp) then (if ltb idx count then copied else none) else skipped

  abbrev pub send_list : ℤ → Option (List ℕ) → M T ℤ
  send_list fd none = undefined
  send_list fd (some list) = do sys e (Call.send fd list); pure (pos 0)

  unfoldable pub cmd_speakers : Handler T
  unfolding fill_list
  cmd_speakers fd arg len = do
    w ← get
    let count = e.speaker_count w.speakers
    if count == 0
        then pure (pos 0)
        else send_list fd (
            fill_list w.speakers.mem (e.speaker_foreach w.speakers) count 0
              (e.stack w.trace (count * e.speaker_size)))

  -- `rounds` bounds the messages that cmd_wave takes.
  module _ (rounds : ℕ) where
    abbrev pub commands : List (PipeCommand T)
    commands =
        some (codes "speakers", cmd_speakers)
        ∷ some (codes "pushwave", cmd_wave e rounds)
        ∷ replicate (command_size - 2) none

    -- The loop with `left` rounds to go. A null name, or an entry past the array, is read.
    unfoldable pub command_loop :
        ℤ → List ℕ → Option (List ℕ) → ℕ → ℕ → List (PipeCommand T) → M T ℤ
    command_loop connfd cmd arg len zero table = pure (pos 0)
    command_loop connfd cmd arg len (suc left) [] = undefined
    command_loop connfd cmd arg len (suc left) (none ∷ table) = undefined
    command_loop connfd cmd arg len (suc left) (some (name, cb) ∷ table) =
        if eq_ncase 8 cmd name
        then cb connfd arg len
        else command_loop connfd cmd arg len left table

    unfoldable pub call_command : ℤ → List ℕ → ℕ → M T ℤ
    unfolding command_loop eq_bytes
    call_command connfd buf len =
        if not (eq_bytes (take 4 buf) control_header_cntl)
        then pure (pos 1)
        else if ltb len 12
        then pure (pos 1)
        else command_loop connfd (drop 4 buf) (if ltb 12 len then some (drop 12 buf) else none)
            (len - 12) commands_bytes commands

    -- The label exit_thread: the connection is closed and the thread ends.
    abbrev pub exit_thread : ℤ → M T (Option ℤ)
    exit_thread connfd = do sys e (Call.close connfd); pure none

    abbrev pub retry : ℤ → M T (Option ℤ)
    retry connfd = do sys e (Call.sleep 1); pure (some connfd)

    -- The round from `n = (int) recv(…)` on.
    unfoldable pub receive : ℤ → M T (Option ℤ)
    unfolding call_command
    receive connfd = do
      w ← get
      n ← sys e (Call.recv connfd control_buffer_size)
      modify (λ v. record v {
        command = record (v.command) {
          socket_buffer =
              overlay n (e.bytes w.trace (Call.recv connfd control_buffer_size))
                v.command.socket_buffer;
        };
      })
      v ← get
      if e.errno v.trace == e.eintr
          then exit_thread connfd
          else if is_neg n
          then retry connfd
          else if not (is_nonzero n)
          then pure (some connfd)
          else if e.is_exit_thread_cmd v.command.socket_buffer
          then exit_thread connfd
          else do call_command connfd v.command.socket_buffer (to_size n); pure (some connfd)

    -- One round of the thread, with the value of `connfd` before it; `none` is the end of the thread.
    unfoldable pub thread_control_socket : ℤ → M T (Option ℤ)
    unfolding receive
    thread_control_socket connfd = do
      w ← get
      if w.exit_thread_flag then exit_thread connfd else do
        fd ← sys e (Call.accept w.command.listenfd)
        if is_neg fd
            then retry fd
            else do v ← get; if e.errno v.trace == e.eintr then exit_thread fd else receive fd

  -- strcpy into an array of 108 bytes, with its NUL
  abbrev pub copy_path : List ℕ → M T (Unit {0})
  copy_path sock =
      if ltb (length sock) sun_path_size
      then modify (λ w. record w { command = record (w.command) { sock_path = sock } })
      else undefined

  unfoldable pub server_cmdctrl_init : List ℕ → M T ℤ
  unfolding xexit
  server_cmdctrl_init sock = do
    copy_path sock
    sys e Call.init_thread_cmd
    fd ← sys e (Call.socket af_unix sock_stream)
    modify (λ w. record w { command = record (w.command) { listenfd = fd } })
    if is_neg fd then exit 3 else do
      sys e (Call.unlink sock)
      b ← sys e (Call.bind_path fd sock)
      if is_neg b then exit 4 else do
        l ← sys e (Call.listen fd 10)
        if is_neg l then xexit e 1 else do
          t ← sys e (Call.pthread_create Thread.control_socket)
          if is_neg t
              then xexit e e.eerr_thread
              else do sys e (Call.pthread_detach Thread.control_socket); pure (pos 0)
