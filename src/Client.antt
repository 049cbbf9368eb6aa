-- ===== src/Client.antt =====
-- client/: the program that plays a file over the command socket of the server. client.c is its start
-- and its end, pipe.c sends the file, list_speakers.c asks for the speakers.
pub mod Blocks
pub mod Pipe
pub mod Sends
pub mod Ends
mod Tests
use castserver.Base.{overlay, ◌&&◌, is_nonzero}
use castserver.Process.{done}
use castserver.Base.{
  ℕ, zero, suc, ℤ, pos, negsuc, is_neg, is_nonpos, eq_int, Bool, true, false, ◌+◌, ◌-◌, ◌*◌, ◌%◌,
  ◌^◌, not, ◌||◌, List, [], ◌∷◌, ◌++◌, length, take, drop, get_or, codes, Option, none, some, ltb,
  ◌==◌, if◌then◌else◌,
}
use castserver.Types.{Call, sock_stream, af_unix}
use castserver.Env.{Env}
use castserver.Process.{Proc, ◌>>=◌, ◌>>◌, pure, get, modify, exit, undefined, out_of_rounds, when}

-- The variables of the process, and the calls made so far, newest first.
pub record Client : Type 0 where
  pub trace : List Call
  pub sockfd : ℤ
  pub exit_thread_flag : Bool

-- list_speakers.c: the literal "cntl" "speakers", sent without its NUL
abbrev pub list_speakers_request : List ℕ
list_speakers_request = codes "cntl" ++ codes "speakers"

-- pipe.c: the first message of pipe_init. `file` is what the 4084 bytes behind the name hold after
-- `fread`: the start of the file, and where the file is shorter, what xmalloc left there.
abbrev pub pipe_request : List ℕ → List ℕ
pipe_request file = codes "cntl" ++ (codes "pushwave" ++ file)

-- What `fread` of `n` bytes leaves in a buffer.
abbrev pub fread : ℕ → List ℕ → List ℕ → List ℕ
fread n file buffer = take n file ++ drop (length (take n file)) buffer

-- An `int32_t` of four bytes, the lowest first, as an unsigned number.
abbrev pub word : List ℕ → ℕ
word b = get_or b 0 0 + get_or b 1 0 * 2 ^ 8 + get_or b 2 0 * 2 ^ 16 + get_or b 3 0 * 2 ^ 24

-- The options that getopt gives, by the letters of "f:s:l:Lh"; `any_other` is 's', 'h' and an error.
pub data ClientOpt : Type 0 where
  speaker_list any_other : ClientOpt
  audio_file : List ℕ → ClientOpt
  log_level : List ℕ → ClientOpt

-- The stream `read_file`: whether it is stdin, and its bytes.
abbrev pub File : Type 0
File = Bool × List ℕ

module _ {T : Type 0} (e : Env T) where
  abbrev pub client_call : Call → Proc Client ℤ
  client_call c w = done (e.ret w.trace c) (record w { trace = c ∷ w.trace })

  unfoldable pub client_deinit : Proc Client (Unit {0})
  client_deinit = do
    modify (λ w. record w { exit_thread_flag = true })
    w ← get
    client_call (Call.close w.sockfd)
    pure tt

  unfoldable pub cexit : {A : Type 0} → ℕ → Proc Client A
  cexit status = do client_deinit; exit status

  unfoldable pub signal_handle : ℕ → Proc Client (Unit {0})
  signal_handle signum = do client_deinit; exit 0

  -- The path is copied into an array of 108 bytes.
  unfoldable pub connect_socket : List ℕ → Proc Client (Unit {0})
  connect_socket path = do
    fd ← client_call (Call.socket af_unix sock_stream)
    modify (λ w. record w { sockfd = fd })
    if eq_int fd (negsuc 0)
        then exit e.eerr_socket
        else if not (ltb (length path) 108)
        then undefined
        else do
          r ← client_call (Call.connect_path fd path)
          if eq_int r (negsuc 0) then exit e.eerr_socket else pure tt

  -- Its result is not set.
  unfoldable pub list_speakers : Proc Client (Unit {0})
  list_speakers = do
    w ← get
    client_call (Call.send w.sockfd list_speakers_request)
    len ← client_call (Call.recv w.sockfd 1024)
    if is_neg len then cexit 1 else pure tt

  -- The answer to a block, and the pause that it asks for; the bytes of `sleep_time` are kept.
  abbrev pub wait_for : ℕ → List ℕ → Proc Client (List ℕ)
  wait_for time sleep_time = do
    w ← get
    n ← client_call (Call.recv w.sockfd 4)
    if is_nonpos n then pure sleep_time else do
      let filled = overlay n (e.bytes w.trace (Call.recv w.sockfd 4)) sleep_time
      client_call (Call.usleep ((time + word filled) % 2 ^ 32))
      pure filled

  -- The loop over the rest of the file, on fuel. It gives false where it jumps to exit_thread.
  unfoldable pub send_loop : ℕ → ℕ → ℕ → List ℕ → List ℕ → List ℕ → Proc Client (Bool × List ℕ)
  send_loop chunk time zero file send_buf sleep_time = out_of_rounds
  send_loop chunk time (suc fuel) file send_buf sleep_time =
      let filled = fread chunk file send_buf in
      let rest = send_loop chunk time fuel (drop chunk file) filled in
      if length (take chunk file) == 0 then pure (true, sleep_time) else do
        w ← get
        r ← client_call (Call.send w.sockfd filled)
        v ← get
        if eq_int r (negsuc 0) && e.errno v.trace == e.epipe
            then pure (false, sleep_time)
            else do slept ← wait_for time sleep_time; rest slept

  -- From the label exit_thread on.
  abbrev pub exit_thread : Bool → Proc Client (Unit {0})
  exit_thread is_stdin = do
    w ← get
    client_call (Call.close w.sockfd)
    when (not is_stdin) (do client_call Call.fclose; pure tt)
    exit 0

  unfoldable pub pipe_init : File → Proc Client (Unit {0})
  pipe_init (is_stdin, file) = do
    w ← get
    let body = fread 4084 file (drop 12 (e.heap w.trace 4096))
    if e.header_check body 4084 == 0 then exit 1 else do
      let chunk = e.get_chunksize body 4084 e.chunk_quality
      client_call (Call.send w.sockfd (pipe_request body))
      v ← get
      end ←
          send_loop chunk.chunk chunk.time (suc (length file)) (drop 4084 file)
            (e.heap v.trace chunk.chunk) (e.stack v.trace 4)
      when end.0 (do wait_for chunk.time end.1; pure tt)
      exit_thread is_stdin

  unfoldable pub client_options : List ℕ → List ClientOpt → Option File → Proc Client (Option File)
  client_options stdin [] read_file = pure read_file
  client_options stdin (ClientOpt.speaker_list ∷ rest) read_file = undefined
  client_options stdin (ClientOpt.any_other ∷ rest) read_file = exit 1
  client_options stdin (ClientOpt.audio_file path ∷ rest) read_file =
      if get_or path 0 0 == 45 then client_options stdin rest (some (true, stdin)) else do
        w ← get
        f ← client_call (Call.fopen path)
        if not (is_nonzero f)
            then exit 1
            else client_options stdin rest (some (false, e.bytes w.trace (Call.fopen path)))
  client_options stdin (ClientOpt.log_level level ∷ rest) read_file =
      if is_neg (e.log_set_level_from_string level)
      then exit 1
      else client_options stdin rest read_file

  abbrev pub client_sock_path : List ℕ
  client_sock_path = codes "/tmp/castspeaker.sock"

  abbrev pub play_or_leave : Option File → Proc Client (Unit {0})
  play_or_leave none = exit 0
  play_or_leave (some file) = pipe_init file >> exit 0

  unfoldable pub client_main : List ℕ → List ClientOpt → Bool → Proc Client (Unit {0})
  client_main stdin options operands = do
    read_file ← client_options stdin options none
    if operands then exit 1 else do
      client_call Call.setpriority
      connect_socket client_sock_path
      play_or_leave read_file
