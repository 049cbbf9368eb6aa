-- ===== src/Command/Dispatch.antt =====
-- How a message reaches its command (call_command), and the messages of the client.
use castserver.Base.{
  ℕ, ℤ, pos, ◌-◌, ◌≡◌, refl, Bool, not, ◌||◌, List, ◌++◌, length, take, drop, codes, eq_bytes,
  eq_ncase, Option, none, some, arith, ltb, if◌then◌else◌,
}
use castserver.Env.{Env}
use castserver.World.{World, done, fault}
use castserver.Client.{list_speakers_request, pipe_request}
use castserver.Wave.{cmd_wave}
use castserver.Command.{control_header_cntl, cmd_speakers, command_loop, call_command}

-- The message starts with the header and is long enough for a name.
abbrev pub is_command : List ℕ → ℕ → Bool
is_command buf len = not (not (eq_bytes (take 4 buf) control_header_cntl) || ltb len 12)

abbrev pub argument : List ℕ → ℕ → Option (List ℕ)
argument buf len = if ltb 12 len then some (drop 12 buf) else none

module _ {T : Type 0} (e : Env T) (rounds : ℕ) where
  -- A message without the header, or shorter than 12 bytes, gives 1 and does nothing. Otherwise its
  -- eight bytes of name choose the command, in any case of its letters; the command gets the bytes
  -- behind the name, or NULL where there are none, and their number. Any other name makes the loop
  -- read the null name of an empty entry, which is undefined.
  pub call_command_lem :
      (connfd : ℤ) (buf : List ℕ) (len : ℕ) (w : World T)
      → call_command e rounds connfd buf len w ≡ (
          if is_command buf len
          then (if eq_ncase 8 (drop 4 buf) (codes "speakers")
              then cmd_speakers e connfd (argument buf len) (len - 12) w
              else if eq_ncase 8 (drop 4 buf) (codes "pushwave")
              then cmd_wave e rounds connfd (argument buf len) (len - 12) w
              else fault w)
          else done (pos 1) w)
  unfolding call_command command_loop
  call_command_lem connfd buf len w = ground arith

  -- What the client's list_speakers sends is received as the command `speakers` without an argument,
  -- and what its pipe_init sends as `pushwave` with the 4084 bytes of the file as its argument,
  -- whatever else the buffer of the server holds behind it.
  pub client_requests :
      (connfd : ℤ) (file rest : List ℕ) (w : World T)
      → (call_command e rounds connfd
            (list_speakers_request ++ rest)
            (length list_speakers_request)
            w
          ≡ cmd_speakers e connfd none 0 w)
        × (call_command e rounds connfd (pipe_request file ++ rest) 4096 w
            ≡ cmd_wave e rounds connfd (some (file ++ rest)) 4084 w)
  unfolding call_command command_loop eq_bytes eq_ncase
  client_requests connfd file rest w = (refl, refl)
