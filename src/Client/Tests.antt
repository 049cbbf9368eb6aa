-- ===== src/Client/Tests.antt =====
-- The client on a concrete system, and a file that it sends to the server.
use castserver.Base.{codes, length-replicate}
use castserver.Base.{
  codes, ℕ, pos, ◌≡◌, refl, false, List, [], ◌∷◌, ◌++◌, length, take, drop, replicate, All, arith,
}
use mathlib.Core.List.{flatten}
use castserver.Env.{Env}
use castserver.Process.{exited}
use castserver.World.{◌>>◌}
use castserver.Control.{server_spctrl_set_format}
use castserver.Client.{Client, pipe_request, pipe_init}
use castserver.Client.Pipe.{first_part}
use castserver.Client.Sends.{messages, pipe_init_lem}
use castserver.Command.{call_command}
use castserver.Wave.{playing}
use castserver.Wave.Streams.{peer_of, delivers}
use castserver.Wave.Play.{play_file}
use castserver.System.Playback.{file_played}
use castserver.Sample.{system, server}

-- A header for chunks of four bytes and two channels, and three bytes behind the first message.
abbrev file : List ℕ
file = 82 ∷ 4 ∷ 2 ∷ (replicate 4081 5 ++ (7 ∷ 8 ∷ 9 ∷ []))

abbrev client : Client
client = record { trace = []; sockfd = pos 8; exit_thread_flag = false }

abbrev heap : List ℕ
heap = replicate 4 171

abbrev part : List ℕ
part = first_part system file client

-- The last three bytes of the file, and a stale one.
abbrev last_block : List ℕ
last_block = 7 ∷ 8 ∷ 9 ∷ 171 ∷ []

pipe_init_lem_example :
    ((v : Client) × ((pipe_init system (false, file) client ≡ exited 0 v)
        × (messages v.trace ≡ pipe_request part ∷ last_block ∷ [])))
    × (take (length file) (part ++ last_block) ≡ file)
    × All (λ b. length b ≡ 4) (last_block ∷ [])
unfolding flatten
pipe_init_lem_example =
    pipe_init_lem system false file client (λ h fd m. refl) (λ h n. length-replicate n 171)
      (omega arith) (omega arith)

-- The bytes of that block as the server receives them: what fits behind the byte that is left of the
-- first message, and the rest.
abbrev pieces : List (List ℕ)
pieces = (7 ∷ 8 ∷ []) ∷ (9 ∷ 171 ∷ []) ∷ []

-- The server's system, where the client sends the pieces.
abbrev streaming : Env (List ℕ)
streaming = peer_of system pieces

file_played_example :
    (call_command streaming 9 (pos 40) (pipe_request part) 4096 server
      ≡ (server_spctrl_set_format streaming (1 ∷ 2 ∷ []) 48000 8
            >> play_file streaming
                (pos 40)
                pieces
                (delivers system pieces)
                (playing streaming part 4084)
                4081
                (drop 3 part)
                pieces)
          server)
    × (take (length file) (part ++ flatten pieces) ≡ file)
unfolding flatten
file_played_example =
    file_played streaming (pos 40) pieces (delivers system pieces) 9 file
      (drop 12 (replicate 4096 171)) heap server refl refl (omega arith) (omega arith) (omega arith)
      (omega arith) refl (omega arith, omega arith, (omega arith, omega arith, tt)) (omega arith)
