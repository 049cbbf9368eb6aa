-- ===== src/Wave/HeardTests.antt =====
-- What the speakers hear of short files on a concrete system.
use mathlib.Core.List.{flatten}
use castserver.Base.{replicate}
use castserver.Client.{fread, pipe_request}
use castserver.Command.{call_command}
use castserver.System.Broadcast.{file_heard}
use castserver.Wave.Heard.{cmd_wave-chunks}
use castserver.Wave.Sendto.{is_sendto}
use castserver.Base.{keep, length-replicate}
use castserver.Sample.{pcm_header}
use castserver.Pusher.Frames.{interleave, channel_bytes}
use castserver.Base.{take, ◌++◌}
use castserver.Base.{ℕ, pos, ◌≡◌, refl, List, [], ◌∷◌, length, some, arith}
use castserver.Env.{Env}
use castserver.World.{done, state_of}
use castserver.Wave.{cmd_wave}
use castserver.Sample.{system}
use castserver.Wave.Streams.{
  system-ReadsBytes, peer_of, delivers, file, player, frame, send_to, play_on,
}

-- The second message fills a chunk, so that the file is the chunks 1 2 3 4, 5 6 7 8 and 9 1 2 3; the
-- second one is begun in the command.
abbrev filling : List (List ℕ)
filling = (7 ∷ 8 ∷ []) ∷ (9 ∷ 1 ∷ 2 ∷ 3 ∷ []) ∷ []

cmd_wave-chunks_example :
    let w = player in
    let v = state_of (cmd_wave (peer_of system filling) 9 (pos 40) (some file) 9 w) in
    (cmd_wave (peer_of system filling) 9 (pos 40) (some file) 9 w ≡ done (pos 0) v)
    × (v.speakers ≡ w.speakers)
    × (keep is_sendto v.trace
        ≡ play_on 6 1
          ∷ play_on 5 9
          ∷ play_on 6 6
          ∷ play_on 5 5
          ∷ play_on 6 2
          ∷ play_on 5 1
          ∷ send_to (pos 31) 6 (1 ∷ 8 ∷ 48000 ∷ 2 ∷ 0 ∷ 0 ∷ [])
          ∷ send_to (pos 31) 5 (1 ∷ 8 ∷ 48000 ∷ 1 ∷ 0 ∷ 0 ∷ [])
          ∷ [])
unfolding interleave channel_bytes flatten
cmd_wave-chunks_example =
    cmd_wave-chunks (peer_of system filling) pcm_header (λ buf head room. (refl, refl))
      (λ buf src dst bits room enough. refl) system-ReadsBytes (λ b c hd. refl)
      (λ h n. length-replicate n 171) (pos 40) filling (delivers system filling) 9 9 file
      ((1 ∷ 2 ∷ 3 ∷ 4 ∷ []) ∷ (5 ∷ 6 ∷ 7 ∷ 8 ∷ []) ∷ (9 ∷ 1 ∷ 2 ∷ 3 ∷ []) ∷ [])
      (frame 1 2 ∷ frame 5 6 ∷ frame 9 1 ∷ []) player (omega arith) (omega arith) (omega arith)
      (omega arith) (omega arith) (omega arith) (omega arith, (omega arith, tt)) (omega arith)
      (record {
        some_channel = omega arith;
        some_byte = omega arith;
        small = omega arith;
        fits = omega arith;
        mtu = omega arith;
      })
      (omega arith, (omega arith, tt)) (((omega arith, refl), tt), (((omega arith, refl), tt), tt))
      (omega arith) refl (omega arith, (omega arith, (omega arith, tt)))
      (
        ((refl, (refl, (refl, tt))), tt),
        omega arith,
        refl,
        (
          ((refl, (refl, (refl, tt))), tt),
          omega arith,
          refl,
          (((refl, (refl, (refl, tt))), tt), omega arith, refl, tt),
        ),
      )

-- The client's file: the header takes all of the first message but for a chunk, and the last chunk of
-- the file is half.
abbrev long_header : Env (List ℕ)
long_header = record system { header_check = λ bytes size. 4080 }

abbrev client_file : List ℕ
client_file = 82 ∷ 4 ∷ 2 ∷ (replicate 4077 0 ++ (1 ∷ 2 ∷ 3 ∷ 4 ∷ 5 ∷ 6 ∷ []))

abbrev last_block : List (List ℕ)
last_block = (5 ∷ 6 ∷ 171 ∷ 171 ∷ []) ∷ []

abbrev part : List ℕ
part = fread 4084 client_file (replicate 4084 171)

file_heard_example :
    let m = call_command (peer_of long_header last_block) 9 (pos 40) (pipe_request part) 4096 in
    let v = state_of (m player) in
    (m player ≡ done (pos 0) v)
    × (v.speakers ≡ player.speakers)
    × (keep is_sendto v.trace
        ≡ play_on 6 6
          ∷ play_on 5 5
          ∷ play_on 6 2
          ∷ play_on 5 1
          ∷ send_to (pos 31) 6 (1 ∷ 8 ∷ 48000 ∷ 2 ∷ 0 ∷ 0 ∷ [])
          ∷ send_to (pos 31) 5 (1 ∷ 8 ∷ 48000 ∷ 1 ∷ 0 ∷ 0 ∷ [])
          ∷ [])
    × (take (length client_file) (take 4080 part ++ flatten ((1 ∷ 2 ∷ 3 ∷ 4 ∷ []) ∷ last_block))
        ≡ client_file)
unfolding interleave channel_bytes flatten
file_heard_example =
    file_heard (peer_of long_header last_block) pcm_header (λ buf head room. (refl, refl))
      (λ buf src dst bits room enough. refl) system-ReadsBytes (λ b c hd. refl)
      (λ h n. length-replicate n 171) (pos 40) last_block (delivers long_header last_block) 9
      client_file (replicate 4084 171) (replicate 4 171) ((1 ∷ 2 ∷ 3 ∷ 4 ∷ []) ∷ last_block)
      (frame 1 2 ∷ frame 5 6 ∷ []) player refl refl (omega arith) (omega arith) (omega arith)
      (omega arith) (omega arith) refl (omega arith)
      (record {
        some_channel = omega arith;
        some_byte = omega arith;
        small = omega arith;
        fits = omega arith;
        mtu = omega arith;
      })
      (omega arith, (omega arith, tt)) (((omega arith, refl), tt), (((omega arith, refl), tt), tt))
      (omega arith) refl (omega arith, (omega arith, tt))
      (
        ((refl, (refl, (refl, tt))), tt),
        omega arith,
        refl,
        (((refl, (refl, (refl, tt))), tt), omega arith, refl, tt),
      )
