-- ===== src/Wave/Tests.antt =====
-- A short file that is played on a concrete system.
use castserver.Wave.Sound.{cmd_wave-calls}
use mathlib.Core.List.{flatten}
use castserver.Sample.{pcm_header}
use castserver.Pusher.Frames.{interleave, channel_bytes}
use castserver.Base.{ℕ, ℤ, pos, negsuc, ◌≡◌, refl, List, [], ◌∷◌, some, arith}
use castserver.Types.{Call, recv}
use castserver.Env.{Env}
use castserver.World.{◌>>◌, done, state_of}
use castserver.Control.{server_spctrl_set_format}
use castserver.Wave.{cmd_wave, play, chunk_loop, receive_loop}
use castserver.Pusher.{server_sppush_push, channels_loop, copy_loop, server_sppush_push_channel}
use castserver.Wave.Play.{play_file, cmd_wave_lem}
use castserver.Sample.{system, result}
use castserver.Wave.Streams.{
  system-ReadsBytes, delivers, messages, streaming, file, player, datagram, frame, send_to, play_on,
}

cmd_wave_lem_example :
    cmd_wave streaming 9 (pos 40) (some file) 9 player
    ≡ (server_spctrl_set_format streaming (1 ∷ 2 ∷ []) 48000 8
          >> play_file streaming
              (pos 40)
              messages
              (delivers system messages)
              (record { chunk = 4; per_sample_chunk_bytes = 2; chlist = 1 ∷ 2 ∷ []; bytes = 1 })
              6
              (1 ∷ 2 ∷ 3 ∷ 4 ∷ 5 ∷ 6 ∷ [])
              messages)
        player
cmd_wave_lem_example =
    cmd_wave_lem streaming (pos 40) messages (delivers system messages) 9 9 file player
      (omega arith) (omega arith) (omega arith) (omega arith) (omega arith) (omega arith)
      (omega arith, omega arith, (omega arith, omega arith, tt)) (omega arith)

-- The system, where `recv` fails.
abbrev broken_answer : List Call → Call → ℤ
broken_answer history (recv fd size) = negsuc 0
broken_answer history call = result call

abbrev broken : Env (List ℕ)
broken = record system { ret = broken_answer }

-- The whole file goes to speaker 5, which plays channel 1, and to speaker 6, which plays channel 2; the
-- third and the fourth byte of a chunk go to nobody.
abbrev datagrams : List Call → List (List ℕ)
datagrams [] = []
datagrams (Call.sendto fd packet to ∷ trace) = packet ∷ datagrams trace
datagrams (_ ∷ trace) = datagrams trace

played :
    datagrams (state_of (cmd_wave streaming 9 (pos 40) (some file) 9 player)).trace
    ≡ datagram 6
      ∷ datagram 9
      ∷ datagram 6
      ∷ datagram 5
      ∷ datagram 2
      ∷ datagram 1
      ∷ (1 ∷ 8 ∷ 48000 ∷ 2 ∷ 0 ∷ 0 ∷ [])
      ∷ (1 ∷ 8 ∷ 48000 ∷ 1 ∷ 0 ∷ 0 ∷ [])
      ∷ []
unfolding cmd_wave server_spctrl_set_format play chunk_loop server_sppush_push channels_loop
    copy_loop server_sppush_push_channel receive_loop
played = refl

abbrev answered : Call
answered = Call.send (pos 40) (0 ∷ 0 ∷ 0 ∷ 0 ∷ [])

-- All calls of that run, newest first.
abbrev calls : List Call
calls =
    Call.recv (pos 40) 4
    ∷ answered
    ∷ play_on 6 6
    ∷ play_on 5 9
    ∷ Call.recv (pos 40) 4
    ∷ answered
    ∷ play_on 6 6
    ∷ play_on 5 5
    ∷ Call.recv (pos 40) 2
    ∷ play_on 6 2
    ∷ play_on 5 1
    ∷ send_to (pos 31) 6 (1 ∷ 8 ∷ 48000 ∷ 2 ∷ 0 ∷ 0 ∷ [])
    ∷ send_to (pos 31) 5 (1 ∷ 8 ∷ 48000 ∷ 1 ∷ 0 ∷ 0 ∷ [])
    ∷ []

cmd_wave-calls_example :
    let v = state_of (cmd_wave streaming 9 (pos 40) (some file) 9 player) in
    (cmd_wave streaming 9 (pos 40) (some file) 9 player ≡ done (pos 0) v)
    × (v.speakers ≡ player.speakers)
    × (v.trace ≡ calls)
unfolding interleave channel_bytes flatten
cmd_wave-calls_example =
    cmd_wave-calls streaming pcm_header (λ buf head room. (refl, refl))
      (λ buf src dst bits room enough. refl) system-ReadsBytes (λ b c hd. refl) (pos 40) messages
      (delivers system messages) 9 9 file (frame 1 2 ∷ []) (frame 5 6 ∷ frame 9 6 ∷ []) player
      (omega arith) (omega arith) (omega arith) (omega arith) (omega arith) (omega arith)
      (omega arith, omega arith, (omega arith, omega arith, tt)) (omega arith)
      (record {
        some_channel = omega arith;
        some_byte = omega arith;
        small = omega arith;
        fits = omega arith;
        mtu = omega arith;
      })
      (omega arith, (omega arith, tt)) (((omega arith, refl), tt), (((omega arith, refl), tt), tt))
      (omega arith) (((refl, (refl, (refl, tt))), tt), omega arith, refl, tt)
      (
        ((refl, (refl, (refl, tt))), tt),
        omega arith,
        refl,
        (((refl, (refl, (refl, tt))), tt), omega arith, refl, tt),
      )
