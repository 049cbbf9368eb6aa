-- ===== src/Pusher/Tests.antt =====
-- The audio channel on a concrete system.
use castserver.Pusher.Deinterleave.{copy_loop_endless}
use castserver.Base.{ℕ, pos, ◌≡◌, refl, List, [], ◌∷◌, replicate, none, some, arith}
use castserver.Types.{Call, af_inet}
use castserver.World.{done, state_of}
use castserver.Pusher.{server_sppush_push_channel, copy_loop, server_sppush_push}
use castserver.Pusher.Sequence.{IsSeq, IsSeq-push_channel}
use castserver.Pusher.Frames.{interleave, channel_bytes}
use castserver.Pusher.Deinterleave.{copy_loop_lem}
use castserver.Pusher.Push.{server_sppush_push_lem}
use castserver.Sample.{system, server, running, pcm_header}

-- A datagram of audio to the speaker 5, and to the speaker 6.
abbrev audio_to_5 : List ℕ → Call
audio_to_5 bytes =
    Call.sendto (pos 25) bytes (record { ss_family = af_inet; host = 105; port = 4005 })

abbrev audio_to_6 : List ℕ → Call
audio_to_6 bytes =
    Call.sendto (pos 26) bytes (record { ss_family = af_inet; host = 106; port = 4006 })

IsSeq-push_channel_example :
    let v = state_of (server_sppush_push_channel system 0 1 0 server) in
    IsSeq v.pusher.package_seq × (v.pusher.package_seq ≡ 1)
IsSeq-push_channel_example = IsSeq-push_channel system 0 1 0 server (omega arith)

-- Two frames of two channels, two bytes for each sample.
abbrev frames : List (List (List ℕ))
frames = ((11 ∷ 12 ∷ []) ∷ (21 ∷ 22 ∷ []) ∷ []) ∷ ((13 ∷ 14 ∷ []) ∷ (23 ∷ 24 ∷ []) ∷ []) ∷ []

copy_loop_lem_example :
    copy_loop system
      (11 ∷ 12 ∷ 21 ∷ 22 ∷ 13 ∷ 14 ∷ 23 ∷ 24 ∷ [])
      8
      2
      4
      9
      2
      1
      (7 ∷ 0 ∷ 0 ∷ 0 ∷ 0 ∷ 8 ∷ [])
    ≡ some (7 ∷ 21 ∷ 22 ∷ 23 ∷ 24 ∷ 8 ∷ [])
unfolding interleave channel_bytes mathlib.Core.List.flatten
copy_loop_lem_example =
    copy_loop_lem system (λ buf src dst bits room enough. refl) 2 2 1 1 frames
      (7 ∷ 0 ∷ 0 ∷ 0 ∷ 0 ∷ 8 ∷ []) ((refl, (refl, (refl, tt))), ((refl, (refl, (refl, tt))), tt))
      (omega arith) (omega arith) (omega arith)

copy_loop_endless_example : copy_loop system (11 ∷ 12 ∷ []) 2 0 0 1000 0 1 (7 ∷ 8 ∷ []) ≡ none
copy_loop_endless_example =
    copy_loop_endless system 1000 2 2 0 1 (11 ∷ 12 ∷ []) (7 ∷ 8 ∷ []) (omega arith)

-- The static buffer, 1500 bytes long, with old bytes at its start.
abbrev buffer : List ℕ
buffer = 80 ∷ 0 ∷ replicate 1498 3

server_sppush_push_lem_example :
    let w = running buffer in
    let v = state_of (server_sppush_push system 0 (interleave frames) 8 (1 ∷ 2 ∷ []) 2 w) in
    (server_sppush_push system 0 (interleave frames) 8 (1 ∷ 2 ∷ []) 2 w ≡ done (pos 0) v)
    × (v.speakers ≡ w.speakers)
    × (v.trace
        ≡ audio_to_6 (80 ∷ 9 ∷ 21 ∷ 22 ∷ 23 ∷ 24 ∷ 3 ∷ 3 ∷ 3 ∷ 3 ∷ [])
          ∷ audio_to_5 (80 ∷ 9 ∷ 11 ∷ 12 ∷ 13 ∷ 14 ∷ 3 ∷ 3 ∷ 3 ∷ 3 ∷ [])
          ∷ [])
unfolding interleave channel_bytes mathlib.Core.List.flatten
server_sppush_push_lem_example =
    server_sppush_push_lem system pcm_header (λ buf head room. (refl, refl))
      (λ buf src dst bits room enough. refl) 2 2 0 frames
      ((refl, (refl, (refl, tt))), ((refl, (refl, (refl, tt))), tt)) (omega arith) (1 ∷ 2 ∷ [])
      (running buffer) refl (omega arith) (omega arith) (omega arith) refl
      (((omega arith, refl), tt), (((omega arith, refl), tt), tt))
