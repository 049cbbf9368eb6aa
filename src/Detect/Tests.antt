-- ===== src/Detect/Tests.antt =====
-- The detection of speakers on a concrete system.
use castserver.Base.{true}
use castserver.Base.{none, some}
use castserver.Base.{ℕ, ℤ, pos, negsuc, ◌≡◌, refl, List, [], ◌∷◌, codes, inl, arith}
use castserver.Types.{Call, DetectRequest, Speaker, af_inet, sock_dgram_nonblock}
use castserver.Env.{Store}
use castserver.World.{World, done, exited, speaker, write, write_mem}
use castserver.Mutex.{probe}
use castserver.Detect.{DetectConfig, srv_detect_read}
use castserver.Detect.Speaker.{introduced}
use castserver.Detect.Request.{srv_detect_read_ignored, srv_detect_read_known, srv_detect_read_new}
use castserver.Detect.Handshake.{second_server_exits}
use castserver.Detect.Silence.{silent_speaker, rounds}
use castserver.Sample.{system, server, address, from, online_speaker, taken_offline}

-- The request of the speaker `id` at the address `host`, with the masks of its formats.
abbrev header_of : ℕ → ℕ → ℕ → DetectRequest
header_of id host masks = record {
  id = id;
  addr = address host;
  bits_mask = masks;
  rate_mask = masks;
  rest = 4100 ∷ [];
}

abbrev packet_of : ℕ → ℕ → ℕ → List ℕ
packet_of id host masks = id ∷ host ∷ masks ∷ masks ∷ 4100 ∷ []

-- The answer to the speaker at `host`.
abbrev answer_to : ℕ → Call
answer_to host =
    Call.sendto (pos 30) (1 ∷ 0 ∷ 50 ∷ [])
      (record { ss_family = af_inet; host = host; port = 4414 })

abbrev with_speakers : Store (List ℕ) → List Call → World (List ℕ)
with_speakers st calls = record server { speakers = st; trace = calls }

-- The speaker 5 as its request leaves it.
abbrev five_flagged : ℕ → Store (List ℕ)
five_flagged flag = write_mem server.speakers 5 (record (online_speaker 5 1) { supported = flag })

-- The table with the new speaker 8.
abbrev eight : ℕ → Speaker
eight flag = record (online_speaker 8 1) { supported = flag; ip = address 108; dport = 4100 }

-- The state after the new speaker 8 was added, with the masks of its request.
abbrev eight_added : ℕ → World (List ℕ)
eight_added masks = introduced system (header_of 8 108 masks) server

-- A request that claims the address of another host.
srv_detect_read_ignored_example :
    srv_detect_read system (from 66) (packet_of 5 105 12) 5 server ≡ done (negsuc 0) server
srv_detect_read_ignored_example =
    srv_detect_read_ignored system (from 66) (packet_of 5 105 12) 5 server refl refl

srv_detect_read_known_example :
    srv_detect_read system (from 105) (packet_of 5 105 12) 5 server
    ≡ done (pos 0) (with_speakers (five_flagged 1) (answer_to 105 ∷ []))
srv_detect_read_known_example =
    srv_detect_read_known system (from 105) (packet_of 5 105 12) 5 5 server refl refl (omega arith)

srv_detect_read_new_example :
    srv_detect_read system (from 108) (packet_of 8 108 12) 5 server
    ≡ done (pos 0) (record (eight_added 12) {
      speakers =
          write_mem
            (eight_added 12).speakers
            8
            (record (eight 1) { fd = pos 7; conn_time = 2000005 });
      control = record (server.control) { buffer = 1 ∷ 2 ∷ 3 ∷ 1 ∷ 0 ∷ 0 ∷ [] };
      trace =
          answer_to 108
          ∷ Call.sendto
              (pos 31)
              (1 ∷ 2 ∷ 3 ∷ 1 ∷ 0 ∷ 0 ∷ [])
              (record { ss_family = af_inet; host = 108; port = 4100 })
          ∷ Call.gettimeofday
          ∷ Call.connect (pos 7) (record { ss_family = af_inet; host = 108; port = 4100 })
          ∷ Call.socket af_inet sock_dgram_nonblock
          ∷ [];
    })
unfolding write
srv_detect_read_new_example =
    srv_detect_read_new system (from 108) (packet_of 8 108 12) 5 server refl refl (omega arith) refl
      refl refl refl

second_server_exits_example :
    probe system (pos 7) server
    ≡ exited 1 (
        with_speakers server.speakers (
          Call.close (pos 7)
          ∷ Call.recvfrom (pos 7) 19
          ∷ Call.sendto
              (pos 7)
              (codes "castspeaker server")
              (record { ss_family = af_inet; host = 12; port = 4414 })
          ∷ []))
unfolding srv_detect_read castserver.Base.eq_bytes
second_server_exits_example =
    second_server_exits system (from 66) server server (pos 7) (pos 30) 18
      (codes "hey, kill yourself") refl refl refl refl

silent_speaker_example :
    (speaker (rounds system 1 server) 5 ≡ record (online_speaker 5 1) { timeout = pos 0 })
    × (speaker (rounds system 2 server) 5
        ≡ record (online_speaker 5 1) { timeout = negsuc 0; state = 2 })
silent_speaker_example =
    silent_speaker system taken_offline (λ st sp. refl) (5 ∷ 6 ∷ []) 5 1 server (λ m. refl)
      (record { running = refl; each = λ mem. refl }) (omega arith, (omega arith, tt))
      ((omega arith, tt), (tt, tt)) (inl refl) refl

abbrev config : DetectConfig
config = record {
  multicast_group = some (address 77);
  interface = none;
  multicast_port = 5000;
  data_port = 0;
  added_cb = none;
}
