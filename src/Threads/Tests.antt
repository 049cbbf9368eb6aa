-- ===== src/Threads/Tests.antt =====
-- Threads that send commands on a concrete system.
use castserver.World.{World, speaker}
use castserver.Base.{true}
use castserver.Types.{af_inet}
use castserver.Detect.{srv_detect_read}
use castserver.Threads.Monitor.{test_timeout, retire, request_in_between}
use castserver.Sample.{reviving, alone, from, taken_offline}
use castserver.Base.{ℕ, pos, ◌≡◌, refl, List, [], ◌∷◌, arith}
use castserver.Types.{Call, ControlPackage, control_package_zero}
use castserver.World.{done, state_of}
use castserver.Threads.{Action, encode, transmit, command, run}
use castserver.Threads.Shuffle.{Interleaved}
use castserver.Threads.Race.{arrives}
use castserver.Threads.Outcomes.{command_overwritten}
use castserver.Sample.{system, server}

-- The event loop answers the speaker 5 with the time; the command thread tells 6 and 5 a format.
abbrev time : ControlPackage
time = record control_package_zero { cmd = 2; server = 70; offset = 7 }

abbrev format : ControlPackage
format = record control_package_zero { cmd = 1; bits = 2; rate = 3; channel = 2 }

abbrev second : ControlPackage
second = record format { channel = 1 }

abbrev arrived : ℕ → ControlPackage → Call
arrived sp hd = arrives system (pos 31) server.speakers.mem (sp, hd)

-- The format is encoded while the answer waits in the buffer.
abbrev actions : List Action
actions = encode time ∷ encode format ∷ transmit 5 ∷ transmit 6 ∷ encode second ∷ transmit 5 ∷ []

command_overwritten_example :
    (interleaving : List Action) × Interleaved (command 5 time) (command 6 format) interleaving
    × (run system interleaving server ≡ done tt (state_of (run system interleaving server)))
    × ((state_of (run system interleaving server)).trace ≡ arrived 6 format ∷ arrived 5 format ∷ [])
command_overwritten_example =
    command_overwritten system (λ b c hd. refl) 5 6 time format server (omega arith) (omega arith)
      refl refl

-- The monitor tests the speaker 5, whose request is handled before it is taken offline.
abbrev request : List ℕ
request = 5 ∷ 105 ∷ 12 ∷ 12 ∷ 4100 ∷ []

abbrev tested : World (List ℕ)
tested = state_of (test_timeout reviving 5 alone)

abbrev asked : World (List ℕ)
asked = state_of (srv_detect_read reviving (from 105) request 5 tested)

abbrev retired : World (List ℕ)
retired = state_of (retire reviving 5 asked)

request_in_between_example :
    (test_timeout reviving 5 alone ≡ done true tested)
    × (asked.trace
        ≡ Call.sendto
            (pos 30)
            (1 ∷ 0 ∷ 50 ∷ [])
            (record { ss_family = af_inet; host = 105; port = 4414 })
          ∷ [])
    × (retire reviving 5 asked ≡ done tt retired)
    × (speaker retired 5 ≡ taken_offline (speaker asked 5))
    × (retired.trace ≡ Call.close (pos 25) ∷ Call.shutdown (pos 25) ∷ asked.trace)
unfolding srv_detect_read castserver.Base.eq_bytes test_timeout castserver.World.write
request_in_between_example =
    request_in_between reviving taken_offline (λ st sp. refl) 5 25 5 (from 105) request alone
      (omega arith) (λ s. refl) refl refl refl refl (ground arith)
