-- ===== src/System/Tests.antt =====
-- A run of the server on a concrete system: a request of a known speaker, a round of the monitor and
-- one of the command thread.
use castserver.Base.{◌⊎◌, inl, inr, Bool-cases, ◌==◌}
use castserver.Types.{Addr}
use castserver.Sample.{address}
use castserver.System.Contacts.{KeepsAddresses, GoesToContact}
use castserver.System.Contacts.Reach.{contacts_only}
use castserver.Sample.{reviving, alone}
use castserver.System.Comeback.{returning_speaker}
use castserver.World.{write_mem}
use castserver.Types.{af_inet}
use castserver.Pusher.{pusher_sendto_speaker}
use castserver.Sample.{taken_offline}
use castserver.Base.{some}
use castserver.Command.{thread_control_socket}
use castserver.Base.{All}
use castserver.Base.{ℕ, pos, ◌≡◌, refl, List, [], ◌∷◌, ◌++◌, arith, true}
use castserver.Types.{Call}
use castserver.World.{World, done, state_of}
use castserver.Detect.{srv_detect_read, thread_online_detect}
use castserver.System.{
  Event, detect_message, monitor_round, detect_read, monitor, command_round, control_socket, Steps,
  stop, next,
}
use castserver.Sample.{system, server, from}

abbrev request : List ℕ
request = 5 ∷ 105 ∷ 12 ∷ 12 ∷ 4100 ∷ []

abbrev answered : World (List ℕ)
answered = state_of (srv_detect_read system (from 105) request 5 server)

abbrev watched : World (List ℕ)
watched = state_of (thread_online_detect system answered)

abbrev asked : World (List ℕ)
asked = state_of (thread_control_socket system 9 (pos 0) watched)

abbrev events : List Event
events = detect_message (from 105) request 5 ∷ monitor_round ∷ command_round (pos 0) ∷ []

run : Steps system events server asked
unfolding srv_detect_read castserver.Base.eq_bytes castserver.Base.eq_ncase thread_online_detect
    castserver.World.write thread_control_socket castserver.Command.cmd_speakers
run =
    next _ _ server answered asked (detect_read (from 105) request 5 server answered (pos 0) refl) (
      next _ _ answered watched asked (monitor answered watched true refl) (
        next _ _ watched asked asked (control_socket 9 (pos 0) watched asked (some (pos 40)) refl)
          (stop asked)))

-- The addresses of the two speakers.
abbrev Ours : Addr → Type 0
Ours a = (a ≡ address 105) ⊎ (a ≡ address 106)

system-KeepsAddresses : KeepsAddresses system
unfolding castserver.World.write
system-KeepsAddresses = record {
  header = λ s req. refl;
  checked = λ st p q. refl;
  offline = λ st p q. ground arith;
  added = λ st id line channel q ne. ground arith;
  full = λ st id line channel q none_added. ground arith;
}

server-Ours : (p : ℕ) → Ours (server.speakers.mem p).ip
server-Ours p = elim (Bool-cases (p == 5)) [
  | inl five ↦ rw five (inl refl)
  | inr other ↦ rw other (inr refl)
]

contacts_only_example :
    ((calls : List Call) × (asked.trace ≡ calls ++ [])
      × All (GoesToContact system Ours (λ to. ⊥)) calls)
    × ((p : ℕ) → Ours (asked.speakers.mem p).ip)
contacts_only_example =
    contacts_only system Ours (λ to. ⊥) system-KeepsAddresses events server asked run
      ((λ probe. ground arith, λ other claimed. inl refl), (tt, (tt, tt))) server-Ours

abbrev silent : World (List ℕ)
silent = state_of (thread_online_detect reviving alone)

abbrev back : World (List ℕ)
back = state_of (srv_detect_read reviving (from 105) request 5 silent)

abbrev pushed : World (List ℕ)
pushed = state_of (pusher_sendto_speaker reviving 5 (7 ∷ 8 ∷ []) 2 back)

returning_speaker_example :
    (thread_online_detect reviving alone ≡ done true silent)
    × (silent.trace ≡ Call.sleep 5 ∷ Call.close (pos 25) ∷ Call.shutdown (pos 25) ∷ [])
    × (back.trace
        ≡ Call.sendto
            (pos 30)
            (1 ∷ 0 ∷ 50 ∷ [])
            (record { ss_family = af_inet; host = 105; port = 4414 })
          ∷ silent.trace)
    × (pusher_sendto_speaker reviving 5 (7 ∷ 8 ∷ []) 2 back ≡ done (pos 0) pushed)
    × (pushed.trace
        ≡ Call.sendto
            (pos 25)
            (7 ∷ 8 ∷ [])
            (record { ss_family = af_inet; host = 105; port = 4005 })
          ∷ back.trace)
unfolding srv_detect_read castserver.Base.eq_bytes thread_online_detect castserver.World.write
returning_speaker_example =
    returning_speaker reviving taken_offline (λ st sp. refl) 5 25 5 2 (from 105) request
      (7 ∷ 8 ∷ []) alone (omega arith) (record { running = refl; each = λ mem. refl }) refl
      (λ s. refl) refl (ground arith) refl refl refl refl (omega arith)
