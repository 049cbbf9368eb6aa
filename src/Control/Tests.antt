-- ===== src/Control/Tests.antt =====
-- The control channel on a concrete system.
use castserver.Base.{ℕ, pos, ◌≡◌, refl, List, [], ◌∷◌, arith}
use castserver.Types.{Call, af_inet}
use castserver.World.{World, done, state_of, write}
use castserver.Control.{server_spctrl_set_time, srv_spctrl_read}
use castserver.Control.Time.{time_since_connect}
use castserver.Sample.{system, server}

-- The sample command to the speaker 5 on channel 1, and to the speaker 6 on channel 2.
abbrev sample_to_5 : Call
sample_to_5 =
    Call.sendto (pos 31) (1 ∷ 2 ∷ 3 ∷ 1 ∷ 0 ∷ 0 ∷ [])
      (record { ss_family = af_inet; host = 105; port = 4005 })

abbrev sample_to_6 : Call
sample_to_6 =
    Call.sendto (pos 31) (1 ∷ 2 ∷ 3 ∷ 2 ∷ 0 ∷ 0 ∷ [])
      (record { ss_family = af_inet; host = 106; port = 4006 })

-- The speaker 5, connected before two calls were made.
abbrev later : World (List ℕ)
later = record (state_of (server_spctrl_set_time system 5 server)) {
  trace = Call.gettimeofday ∷ Call.gettimeofday ∷ [];
}

time_since_connect_example :
    srv_spctrl_read system (2 ∷ 5 ∷ []) 3 later
    ≡ done (pos 0) (record later {
      trace =
          Call.sendto
            (pos 31)
            (2 ∷ 0 ∷ 0 ∷ 0 ∷ 2000005 ∷ 2000000 ∷ [])
            (record { ss_family = af_inet; host = 105; port = 4005 })
          ∷ Call.gettimeofday
          ∷ later.trace;
      control = record (later.control) { buffer = 2 ∷ 0 ∷ 0 ∷ 0 ∷ 2000005 ∷ 2000000 ∷ [] };
    })
unfolding server_spctrl_set_time write
time_since_connect_example =
    time_since_connect system 5 (2 ∷ 5 ∷ []) 3 server later (omega arith) refl refl refl refl
      (omega arith)
