-- ===== src/System/Contacts/Requests.antt =====
-- The messages on the multicast group, and the monitor, write to contacts only.
use castserver.Base.{
  ℕ, ℤ, negsuc, ◌≡◌, refl, inl, inr, Bool, true, false, not, ◌&&◌, Bool-cases, List, [], ◌∷◌,
  Option, none, some, is_nonpos, is_nonzero, ◌==◌, if◌then◌else◌, arith,
}
use castserver.Types.{Addr, Sockaddr, Call, DetectRequest, DetectFn, speaker_added_handle}
use castserver.Env.{Env}
use castserver.World.{
  World, M, ◌>>=◌, ◌>>◌, pure, when, speaker, update_speaker, update_store, write_self, write_ne,
  write_mem,
}
use castserver.Pusher.{server_sppush_disconnect}
use castserver.Detect.{
  call_detect_cb, welcome, valid_speaker, respond, srv_detect_read, online_detect_loop,
  thread_online_detect, is_supported, is_probe, response_port, of_bool,
}
use castserver.Detect.Speaker.{new_pointer, introduced}
use castserver.Detect.Request.{request_of}
use castserver.System.Contacts.{KeepsAddresses, Polite, Safe, polite, bind-Safe, get-Safe, sys-Safe}
use castserver.System.Contacts.Handlers.{
  server_spctrl_speaker-Safe, server_spctrl_set_time-Safe, server_sppush_connect-Safe,
  server_sppush_disconnect-Safe,
}
use native.Mathlib.Decide.{ℕ_discrete}

module _ {T : Type 0} (e : Env T) where
  -- The message has the size of a request, and its sender is the address that it claims.
  abbrev pub comes_from : Sockaddr → List ℕ → ℕ → Bool
  comes_from src packet len =
      len == e.detect_request_size src.ss_family
      && e.equal_sock_addr src (request_of e src packet).addr

  module _ (P : Addr → Type 0) (Q : Sockaddr → Type 0) (law : KeepsAddresses e)
      (old : List Call) where
    abbrev S : {A : Type 0} → M T A → Type 0
    S m = Safe e P Q law old m

    call_detect_cb-Safe : (cb : Option DetectFn) (sp : ℕ) → S (call_detect_cb e cb sp)
    unfolding call_detect_cb
    call_detect_cb-Safe none sp = search polite depth 24
    call_detect_cb-Safe (some speaker_added_handle) sp =
        search (polite, server_spctrl_speaker-Safe) depth 24

    welcome-Safe : (sp : ℕ) (support : Bool) → S (welcome e sp support)
    unfolding welcome
    welcome-Safe sp support =
        search
          (
            polite, server_sppush_connect-Safe, server_spctrl_set_time-Safe,
            server_spctrl_speaker-Safe, call_detect_cb-Safe,
          )
          depth 24

    -- The new speaker has the address of its request, and the others keep theirs.
    introduced-known :
        (header : DetectRequest) (w : World T) (q : ℕ)
        → ((p : ℕ) → P (w.speakers.mem p).ip)
        → P header.addr
        → P ((introduced e header w).speakers.mem q).ip
    introduced-known header w q known ok =
        let p = new_pointer e header w in
        let added = (e.add_speaker w.speakers header.id e.default_line e.default_channel).1 in
        let flag = record (added.mem p) { supported = of_bool (is_supported e header) } in
        let flagged = write_mem added p flag in
        let filled = e.init_from_header (flagged.mem p) header in
        rw (law.checked (write_mem flagged p filled) p q) (elim (ℕ_discrete q p) [
          | yes eq ↦ rw (eq, write_self flagged.mem p filled, law.header (flagged.mem p) header) ok
          | no ne ↦
              rw
                (
                  write_ne flagged.mem p q filled ne,
                  write_ne added.mem p q flag ne,
                  law.added w.speakers header.id e.default_line e.default_channel q ne,
                )
                (known q)
        ])

    -- A speaker that is unknown, from add_speaker on.
    abbrev newcomer : DetectRequest → World T → M T ℤ
    newcomer header w =
        let (p, added) = e.add_speaker w.speakers header.id e.default_line e.default_channel in
        do
          update_store (λ _. added)
          if p == 0 then pure (negsuc 0) else do
            update_speaker p (λ s. record s { supported = of_bool (is_supported e header) })
            update_speaker p (λ s. e.init_from_header s header)
            update_store (λ st. e.speaker_check_online st p)
            welcome e p (is_supported e header)

    newcomer-Safe :
        (header : DetectRequest) (w : World T) (i : Polite e P Q old w)
        → P header.addr
        → S (newcomer header w)
    newcomer-Safe header w i ok = record {
      run = λ u j. elim (Bool-cases (new_pointer e header w == 0)) [
        | inl full ↦
            let none_added : new_pointer e header w ≡ 0 = ground arith in
            rw full (record {
              known = λ q.
                  rw (law.full w.speakers header.id e.default_line e.default_channel q none_added)
                    (i.known q);
              calls = j.calls;
            })
        | inr room ↦ rw room (
            (welcome-Safe (new_pointer e header w) (is_supported e header)).run
              (record u { speakers = (introduced e header w).speakers })
              (record { known = λ q. introduced-known header w q i.known ok; calls = j.calls }))
      ];
    }

    valid_speaker-Safe : (header : DetectRequest) → P header.addr → S (valid_speaker e header)
    unfolding valid_speaker
    valid_speaker-Safe header ok = search (polite, newcomer-Safe) depth 24

    respond-Safe : (addr : Addr) → P addr → S (respond e addr)
    unfolding respond
    respond-Safe addr ok =
        let answer = λ (fd : ℤ) (packet : List ℕ).
          sys-Safe e P Q law old (Call.sendto fd packet (e.set_sockaddr addr response_port))
            (inl (addr, response_port, ok, refl)) in
        search (polite, answer) depth 24

    request-Safe :
        (src : Sockaddr) (packet : List ℕ) (len : ℕ)
        → (comes_from src packet len ≡ true → P (request_of e src packet).addr)
        → S (
            if len == e.detect_request_size src.ss_family
            then (do
              if not (e.equal_sock_addr src (request_of e src packet).addr)
                  then pure (negsuc 0)
                  else do
                    r ← valid_speaker e (request_of e src packet)
                    if is_nonzero r
                        then pure (negsuc 0)
                        else respond e (request_of e src packet).addr)
            else pure (negsuc 0))
    request-Safe src packet len claimed =
        elim (Bool-cases (len == e.detect_request_size src.ss_family)) [
          | inl size ↦ elim (Bool-cases (e.equal_sock_addr src (request_of e src packet).addr)) [
            | inl same ↦
                let known : P (request_of e src packet).addr = claimed (rw (size, same) refl) in
                rw (size, same) (search (polite, valid_speaker-Safe, respond-Safe) depth 24)
            | inr forged ↦ rw (size, forged) (search polite depth 24)
          ]
          | inr other ↦ rw other (search polite depth 24)
        ]

    pub srv_detect_read-Safe :
        (src : Sockaddr) (packet : List ℕ) (len : ℕ)
        → (is_probe e packet len ≡ true → Q src)
        → (is_probe e packet len ≡ false
            → comes_from src packet len ≡ true
            → P (request_of e src packet).addr)
        → S (srv_detect_read e src packet len)
    unfolding srv_detect_read
    srv_detect_read-Safe src packet len prober claimed = elim (Bool-cases (is_probe e packet len)) [
      | inl probe ↦
          let answer = λ (fd : ℤ) (bytes : List ℕ).
            sys-Safe e P Q law old (Call.sendto fd bytes src) (inr (prober probe)) in
          rw probe (search (polite, answer) depth 24)
      | inr other ↦ rw other (request-Safe src packet len (claimed other))
    ]

    online_detect_loop-Safe : (sps : List ℕ) → S (online_detect_loop e sps)
    unfolding online_detect_loop
    online_detect_loop-Safe [] = search polite depth 24
    online_detect_loop-Safe (sp ∷ rest) =
        let older : M T (Unit {0}) =
          update_speaker sp (λ s. record s { timeout = e.timeout_pred s.timeout }) in
        let offline : World T → M T (Unit {0}) = λ w. when (is_nonpos (speaker w sp).timeout) (
          update_store (λ st. e.speaker_offline st sp)
          >> (server_sppush_disconnect e sp >> pure tt)) in
        let others : M T (Unit {0}) = online_detect_loop e rest in
        get-Safe e P Q law old (λ w. older >> (offline w >> others))
          λ w i.
            bind-Safe e P Q law old older (λ _. offline w >> others) (search polite depth 24)
              λ _.
                bind-Safe e P Q law old (offline w) (λ _. others)
                  (search (polite, server_sppush_disconnect-Safe) depth 24)
                  λ _. online_detect_loop-Safe rest

    pub thread_online_detect-Safe : S (thread_online_detect e)
    unfolding thread_online_detect
    thread_online_detect-Safe = search (polite, online_detect_loop-Safe) depth 24
