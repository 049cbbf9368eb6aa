-- ===== src/System/Comeback.antt =====
-- A speaker that falls silent and comes back: the monitor, the detect handler and the pusher in turn.
use castserver.Pusher.Send.{let_go-trace}
use castserver.Pusher.Send.{is_connected, refreshed}
use castserver.Base.{eq_int}
use castserver.Base.{
  ℕ, pos, is_nonpos, eq_int_iff, ◌≡◌, ◌≢◌, ◌≤◌, sym, ap, ◌∙◌, Bool, not, true, false, List, [], ◌∷◌,
  length, take, arith, if◌then◌else◌,
}
use castserver.Types.{Speaker, Sockaddr, Call}
use castserver.Env.{Env}
use castserver.World.{World, M, ◌>>◌, pure, done, state_of, >>=-done, sys, speaker, write_self}
use castserver.Detect.{online_detect_loop, thread_online_detect, srv_detect_read}
use castserver.Detect.Monitor.{TakesOffline, aged, turned, after_turn, online_detect_loop-step}
use castserver.Detect.Silence.{IsWatched}
use castserver.Detect.Request.{is_request, request_of, response, srv_detect_read_known}
use castserver.Pusher.{pusher_sendto_speaker}
use castserver.Pusher.Send.{is_ready, let_go, audio, pusher_sendto_speaker_lem}

module _ {T : Type 0} (e : Env T) (off : Speaker → Speaker) (acts : TakesOffline e off) where
  -- The only speaker was taken offline in this round, and its socket was closed.
  abbrev expired : ℕ → ℕ → World T → World T
  expired sp n w = record (turned e off sp w) {
    trace = Call.sleep 5 ∷ Call.close (pos n) ∷ Call.shutdown (pos n) ∷ w.trace;
  }

  turned-fd :
      (sp n : ℕ) (w : World T)
      → is_nonpos (speaker w sp).timeout ≡ true
      → ((s : Speaker) → (off s).fd ≡ s.fd)
      → (speaker w sp).fd ≡ pos n
      → (speaker (turned e off sp w) sp).fd ≡ pos n
  turned-fd sp n w late keeps own =
      let older = record (speaker w sp) { timeout = e.timeout_pred (speaker w sp).timeout } in
      let kept : (aged e off (speaker w sp)).fd ≡ pos n = rw late (keeps older ∙ own) in
      ap (λ s. s.fd) (write_self w.speakers.mem sp (aged e off (speaker w sp))) ∙ kept

  after_turn-late :
      (sp n : ℕ) (w : World T)
      → is_nonpos (speaker w sp).timeout ≡ true
      → ((s : Speaker) → (off s).fd ≡ s.fd)
      → (speaker w sp).fd ≡ pos n
      → pos n ≢ w.pusher.read_fd
      → after_turn e off sp w ≡ record (turned e off sp w) {
        trace = Call.close (pos n) ∷ Call.shutdown (pos n) ∷ w.trace;
      }
  after_turn-late sp n w late keeps own apart =
      let fd = turned-fd sp n w late keeps own in
      let closes : eq_int (pos n) w.pusher.read_fd ≡ false =
        ground (arith, eq_int_iff (pos n) w.pusher.read_fd) in
      ap (λ b. if b then let_go e sp (turned e off sp w) else turned e off sp w) late
      ∙ ap (λ t. record (turned e off sp w) { trace = t })
          (let_go-trace e sp n (turned e off sp w) fd closes)

  round-expired :
      (sp n : ℕ) (w : World T)
      → sp ≢ 0
      → IsWatched e (sp ∷ []) w
      → is_nonpos (speaker w sp).timeout ≡ true
      → ((s : Speaker) → (off s).fd ≡ s.fd)
      → (speaker w sp).fd ≡ pos n
      → pos n ≢ w.pusher.read_fd
      → thread_online_detect e w ≡ done true (expired sp n w)
  unfolding thread_online_detect online_detect_loop
  round-expired sp n w live watched late keeps own apart =
      let over : List ℕ → M T Bool =
        λ l. online_detect_loop e l >> (sys e (Call.sleep 5) >> pure true) in
      let turn = after_turn-late sp n w late keeps own apart in
      ap (λ b. (if b then pure (not true) else over (e.speaker_foreach w.speakers)) w)
        watched.running
      ∙ (ap (λ l. over l w) (watched.each w.speakers.mem)
          ∙ >>=-done (online_detect_loop e (sp ∷ [])) (λ _. sys e (Call.sleep 5) >> pure true) w _
              tt (online_detect_loop-step e off acts sp [] w live ∙ ap (done tt) turn))

  -- A speaker that comes back is played to on a socket that is closed. When the only speaker has no
  -- rounds left and a socket of its own, the round of the monitor closes this socket. When the
  -- speaker is known and asks again, it is answered, and nothing else is called: no socket is made
  -- and none is connected. When it is then ready, and still has the descriptor that the round left
  -- in its struct, its audio is sent on the closed descriptor, and the result is 0. SPEAKER_OFFLINE
  -- has to change the struct of its speaker only, and not its descriptor.
  pub returning_speaker :
      (sp n len size : ℕ) (src : Sockaddr) (packet payload : List ℕ) (w : World T)
      → sp ≢ 0
      → IsWatched e (sp ∷ []) w
      → is_nonpos (speaker w sp).timeout ≡ true
      → ((s : Speaker) → (off s).fd ≡ s.fd)
      → (speaker w sp).fd ≡ pos n
      → pos n ≢ w.pusher.read_fd
      → is_request e src packet len ≡ true
      → let header = request_of e src packet in
        let v = state_of (thread_online_detect e w) in
        let x = state_of (srv_detect_read e src packet len v) in
        let y = state_of (pusher_sendto_speaker e sp payload size x) in
        e.find_speaker_by_id v.speakers header.id ≡ sp
        → is_ready e (speaker x sp) ≡ true
        → (speaker x sp).fd ≡ (speaker v sp).fd
        → size ≤ length payload
        → (thread_online_detect e w ≡ done true v)
          × (v.trace ≡ Call.sleep 5 ∷ Call.close (pos n) ∷ Call.shutdown (pos n) ∷ w.trace)
          × (x.trace ≡ response e header.addr v ∷ v.trace)
          × (pusher_sendto_speaker e sp payload size x ≡ done (pos 0) y)
          × (y.trace
              ≡ Call.sendto
                  (pos n)
                  (take size payload)
                  (e.set_sockaddr (speaker x sp).ip (speaker x sp).dport)
                ∷ x.trace)
  returning_speaker sp n len size src packet payload w live watched late keeps own apart good found
        ready same fits =
      let v = state_of (thread_online_detect e w) in
      let header = request_of e src packet in
      let round = round-expired sp n w live watched late keeps own apart in
      let gone : v ≡ expired sp n w = ap state_of round in
      let asked = srv_detect_read_known e src packet len sp v good found live in
      let x = state_of (srv_detect_read e src packet len v) in
      let fd : (speaker v sp).fd ≡ pos n =
        ap (λ u. (speaker u sp).fd) gone ∙ turned-fd sp n w late keeps own in
      let sends =
        pusher_sendto_speaker_lem e sp payload size x live fits
        ∙ ap
            (λ b.
              if b
              then done (pos 0)
                  (record x { trace = audio e (speaker x sp) (take size payload) ∷ x.trace })
              else done (pos 1)
                  (let_go e sp (if is_connected e (speaker x sp) then x else refreshed e sp x)))
            ready in
      (
        round ∙ ap (done true) (sym gone),
        ap (λ u. u.trace) gone,
        ap (λ o. (state_of {S = World T} o).trace) asked,
        sends ∙ ap (done (pos 0)) (sym (ap state_of sends)),
        ap (λ o. (state_of {S = World T} o).trace) sends
            ∙ ap
                (λ k.
                  Call.sendto k (take size payload)
                    (e.set_sockaddr (speaker x sp).ip (speaker x sp).dport)
                  ∷ x.trace)
                (same ∙ fd),
      )
