-- ===== src/Threads/Monitor.antt =====
-- The body of the monitor's loop in two parts, between which the event loop may run
-- (thread_online_detect).
use castserver.Base.{
  ℕ, pos, is_nonpos, eq_int, eq_int_iff, ◌≡◌, ◌≢◌, refl, sym, ap, ◌∙◌, Bool, true, false, List, ◌∷◌,
  arith,
}
use castserver.Types.{Speaker, Sockaddr, Call}
use castserver.Env.{Env}
use castserver.World.{
  World, M, ◌>>=◌, ◌>>◌, pure, get, when, done, state_of, speaker, update_speaker, update_store,
  write_mem, write_self,
}
use castserver.Pusher.{server_sppush_disconnect}
use castserver.Pusher.Send.{let_go, server_sppush_disconnect_lem, let_go-trace}
use castserver.Detect.{online_detect_loop, srv_detect_read}
use castserver.Detect.Monitor.{TakesOffline}
use castserver.Detect.Request.{is_request, request_of, response, srv_detect_read_known}

module _ {T : Type 0} (e : Env T) where
  -- sp->timeout-- <= 0
  unfoldable pub test_timeout : ℕ → M T Bool
  test_timeout sp = do
    w ← get
    update_speaker sp (λ s. record s { timeout = e.timeout_pred s.timeout })
    pure (is_nonpos (speaker w sp).timeout)

  -- SPEAKER_OFFLINE(sp); server_sppush_disconnect(sp);
  unfoldable pub retire : ℕ → M T (Unit {0})
  retire sp = do
    update_store (λ st. e.speaker_offline st sp)
    server_sppush_disconnect e sp
    pure tt

  -- The body of the loop is its two parts, one right after the other.
  pub online_detect_loop-parts :
      (sp : ℕ) (rest : List ℕ) (w : World T)
      → online_detect_loop e (sp ∷ rest) w
        ≡ ((test_timeout sp >>= λ late. when late (retire sp)) >> online_detect_loop e rest) w
  unfolding online_detect_loop test_timeout retire
  online_detect_loop-parts sp rest w = refl

  retire_lem :
      (off : Speaker → Speaker) (acts : TakesOffline e off) (sp : ℕ) (w : World T)
      → sp ≢ 0
      → retire sp w
        ≡ done tt
            (let_go e sp (record w { speakers = write_mem w.speakers sp (off (speaker w sp)) }))
  unfolding retire
  retire_lem off acts sp w live = ground (
    arith,
    acts w.speakers sp,
    server_sppush_disconnect_lem e sp
        (record w { speakers = write_mem w.speakers sp (off (speaker w sp)) }) live,
  )

  -- The monitor can take offline a speaker that was just answered. When the count of a known speaker
  -- is not positive, the test of the monitor succeeds; a request of this speaker that the event loop
  -- then handles is answered; and the monitor, which does not test again, takes the speaker offline as
  -- the request left it, and closes its socket, if it has one of its own. SPEAKER_OFFLINE has to change
  -- the struct of its speaker only, and not its descriptor.
  pub request_in_between :
      (off : Speaker → Speaker) (acts : TakesOffline e off) (sp n len : ℕ) (src : Sockaddr)
      (packet : List ℕ) (w : World T)
      → sp ≢ 0
      → ((s : Speaker) → (off s).fd ≡ s.fd)
      → is_nonpos (speaker w sp).timeout ≡ true
      → is_request e src packet len ≡ true
      → let header = request_of e src packet in
        let u = state_of (test_timeout sp w) in
        let x = state_of (srv_detect_read e src packet len u) in
        let y = state_of (retire sp x) in
        e.find_speaker_by_id u.speakers header.id ≡ sp
        → (speaker x sp).fd ≡ pos n
        → pos n ≢ w.pusher.read_fd
        → (test_timeout sp w ≡ done true u)
          × (x.trace ≡ response e header.addr u ∷ w.trace)
          × (retire sp x ≡ done tt y)
          × (speaker y sp ≡ off (speaker x sp))
          × (y.trace ≡ Call.close (pos n) ∷ Call.shutdown (pos n) ∷ x.trace)
  unfolding test_timeout
  request_in_between off acts sp n len src packet w live keeps late good found own apart =
      let header = request_of e src packet in
      let u = state_of (test_timeout sp w) in
      let x = state_of (srv_detect_read e src packet len u) in
      let asked = srv_detect_read_known e src packet len sp u good found live in
      let same : x.pusher ≡ w.pusher = ap (λ o. (state_of {S = World T} o).pusher) asked in
      let left : World T = record x { speakers = write_mem x.speakers sp (off (speaker x sp)) } in
      let ends = retire_lem off acts sp x live in
      let struct : speaker left sp ≡ off (speaker x sp) =
        write_self x.speakers.mem sp (off (speaker x sp)) in
      let fd : (speaker left sp).fd ≡ pos n =
        ap (λ s. s.fd) struct ∙ (keeps (speaker x sp) ∙ own) in
      let closes : eq_int (pos n) x.pusher.read_fd ≡ false =
        rw same (ground (arith, eq_int_iff (pos n) w.pusher.read_fd)) in
      (
        ap (λ b. done b u) late,
        ap (λ o. (state_of {S = World T} o).trace) asked,
        ends ∙ ap (done tt) (sym (ap (state_of {S = World T}) ends)),
        ap (λ o. speaker (state_of {S = World T} o) sp) ends ∙ struct,
        ap (λ o. (state_of {S = World T} o).trace) ends ∙ let_go-trace e sp n left fd closes,
      )
