-- ===== src/Control/Time.antt =====
-- The clock that the speakers ask for (spctrl_time, srv_spctrl_read, server_spctrl_set_time).
use castserver.Base.{
  ℕ, pos, negsuc, ◌-◌, ◌^◌, ◌≤◌, ◌≡◌, ◌∙◌, ap, ◌<◌, ◌≢◌, ◌⊎◌, Bool, true, false, ◌&&◌, List, ◌∷◌,
  arith, ltb, ◌==◌, if◌then◌else◌,
}
use castserver.Types.{ControlPackage, control_package_zero, Call}
use castserver.Env.{Env}
use castserver.World.{write_self, World, done, state_of, speaker}
use castserver.Control.{clock, time_packet, srv_spctrl_read, server_spctrl_set_time}
use castserver.Control.Send.{is_reachable, sent, server_spctrl_speaker_lem}

module _ {T : Type 0} (e : Env T) where
  abbrev pub is_time_request : List ℕ → ℕ → Bool
  is_time_request packet len = len == e.control_time_size && e.control_is_cmd packet e.spcmd_time

  -- The state after the clock was read.
  abbrev pub timed : World T → World T
  timed w = record w { trace = Call.gettimeofday ∷ w.trace }

  abbrev pub time_answer : ℕ → ℕ → ControlPackage
  time_answer now elapsed = record control_package_zero {
    cmd = e.spcmd_time;
    server = now;
    offset = elapsed;
  }

  elapsed-time_packet :
      (now start : ℕ)
      → now < 2 ^ 64
      → start ≤ now
      → time_packet e now start ≡ time_answer now (now - start)
  elapsed-time_packet now start h le = ap (time_answer now) (omega arith)

  answer_since :
      (sp start : ℕ) (packet : List ℕ) (len : ℕ) (v : World T)
      → sp ≢ 0
      → is_time_request packet len ≡ true
      → e.find_speaker_by_id v.speakers (e.control_time_spid packet) ≡ sp
      → (speaker v sp).conn_time ≡ start
      → is_reachable e (speaker v sp) ≡ true
      → start ≤ clock e v
      → srv_spctrl_read e packet len v
        ≡ done (pos 0) (sent e sp (time_answer (clock e v) (clock e v - start)) (timed v))
  unfolding srv_spctrl_read
  answer_since sp start packet len v live asks found kept online later = ground (
    arith,
    elapsed-time_packet (clock e v) start,
    server_spctrl_speaker_lem e sp (time_packet e (clock e v) start) (timed v) live,
  )

  -- A speaker that was connected at one moment and asks for the time at a later one, while it is
  -- online with a port, is sent one answer: the server's time and the time that passed in between.
  -- The condition on the clock is that it did not wrap.
  pub time_since_connect :
      (sp : ℕ) (packet : List ℕ) (len : ℕ) (w v : World T)
      → sp ≢ 0
      → is_time_request packet len ≡ true
      → e.find_speaker_by_id v.speakers (e.control_time_spid packet) ≡ sp
      → (speaker v sp).conn_time ≡ (speaker (state_of (server_spctrl_set_time e sp w)) sp).conn_time
      → is_reachable e (speaker v sp) ≡ true
      → clock e w ≤ clock e v
      → srv_spctrl_read e packet len v
        ≡ done (pos 0) (sent e sp (time_answer (clock e v) (clock e v - clock e w)) (timed v))
  unfolding server_spctrl_set_time
  time_since_connect sp packet len w v live asks found kept online later =
      answer_since sp (clock e w) packet len v live asks found
        (kept
          ∙ ap (λ s. s.conn_time)
              (write_self w.speakers.mem sp (record (speaker w sp) { conn_time = clock e w })))
        online later

  -- Any other datagram changes nothing and is answered by nothing: the result is -1 when it is no time
  -- request and shorter than 16 bytes, and 0 when it is longer or comes from an unknown speaker.
  pub srv_spctrl_read_ignored :
      (packet : List ℕ) (len : ℕ) (w : World T)
      → (is_time_request packet len ≡ false)
        ⊎ (e.find_speaker_by_id w.speakers (e.control_time_spid packet) ≡ 0)
      → srv_spctrl_read e packet len w
        ≡ done
            (if is_time_request packet len then pos 0 else if ltb len 16 then negsuc 0 else pos 0)
            w
  unfolding srv_spctrl_read
  srv_spctrl_read_ignored packet len w h = ground arith
