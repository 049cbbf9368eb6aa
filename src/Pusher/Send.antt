-- ===== src/Pusher/Send.antt =====
-- One datagram of audio to one speaker, and how a speaker is let go (pusher_sendto_speaker,
-- server_sppush_disconnect).
use castserver.Base.{false, ℤ, ap, ◌∙◌}
use castserver.Base.{
  ℕ, pos, is_neg, is_nonpos, eq_int, ◌≤◌, ◌≡◌, ◌≢◌, Bool, not, ◌&&◌, ◌||◌, List, ◌∷◌, length, take,
  arith, ◌==◌, if◌then◌else◌,
}
use castserver.Types.{Speaker, Call}
use castserver.Env.{Env}
use castserver.World.{World, done, speaker}
use castserver.Pusher.{server_sppush_disconnect, pusher_sendto_speaker}

module _ {T : Type 0} (e : Env T) where
  -- The speaker has a port and a socket of its own or the shared one, and is online.
  abbrev pub is_connected : Speaker → Bool
  is_connected s = not (s.dport == 0) && (e.speaker_is_online s && not (is_nonpos s.fd))

  -- Audio can be sent to the speaker.
  abbrev pub is_ready : Speaker → Bool
  is_ready s = is_connected s && e.speaker_supported s

  -- The socket of a speaker is closed, unless it has none or shares the pusher's.
  abbrev pub let_go : ℕ → World T → World T
  let_go sp w = record w {
    trace =
        if is_neg (speaker w sp).fd || eq_int (speaker w sp).fd w.pusher.read_fd
        then w.trace
        else Call.close (speaker w sp).fd ∷ Call.shutdown (speaker w sp).fd ∷ w.trace;
  }

  pub let_go-trace :
      (sp n : ℕ) (w : World T)
      → (speaker w sp).fd ≡ pos n
      → eq_int (pos n) w.pusher.read_fd ≡ false
      → (let_go sp w).trace ≡ Call.close (pos n) ∷ Call.shutdown (pos n) ∷ w.trace
  let_go-trace sp n w fd closes =
      ap
        (λ (k : ℤ).
          if is_neg k || eq_int k w.pusher.read_fd
          then w.trace
          else Call.close k ∷ Call.shutdown k ∷ w.trace)
        fd
      ∙ ap (λ b. if b then w.trace else Call.close (pos n) ∷ Call.shutdown (pos n) ∷ w.trace) closes

  abbrev pub refreshed : ℕ → World T → World T
  refreshed sp w = record w { speakers = e.speaker_check_online w.speakers sp }

  abbrev pub audio : Speaker → List ℕ → Call
  audio s payload = Call.sendto s.fd payload (e.set_sockaddr s.ip s.dport)

  pub server_sppush_disconnect_lem :
      (sp : ℕ) (w : World T) → sp ≢ 0 → server_sppush_disconnect e sp w ≡ done (pos 0) (let_go sp w)
  unfolding server_sppush_disconnect
  server_sppush_disconnect_lem sp w h = ground arith

  -- For a speaker that exists and a buffer that holds the datagram: the speaker that is ready is sent
  -- exactly the first `len` bytes, on its own socket and to its own address, and the result is 0,
  -- whatever `sendto` answers; of any other the socket is let go, after its state was checked anew
  -- when it is not connected, and the result is 1. Nothing else changes.
  pub pusher_sendto_speaker_lem :
      (sp : ℕ) (packet : List ℕ) (len : ℕ) (w : World T)
      → sp ≢ 0
      → len ≤ length packet
      → pusher_sendto_speaker e sp packet len w ≡ (
          if is_ready (speaker w sp)
          then done (pos 0) (record w { trace = audio (speaker w sp) (take len packet) ∷ w.trace })
          else done (pos 1) (let_go sp (if is_connected (speaker w sp) then w else refreshed sp w)))
  unfolding pusher_sendto_speaker
  pusher_sendto_speaker_lem sp packet len w h fits = ground (
    arith,
    server_sppush_disconnect_lem sp w h,
    server_sppush_disconnect_lem sp (refreshed sp w) h,
  )
