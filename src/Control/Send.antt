-- ===== src/Control/Send.antt =====
-- One control command to one speaker (server_spctrl_speaker, server_spctrl_sendto_speaker).
use castserver.Base.{ℕ, pos, ◌≡◌, ◌≢◌, Bool, ◌&&◌, ◌∷◌, take, arith, ltb, ◌==◌, if◌then◌else◌}
use castserver.Types.{Speaker, ControlPackage, Call}
use castserver.Env.{Env}
use castserver.World.{World, done, speaker}
use castserver.Control.{server_spctrl_speaker}

module _ {T : Type 0} (e : Env T) where
  -- A control command can be sent to the speaker.
  abbrev pub is_reachable : Speaker → Bool
  is_reachable s = ltb 0 s.dport && s.state == e.stat_online

  abbrev pub with_buffer : ControlPackage → World T → World T
  with_buffer hd w = record w {
    control = record (w.control) { buffer = e.control_package_encode w.control.buffer hd };
  }

  -- The datagram that carries `hd` to the speaker behind `sp`.
  abbrev pub datagram : ℕ → ControlPackage → World T → Call
  datagram sp hd w =
      Call.sendto w.control.read_fd
        (take e.control_package_size (e.control_package_encode w.control.buffer hd))
        (e.set_sockaddr (speaker w sp).ip (speaker w sp).dport)

  abbrev pub sent : ℕ → ControlPackage → World T → World T
  sent sp hd w = record (with_buffer hd w) { trace = datagram sp hd w ∷ w.trace }

  -- For a speaker that exists, the command is encoded into the static buffer; the speaker that is
  -- online with a port is sent exactly one datagram, the encoded command to its own address, and the
  -- result is 0; any other is sent nothing and the result is 1. Nothing else changes.
  pub server_spctrl_speaker_lem :
      (sp : ℕ) (hd : ControlPackage) (w : World T)
      → sp ≢ 0
      → server_spctrl_speaker e sp hd w ≡ (
          if is_reachable (speaker w sp)
          then done (pos 0) (sent sp hd w)
          else done (pos 1) (with_buffer hd w))
  unfolding server_spctrl_speaker
  server_spctrl_speaker_lem sp hd w h = ground arith
