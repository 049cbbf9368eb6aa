-- ===== src/Control/Format.antt =====
-- The sample format, announced to all speakers (server_spctrl_format).
use castserver.Base.{
  ℕ, ℤ, ◌≡◌, refl, ◌≢◌, Bool, ◌&&◌, List, [], ◌∷◌, map, take, arith, keep, if◌then◌else◌, All,
  logged,
}
use castserver.Types.{Speaker, ControlPackage, control_package_zero, Call}
use castserver.Env.{Env}
use castserver.World.{World, done, state_of, speaker}
use castserver.Control.{format_loop, server_spctrl_format, server_spctrl_set_format}
use castserver.Control.Send.{is_reachable, with_buffer, sent, server_spctrl_speaker_lem}

module _ {T : Type 0} (e : Env T) where
  -- `control_package_encode` writes the whole buffer, whatever it held.
  abbrev pub EncodesWhole : Type 0
  EncodesWhole =
      (b c : List ℕ) (hd : ControlPackage)
      → e.control_package_encode b hd ≡ e.control_package_encode c hd

  -- The speakers that are told the format.
  abbrev pub is_told : (ℕ → Speaker) → ℕ → Bool
  is_told mem sp = e.speaker_is_online (mem sp) && is_reachable e (mem sp)

  -- The command `hd` for the channel of one speaker, sent to its address.
  abbrev pub told : ℤ → (ℕ → Speaker) → ControlPackage → ℕ → Call
  told fd mem hd sp =
      Call.sendto fd
        (take e.control_package_size
          (e.control_package_encode [] (record hd { channel = (mem sp).channel })))
        (e.set_sockaddr (mem sp).ip (mem sp).dport)

  abbrev Told : ControlPackage → List ℕ → World T → World T → Type 0
  Told hd sps w v =
      (format_loop e hd sps w ≡ done tt v)
      × (v.speakers ≡ w.speakers)
      × (v.control.read_fd ≡ w.control.read_fd)
      × (v.pusher ≡ w.pusher)
      × (v.trace
          ≡ logged
              (map (told w.control.read_fd w.speakers.mem hd) (keep (is_told w.speakers.mem) sps))
              w.trace)

  abbrev pub for_channel : ControlPackage → ℕ → World T → ControlPackage
  for_channel hd sp w = record hd { channel = (speaker w sp).channel }

  -- The state after the speaker at the head of the list had its turn.
  abbrev pub after_one : ControlPackage → ℕ → World T → World T
  after_one hd sp w =
      if e.speaker_is_online (speaker w sp)
      then (if is_reachable e (speaker w sp)
          then sent e sp (for_channel hd sp w) w
          else with_buffer e (for_channel hd sp w) w)
      else w

  pub format_loop-step :
      (hd : ControlPackage) (sp : ℕ) (rest : List ℕ) (w : World T)
      → sp ≢ 0
      → format_loop e hd (sp ∷ rest) w ≡ format_loop e hd rest (after_one hd sp w)
  unfolding format_loop
  format_loop-step hd sp rest w live =
      ground (arith, server_spctrl_speaker_lem e sp (for_channel hd sp w) w live)

  format_loop-Told :
      (whole : EncodesWhole) (hd : ControlPackage) (sps : List ℕ) (w : World T)
      → All (λ sp. sp ≢ 0) sps
      → Told hd sps w (state_of (format_loop e hd sps w))
  unfolding format_loop
  format_loop-Told whole hd [] w live = (refl, refl, refl, refl, refl)
  format_loop-Told whole hd (sp ∷ rest) w live =
      let hd' = for_channel hd sp w in
      rw (format_loop-step hd sp rest w live.0) (
        ground (
          arith,
          whole w.control.buffer [] hd',
          format_loop-Told whole hd rest w live.1,
          format_loop-Told whole hd rest (with_buffer e hd' w) live.1,
          format_loop-Told whole hd rest (sent e sp hd' w) live.1,
        ))

  pub set_format-pusher :
      (whole : EncodesWhole) (list : List ℕ) (rate bits : ℕ) (w : World T)
      → All (λ sp. sp ≢ 0) (e.speaker_foreach w.speakers)
      → (state_of (server_spctrl_set_format e list rate bits w)).pusher ≡ w.pusher
  unfolding server_spctrl_format server_spctrl_set_format
  set_format-pusher whole list rate bits w live =
      (format_loop-Told whole
        (record control_package_zero { cmd = e.spcmd_sample; bits = bits; rate = rate })
        (e.speaker_foreach w.speakers)
        (record w { control = record (w.control) { server_channel_list = list } }) live).3

  pub server_spctrl_set_format_lem :
      (whole : EncodesWhole) (list : List ℕ) (rate bits : ℕ) (w : World T)
      → All (λ sp. sp ≢ 0) (e.speaker_foreach w.speakers)
      → let v = state_of (server_spctrl_set_format e list rate bits w) in
        let hd = record control_package_zero { cmd = e.spcmd_sample; bits = bits; rate = rate } in
        (server_spctrl_set_format e list rate bits w ≡ done tt v)
        × (v.speakers ≡ w.speakers)
        × (v.trace
            ≡ logged
                (map
                  (told w.control.read_fd w.speakers.mem hd)
                  (keep (is_told w.speakers.mem) (e.speaker_foreach w.speakers)))
                w.trace)
  unfolding server_spctrl_format server_spctrl_set_format
  server_spctrl_set_format_lem whole list rate bits w live =
      let r =
        format_loop-Told whole
          (record control_package_zero { cmd = e.spcmd_sample; bits = bits; rate = rate })
          (e.speaker_foreach w.speakers)
          (record w { control = record (w.control) { server_channel_list = list } }) live in
      (r.0, r.1, r.4)
