-- ===== src/Threads/Datagrams.antt =====
-- What a sequence of actions sends, whichever threads they belong to.
use castserver.Base.{ap}
use castserver.Control.Send.{sent}
use castserver.Base.{◌∙◌, sym}
use castserver.Control.Send.{with_buffer}
use castserver.Control.{format_loop}
use castserver.Control.Format.{for_channel, format_loop-step}
use castserver.Threads.{commands}
use castserver.Base.{Bool-cases, inl, inr}
use castserver.World.{speaker, >>=-done}
use castserver.Base.{ℕ, ℤ, ◌≡◌, ◌≢◌, refl, List, [], ◌∷◌, take, arith, All, logged, if◌then◌else◌}
use castserver.Types.{Speaker, Call, ControlPackage}
use castserver.Env.{Env}
use castserver.World.{World, done, state_of, ◌>>◌, pure}
use castserver.Control.{server_spctrl_speaker, server_spctrl_sendto_speaker}
use castserver.Control.Send.{is_reachable}
use castserver.Threads.{Action, encode, transmit, command, targets, act, run}

module _ {T : Type 0} (e : Env T) where
  -- The bytes of the buffer, sent to the address of a speaker.
  abbrev pub datagram : ℤ → (ℕ → Speaker) → List ℕ → ℕ → Call
  datagram fd mem buffer sp =
      Call.sendto fd (take e.control_package_size buffer)
        (e.set_sockaddr (mem sp).ip (mem sp).dport)

  -- Each speaker is sent what the last action `encode` before left in the buffer.
  abbrev pub datagrams : ℤ → (ℕ → Speaker) → List ℕ → List Action → List Call
  datagrams fd mem buffer [] = []
  datagrams fd mem buffer (encode hd ∷ rest) =
      datagrams fd mem (e.control_package_encode buffer hd) rest
  datagrams fd mem buffer (transmit sp ∷ rest) =
      let later = datagrams fd mem buffer rest in
      if is_reachable e (mem sp) then datagram fd mem buffer sp ∷ later else later

  -- server_spctrl_speaker is its two actions, one right after the other.
  pub server_spctrl_speaker-run :
      (sp : ℕ) (hd : ControlPackage) (w : World T)
      → sp ≢ 0
      → (server_spctrl_speaker e sp hd >> pure tt) w ≡ run e (command sp hd) w
  unfolding server_spctrl_speaker run act
  server_spctrl_speaker-run sp hd w live = ground arith

  abbrev pub transmitted : ℕ → World T → World T
  transmitted sp w =
      if is_reachable e (speaker w sp)
      then record w {
        trace = datagram w.control.read_fd w.speakers.mem w.control.buffer sp ∷ w.trace;
      }
      else w

  act-transmit :
      (sp : ℕ) (w : World T) → sp ≢ 0 → act e (transmit sp) w ≡ done tt (transmitted sp w)
  unfolding act server_spctrl_sendto_speaker
  act-transmit sp w live = ground arith

  pub run-transmit :
      (sp : ℕ) (rest : List Action) (w : World T)
      → sp ≢ 0
      → run e (transmit sp ∷ rest) w ≡ run e rest (transmitted sp w)
  unfolding run
  run-transmit sp rest w live =
      >>=-done (act e (transmit sp)) (λ _. run e rest) w _ tt (act-transmit sp w live)

  -- What a sequence of actions leaves.
  abbrev pub Ran : List Action → World T → World T → Type 0
  Ran actions w v =
      (v.speakers ≡ w.speakers)
      × (v.trace
          ≡ logged (datagrams w.control.read_fd w.speakers.mem w.control.buffer actions) w.trace)

  pub run-Ran :
      (actions : List Action) (w : World T)
      → All (λ sp. sp ≢ 0) (targets actions)
      → (run e actions w ≡ done tt (state_of (run e actions w)))
        × Ran actions w (state_of (run e actions w))
  unfolding run act
  run-Ran [] w live = (refl, (refl, refl))
  run-Ran (encode hd ∷ rest) w live =
      run-Ran rest
        (record w {
          control = record (w.control) { buffer = e.control_package_encode w.control.buffer hd };
        })
        live
  run-Ran (transmit sp ∷ rest) w live =
      rw (run-transmit sp rest w live.0) (elim (Bool-cases (is_reachable e (speaker w sp))) [
        | inl reach ↦ rw reach (
            run-Ran rest
              (record w {
                trace = datagram w.control.read_fd w.speakers.mem w.control.buffer sp ∷ w.trace;
              })
              live.1)
        | inr away ↦ rw away (run-Ran rest w live.1)
      ])

  -- The commands by which the speakers are told a format.
  abbrev pub announced : (ℕ → Speaker) → ControlPackage → List ℕ → List (ℕ × ControlPackage)
  announced mem hd [] = []
  announced mem hd (sp ∷ rest) =
      let later = announced mem hd rest in
      if e.speaker_is_online (mem sp)
      then (sp, record hd { channel = (mem sp).channel }) ∷ later
      else later

  announced_one :
      (hd : ControlPackage) (sp : ℕ) (rest : List ℕ) (w : World T)
      → (later : (v : World T)
          → v.speakers ≡ w.speakers
          → format_loop e hd rest v ≡ run e (commands (announced w.speakers.mem hd rest)) v)
      → format_loop e hd rest (
          if is_reachable e (speaker w sp)
          then sent e sp (for_channel e hd sp w) w
          else with_buffer e (for_channel e hd sp w) w)
        ≡ run e
            (commands (announced w.speakers.mem hd rest))
            (transmitted sp (with_buffer e (for_channel e hd sp w) w))
  announced_one hd sp rest w later = elim (Bool-cases (is_reachable e (speaker w sp))) [
    | inl reach ↦ rw reach (later _ refl)
    | inr away ↦ rw away (later _ refl)
  ]

  pub format_loop-run :
      (hd : ControlPackage) (sps : List ℕ) (w : World T)
      → All (λ sp. sp ≢ 0) sps
      → format_loop e hd sps w ≡ run e (commands (announced w.speakers.mem hd sps)) w
  unfolding format_loop run act
  format_loop-run hd [] w live = refl
  format_loop-run hd (sp ∷ rest) w live =
      let hd' = for_channel e hd sp w in
      format_loop-step e hd sp rest w live.0
      ∙ elim (Bool-cases (e.speaker_is_online (speaker w sp))) [
        | inl online ↦ rw online (
            announced_one hd sp rest w (λ v same.
              format_loop-run hd rest v live.1
              ∙ ap (λ st. run e (commands (announced st.mem hd rest)) v) same)
            ∙ sym (
                run-transmit sp (commands (announced w.speakers.mem hd rest)) (with_buffer e hd' w)
                  live.0))
        | inr away ↦ rw away (format_loop-run hd rest w live.1)
      ]
