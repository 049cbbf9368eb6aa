-- ===== src/Threads/Outcomes.antt =====
-- What can become of two commands that are sent at the same time.
use castserver.Base.{if◌then◌else◌}
use castserver.Base.{ℕ, ℤ, ◌≡◌, ◌≢◌, refl, ap, ◌∙◌, true, List, [], ◌∷◌, map, All, logged, ◌⊎◌}
use castserver.Types.{Speaker, Call, ControlPackage}
use castserver.Env.{Env}
use castserver.World.{World, done, state_of}
use castserver.Control.Send.{is_reachable}
use castserver.Control.Format.{EncodesWhole}
use castserver.Threads.{Action, encode, transmit, command, commands, targets, run}
use castserver.Threads.Shuffle.{Interleaved, over, left, right}
use castserver.Threads.Datagrams.{datagram, datagrams, run-Ran}
use castserver.Threads.Race.{arrives}

-- Of two commands: each speaker is sent its own, or both are sent the same one.
abbrev pub Sent2 : ControlPackage → ControlPackage → ControlPackage → ControlPackage → Type 0
Sent2 hd1 hd2 x y = ((x ≡ hd1) × (y ≡ hd2)) ⊎ (((x ≡ hd2) × (y ≡ hd2)) ⊎ ((x ≡ hd1) × (y ≡ hd1)))

module _ {T : Type 0} (e : Env T) (whole : EncodesWhole e) (fd : ℤ) (mem : ℕ → Speaker) where
  -- One thread alone, or one after the other: each speaker gets its own command.
  pub datagrams-commands :
      (cs : List (ℕ × ControlPackage)) (buffer : List ℕ)
      → All (λ sp. is_reachable e (mem sp) ≡ true) (targets (commands cs))
      → datagrams e fd mem buffer (commands cs) ≡ map (arrives e fd mem) cs
  datagrams-commands [] buffer reach = refl
  datagrams-commands ((sp, hd) ∷ cs) buffer reach =
      let rest = datagrams-commands cs (e.control_package_encode buffer hd) reach.1 in
      rw reach.0 (λ i. datagram e fd mem (whole buffer [] hd i) sp ∷ rest i)

  pair :
      (sp sq : ℕ) (x y : ControlPackage) (b c : List ℕ)
      → is_reachable e (mem sp) ≡ true
      → is_reachable e (mem sq) ≡ true
      → b ≡ e.control_package_encode [] x
      → c ≡ e.control_package_encode [] y
      → (let last = if is_reachable e (mem sq) then datagram e fd mem c sq ∷ [] else [] in
          if is_reachable e (mem sp) then datagram e fd mem b sp ∷ last else last)
        ≡ arrives e fd mem (sp, x) ∷ arrives e fd mem (sq, y) ∷ []
  pair sp sq x y b c reach reach' held held' =
      rw (reach, reach') (λ i. datagram e fd mem (held i) sp ∷ datagram e fd mem (held' i) sq ∷ [])

  module _ (sp1 sp2 : ℕ) (hd1 hd2 : ControlPackage) (reach1 : is_reachable e (mem sp1) ≡ true)
      (reach2 : is_reachable e (mem sp2) ≡ true) where
    abbrev InSomeOrder : ControlPackage → ControlPackage → List Call → Type 0
    InSomeOrder x y calls =
        (calls ≡ arrives e fd mem (sp1, x) ∷ arrives e fd mem (sp2, y) ∷ [])
        ⊎ (calls ≡ arrives e fd mem (sp2, y) ∷ arrives e fd mem (sp1, x) ∷ [])

    abbrev Outcome2 : List Call → Type 0
    Outcome2 calls =
        (x : ControlPackage) × (y : ControlPackage) × Sent2 hd1 hd2 x y × InSomeOrder x y calls

module _ {T : Type 0} (e : Env T) (whole : EncodesWhole e) (sp1 sp2 : ℕ) (hd1 hd2 : ControlPackage)
    (w : World T) (live1 : sp1 ≢ 0) (live2 : sp2 ≢ 0)
    (reach1 : is_reachable e (w.speakers.mem sp1) ≡ true)
    (reach2 : is_reachable e (w.speakers.mem sp2) ≡ true) where
  abbrev arrived : ℕ → ControlPackage → Call
  arrived sp hd = arrives e w.control.read_fd w.speakers.mem (sp, hd)

  Interleaved-targets_live :
      (actions : List Action)
      → Interleaved (command sp1 hd1) (command sp2 hd2) actions
      → All (λ sp. sp ≢ 0) (targets actions)
  Interleaved-targets_live actions (left (left (right (right over)))) = (live1, (live2, tt))
  Interleaved-targets_live actions (left (right (left (right over)))) = (live1, (live2, tt))
  Interleaved-targets_live actions (left (right (right (left over)))) = (live2, (live1, tt))
  Interleaved-targets_live actions (right (right (left (left over)))) = (live2, (live1, tt))
  Interleaved-targets_live actions (right (left (right (left over)))) = (live2, (live1, tt))
  Interleaved-targets_live actions (right (left (left (right over)))) = (live1, (live2, tt))

  -- A command can be lost: of any two threads that send one command each, the second can come in
  -- between, so that the first speaker is sent the command of the second speaker, and its own is
  -- sent to nobody. The conditions are those of `race_outcomes`.
  pub command_overwritten :
      (actions : List Action) × Interleaved (command sp1 hd1) (command sp2 hd2) actions
      × (run e actions w ≡ done tt (state_of (run e actions w)))
      × ((state_of (run e actions w)).trace ≡ arrived sp2 hd2 ∷ arrived sp1 hd2 ∷ w.trace)
  command_overwritten =
      let actions = encode hd1 ∷ encode hd2 ∷ transmit sp1 ∷ transmit sp2 ∷ [] in
      let mixed : Interleaved (command sp1 hd1) (command sp2 hd2) actions =
        left (right (left (right over))) in
      let (r, (same, sends)) = run-Ran e actions w (Interleaved-targets_live actions mixed) in
      (
        actions,
        mixed,
        r,
        sends
            ∙ ap (λ l. logged l w.trace)
                (pair e whole w.control.read_fd w.speakers.mem sp1 sp2 hd2 hd2 _ _ reach1 reach2
                  (whole _ [] hd2) (whole _ [] hd2)),
      )
