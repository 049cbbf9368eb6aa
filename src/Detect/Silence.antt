-- ===== src/Detect/Silence.antt =====
-- Rounds of the monitor thread, and a speaker that stays silent (thread_online_detect).
use castserver.Base.{
  ℕ, zero, suc, ℤ, pos, is_nonpos, ◌≡◌, ap, ◌∙◌, ◌≢◌, Bool, not, true, false, List, ◌∷◌, All, IsIn,
  All-lookup, if◌then◌else◌,
}
use castserver.Types.{Speaker, Call}
use castserver.Env.{Env}
use castserver.World.{World, M, ◌>>◌, done, state_of, settled, >>=-done, sys, pure, speaker}
use castserver.Detect.{online_detect_loop, thread_online_detect}
use castserver.Detect.Monitor.{TakesOffline, aged, Distinct, Aged, online_detect_loop-Aged}

module _ {T : Type 0} (e : Env T) where
  -- The states that the monitor leaves, round by round.
  abbrev pub rounds : ℕ → World T → World T
  rounds zero w = w
  rounds (suc n) w = rounds n (state_of (thread_online_detect e w))

  -- The server runs, and SPEAKER_FOREACH goes over `sps`, whatever the structs hold.
  pub record IsWatched (sps : List ℕ) (w : World T) : Type 0 where
    pub running : w.exit_thread_flag ≡ false
    pub each : (mem : ℕ → Speaker) → e.speaker_foreach (record (w.speakers) { mem = mem }) ≡ sps

  -- One round of the monitor over distinct speakers always returns and leaves the monitor running. Each
  -- of them is aged once, and taken offline where its count was not positive; all other speakers, the
  -- table and the exit flag stay as they are. SPEAKER_OFFLINE has to change the struct of its speaker
  -- only.
  pub round-Aged :
      (off : Speaker → Speaker) (acts : TakesOffline e off) (sps : List ℕ) (w : World T)
      → IsWatched sps w
      → All (λ sp. sp ≢ 0) sps
      → Distinct e sps
      → (thread_online_detect e w ≡ done true (state_of (thread_online_detect e w)))
        × Aged e off sps w (state_of (thread_online_detect e w))
        × IsWatched sps (state_of (thread_online_detect e w))
  unfolding thread_online_detect
  round-Aged off acts sps w watched live apart =
      let (r, a) = online_detect_loop-Aged e off acts sps w live apart in
      let v = state_of (online_detect_loop e sps w) in
      let listed : e.speaker_foreach w.speakers ≡ sps = watched.each w.speakers.mem in
      let slept : World T = record v { trace = Call.sleep 5 ∷ v.trace } in
      let over : List ℕ → M T Bool =
        λ l. online_detect_loop e l >> (sys e (Call.sleep 5) >> pure true) in
      let (q, p) =
        settled (λ u. Aged e off sps w u × IsWatched sps u) _ true slept
          (ap (λ b. (if b then pure (not true) else over (e.speaker_foreach w.speakers)) w)
              watched.running
            ∙ (ap (λ l. over l w) listed
                ∙ >>=-done (online_detect_loop e sps) (λ _. sys e (Call.sleep 5) >> pure true) w v
                    tt r))
          (
            record { inside = a.inside; outside = a.outside; table = a.table; flag = a.flag },
            record {
              running = a.flag ∙ watched.running;
              each = λ mem.
                  ap (λ t. e.speaker_foreach (record { table = t; mem = mem })) a.table
                  ∙ watched.each mem;
            },
          ) in
      (q, p.0, p.1)

  abbrev with_timeout : ℤ → Speaker → Speaker
  with_timeout t s = record s { timeout = t }

  aged_at : (off : Speaker → Speaker) (s : Speaker) (t : ℤ) → Speaker
  aged_at off s t =
      if is_nonpos t
      then off (with_timeout (e.timeout_pred t) s)
      else with_timeout (e.timeout_pred t) s

  aged_last :
      (off : Speaker → Speaker) (s : Speaker)
      → s.timeout ≡ pos 0
      → aged e off s ≡ off (record s { timeout = e.timeout_pred (pos 0) })
  unfolding aged_at
  aged_last off s left = ap (aged_at off s) left

  aged_more :
      (off : Speaker → Speaker) (n : ℕ) (s : Speaker)
      → ((m : ℕ) → e.timeout_pred (pos (suc m)) ≡ pos m)
      → s.timeout ≡ pos (suc n)
      → aged e off s ≡ record s { timeout = pos n }
  unfolding aged_at
  aged_more off n s falls left = ap (aged_at off s) left ∙ ap (λ t. with_timeout t s) (falls n)

  watched_speaker :
      (off : Speaker → Speaker) (sps : List ℕ) (sp : ℕ) (w v : World T)
      → Aged e off sps w v
      → IsIn sp sps
      → speaker v sp ≡ aged e off (speaker w sp)
  watched_speaker off sps sp w v a member =
      All-lookup (λ p. speaker v p ≡ aged e off (speaker w p)) sp sps a.inside member

  -- A speaker that stays silent, with `n` rounds left, is not touched but for its count in the first
  -- `n` rounds of the monitor, and is taken offline in the round after: the rounds go over distinct
  -- speakers while the server runs and no request comes in. SPEAKER_OFFLINE has to change the struct
  -- of its speaker only, and the count to fall by one while it is positive.
  pub silent_speaker :
      (off : Speaker → Speaker) (acts : TakesOffline e off) (sps : List ℕ) (sp n : ℕ) (w : World T)
      → ((m : ℕ) → e.timeout_pred (pos (suc m)) ≡ pos m)
      → IsWatched sps w
      → All (λ p. p ≢ 0) sps
      → Distinct e sps
      → IsIn sp sps
      → (speaker w sp).timeout ≡ pos n
      → (speaker (rounds n w) sp ≡ record (speaker w sp) { timeout = pos 0 })
        × (speaker (rounds (suc n) w) sp
            ≡ off (record (speaker w sp) { timeout = e.timeout_pred (pos 0) }))
  silent_speaker off acts sps sp zero w falls watched live apart member left =
      let (r, a, ready) = round-Aged off acts sps w watched live apart in
      let now = watched_speaker off sps sp w _ a member in
      (ap (λ t. with_timeout t (speaker w sp)) left, now ∙ aged_last off (speaker w sp) left)
  silent_speaker off acts sps sp (suc n) w falls watched live apart member left =
      let (r, a, ready) = round-Aged off acts sps w watched live apart in
      let now = watched_speaker off sps sp w _ a member in
      let v = state_of (thread_online_detect e w) in
      let older : speaker v sp ≡ record (speaker w sp) { timeout = pos n } =
        now ∙ aged_more off n (speaker w sp) falls left in
      let (same, gone) =
        silent_speaker off acts sps sp n v falls ready live apart member
          (ap (λ s. s.timeout) older) in
      (
        same ∙ ap (with_timeout (pos 0)) older,
        gone ∙ ap (λ s. off (with_timeout (e.timeout_pred (pos 0)) s)) older,
      )
