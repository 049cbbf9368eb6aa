-- ===== src/Detect/Monitor.antt =====
-- Speakers that stay silent go offline (thread_online_detect).
use castserver.Base.{
  ℕ, is_nonpos, ◌≡◌, refl, sym, ap, ◌∙◌, ◌≢◌, List, [], ◌∷◌, arith, All, All-map₂, if◌then◌else◌,
}
use castserver.Types.{Speaker}
use castserver.Env.{Env, Store}
use castserver.World.{
  World, done, state_of, settled, speaker, write, write_self, write_ne, write-write, write_mem,
}
use castserver.Pusher.Send.{let_go, server_sppush_disconnect_lem}
use castserver.Detect.{online_detect_loop}

module _ {T : Type 0} (e : Env T) where
  -- SPEAKER_OFFLINE changes the struct of the speaker, by `off`, and nothing else.
  abbrev pub TakesOffline : (Speaker → Speaker) → Type 0
  TakesOffline off =
      (st : Store T) (sp : ℕ) → e.speaker_offline st sp ≡ write_mem st sp (off (st.mem sp))

  -- A speaker after one round of the monitor.
  abbrev pub aged : (Speaker → Speaker) → Speaker → Speaker
  aged off s =
      let older = record s { timeout = e.timeout_pred s.timeout } in
      if is_nonpos s.timeout then off older else older

  -- No item of the list is `p`.
  abbrev pub Absent : ℕ → List ℕ → Type 0
  Absent p sps = All (λ q. p ≢ q) sps

  abbrev pub Distinct : List ℕ → Type 0
  Distinct [] = Unit
  Distinct (sp ∷ rest) = Absent sp rest × Distinct rest

  abbrev pub turned : (Speaker → Speaker) → ℕ → World T → World T
  turned off sp w = record w { speakers = write_mem w.speakers sp (aged off (speaker w sp)) }

  abbrev pub after_turn : (Speaker → Speaker) → ℕ → World T → World T
  after_turn off sp w =
      if is_nonpos (speaker w sp).timeout then let_go e sp (turned off sp w) else turned off sp w

  pub online_detect_loop-step :
      (off : Speaker → Speaker) (acts : TakesOffline off) (sp : ℕ) (rest : List ℕ) (w : World T)
      → sp ≢ 0
      → online_detect_loop e (sp ∷ rest) w ≡ online_detect_loop e rest (after_turn off sp w)
  unfolding online_detect_loop
  online_detect_loop-step off acts sp rest w live =
      let older = record (speaker w sp) { timeout = e.timeout_pred (speaker w sp).timeout } in
      let st = write_mem w.speakers sp older in
      ground (
        arith,
        acts st sp,
        write_self w.speakers.mem sp older,
        write-write w.speakers.mem sp older (off older),
        server_sppush_disconnect_lem e sp
            (record w { speakers = write_mem w.speakers sp (off older) }) live,
      )

  speakers-after_turn :
      (off : Speaker → Speaker) (sp : ℕ) (w : World T)
      → (after_turn off sp w).speakers ≡ write_mem w.speakers sp (aged off (speaker w sp))
  speakers-after_turn off sp w = ground arith

  -- What one pass over the speakers leaves: each of them aged once, all others as they were.
  pub record Aged (off : Speaker → Speaker) (sps : List ℕ) (w v : World T) : Type 0 where
    pub inside : All (λ p. speaker v p ≡ aged off (speaker w p)) sps
    pub outside : (p : ℕ) → Absent p sps → speaker v p ≡ speaker w p
    pub table : v.speakers.table ≡ w.speakers.table
    pub flag : v.exit_thread_flag ≡ w.exit_thread_flag

  Aged-cons :
      (off : Speaker → Speaker) (sp : ℕ) (rest : List ℕ) (w v : World T)
      → Absent sp rest
      → Aged off rest (after_turn off sp w) v
      → Aged off (sp ∷ rest) w v
  Aged-cons off sp rest w v apart r =
      let u = after_turn off sp w in
      let struct = aged off (speaker w sp) in
      let mem : (p : ℕ) → speaker u p ≡ write w.speakers.mem sp struct p =
        λ p. ap (λ st. st.mem p) (speakers-after_turn off sp w) in
      let elsewhere : (p : ℕ) → p ≢ sp → speaker u p ≡ speaker w p =
        λ p ne. mem p ∙ write_ne w.speakers.mem sp p struct ne in
      record {
        inside = (
          r.outside sp apart ∙ (mem sp ∙ write_self w.speakers.mem sp struct),
          All-map₂ _ _ _ (λ p ne old. old ∙ ap (aged off) (elsewhere p (λ q. ne (sym q)))) rest
              apart r.inside,
        );
        outside = λ p absent. r.outside p absent.1 ∙ elsewhere p absent.0;
        table = r.table ∙ ap (λ st. st.table) (speakers-after_turn off sp w);
        flag = r.flag ∙ ground arith;
      }

  pub online_detect_loop-Aged :
      (off : Speaker → Speaker) (acts : TakesOffline off) (sps : List ℕ) (w : World T)
      → All (λ sp. sp ≢ 0) sps
      → Distinct sps
      → (online_detect_loop e sps w ≡ done tt (state_of (online_detect_loop e sps w)))
        × Aged off sps w (state_of (online_detect_loop e sps w))
  unfolding online_detect_loop
  online_detect_loop-Aged off acts [] w live apart =
      (refl, record { inside = tt; outside = λ p h. refl; table = refl; flag = refl })
  online_detect_loop-Aged off acts (sp ∷ rest) w live apart =
      let (r, a) = online_detect_loop-Aged off acts rest (after_turn off sp w) live.1 apart.1 in
      settled (Aged off (sp ∷ rest) w) _ tt _
        (online_detect_loop-step off acts sp rest w live.0 ∙ r)
        (Aged-cons off sp rest w _ apart.0 a)
