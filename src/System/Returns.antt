-- ===== src/System/Returns.antt =====
-- No message from the network ends the server: the handlers return from every state.
use castserver.Base.{ℕ, refl}
use castserver.Types.{Speaker, Call}
use castserver.Env.{Env, Store}
use castserver.Process.Returns.{Returns, returning}
use castserver.World.{World, sys, update_speaker, update_store}
use castserver.Pusher.{server_sppush_disconnect}

module _ {T : Type 0} where
  store-Returns : (f : Store T → Store T) → Returns (update_store f)
  store-Returns f = record { run = λ w. (tt, (_, refl)) }

  speaker-Returns : (p : ℕ) (f : Speaker → Speaker) → Returns (update_speaker {T = T} p f)
  speaker-Returns p f = record { run = λ w. (tt, (_, refl)) }

  sys-Returns : (e : Env T) (c : Call) → Returns (sys e c)
  sys-Returns e c = record { run = λ w. (_, (_, refl)) }

ruleset returns = (returning, store-Returns, speaker-Returns, sys-Returns)

module _ {T : Type 0} (e : Env T) where
  server_sppush_disconnect-Returns : (sp : ℕ) → Returns (server_sppush_disconnect e sp)
  unfolding server_sppush_disconnect
  server_sppush_disconnect-Returns sp = search returns depth 24
