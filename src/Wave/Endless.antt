-- ===== src/Wave/Endless.antt =====
-- Where cmd_wave never returns: a broken connection, and an empty chunk.
use castserver.Base.{ℕ, ℤ, negsuc, ◌≡◌, List, ◌++◌}
use castserver.Types.{Call}
use castserver.Env.{Env}
use castserver.World.{World}
use castserver.System.Frame.{Frame}

module _ {T : Type 0} (e : Env T) where
  -- Every `recv` on the connection fails, after the history and any further calls.
  abbrev pub IsBroken : ℤ → List Call → Type 0
  IsBroken fd trace =
      (later : List Call) (size : ℕ) → e.ret (later ++ trace) (Call.recv fd size) ≡ negsuc 0
