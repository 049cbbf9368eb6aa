-- ===== src/Threads/Race.antt =====
-- Two threads that send commands: which speakers are sent something, and what it can be.
use castserver.Base.{ℕ, ℤ, List, [], ◌∷◌}
use castserver.Types.{Speaker, Call, ControlPackage}
use castserver.Env.{Env}
use castserver.World.{World}
use castserver.Threads.{Action, encode, transmit}
use castserver.Threads.Datagrams.{datagram}

-- The commands that are encoded.
abbrev pub packages : List Action → List ControlPackage
packages [] = []
packages (encode hd ∷ rest) = hd ∷ packages rest
packages (transmit sp ∷ rest) = packages rest

-- The first action, if any, is no `transmit`.
abbrev Begins : List Action → Type 0
Begins [] = Unit
Begins (encode hd ∷ rest) = Unit
Begins (transmit sp ∷ rest) = ⊥

module _ {T : Type 0} (e : Env T) where
  -- A command as it arrives at a speaker.
  abbrev pub arrives : ℤ → (ℕ → Speaker) → ℕ × ControlPackage → Call
  arrives fd mem (sp, hd) = datagram e fd mem (e.control_package_encode [] hd) sp
