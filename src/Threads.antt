-- ===== src/Threads.antt =====
-- server_speaker_control.c by single actions: the event loop and the command thread both send control
-- commands, by way of one static buffer and with no lock. server_spctrl_speaker encodes a command into
-- the buffer, and server_spctrl_sendto_speaker sends what the buffer holds then.
pub mod Shuffle
pub mod Datagrams
pub mod Race
pub mod Outcomes
pub mod Monitor
mod Tests
use castserver.Base.{ℕ, List, [], ◌∷◌, ◌++◌}
use castserver.Types.{ControlPackage}
use castserver.Env.{Env}
use castserver.World.{World, M, ◌>>=◌, ◌>>◌, pure, get, modify}
use castserver.Control.{server_spctrl_sendto_speaker}

-- What a thread does between two moments at which the other may run.
pub data Action : Type 0 where
  encode : ControlPackage → Action
  transmit : ℕ → Action

-- The two actions of a command for a speaker, and those of some commands.
abbrev pub command : ℕ → ControlPackage → List Action
command sp hd = encode hd ∷ transmit sp ∷ []

abbrev pub commands : List (ℕ × ControlPackage) → List Action
commands [] = []
commands ((sp, hd) ∷ rest) = encode hd ∷ transmit sp ∷ commands rest

-- The speakers for which there is an action `transmit`, in their order.
abbrev pub targets : List Action → List ℕ
targets [] = []
targets (encode hd ∷ rest) = targets rest
targets (transmit sp ∷ rest) = sp ∷ targets rest

module _ {T : Type 0} (e : Env T) where
  unfoldable pub act : Action → M T (Unit {0})
  act (encode hd) = modify (λ w. record w {
    control = record (w.control) { buffer = e.control_package_encode w.control.buffer hd };
  })
  act (transmit sp) = do
    w ← get
    server_spctrl_sendto_speaker e sp w.control.buffer e.control_package_size
    pure tt

  unfoldable pub run : List Action → M T (Unit {0})
  run [] = pure tt
  run (a ∷ rest) = act a >> run rest
