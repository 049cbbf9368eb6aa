-- ===== src/System.antt =====
-- The running server: the event loop, the monitor thread and the command thread as steps on its state.
pub mod Frame
pub mod Handlers
pub mod Commands
pub mod Reach
pub mod Returns
pub mod Playback
pub mod Broadcast
pub mod Comeback
pub mod Contacts
mod Tests
use castserver.Base.{ℕ, ℤ, Bool, List, [], ◌∷◌, Option, ◌≡◌}
use castserver.Types.{Sockaddr}
use castserver.Env.{Env}
use castserver.World.{World, M, done}
use castserver.Control.{srv_spctrl_read}
use castserver.Pusher.{srv_sppush_read}
use castserver.Detect.{srv_detect_read, thread_online_detect}
use castserver.Command.{thread_control_socket}

-- A handler that the event loop or a thread runs, with what it is given.
pub data Event : Type 0 where
  detect_message : Sockaddr → List ℕ → ℕ → Event
  control_message : List ℕ → ℕ → Event
  pusher_message : ℕ → Event
  monitor_round : Event
  command_round : ℤ → Event

module _ {T : Type 0} (e : Env T) where
  -- `Step ev w v`: the handler of the event, run on `w` to its end, returns and leaves `v`.
  pub data Step : Event → World T → World T → Type 0 where
    detect_read :
        (src : Sockaddr) (packet : List ℕ) (len : ℕ) (w v : World T) (r : ℤ)
        → srv_detect_read e src packet len w ≡ done r v
        → Step (detect_message src packet len) w v
    control_read :
        (packet : List ℕ) (len : ℕ) (w v : World T) (r : ℤ)
        → srv_spctrl_read e packet len w ≡ done r v
        → Step (control_message packet len) w v
    pusher_read :
        (len : ℕ) (w v : World T) (r : ℤ)
        → srv_sppush_read e len w ≡ done r v
        → Step (pusher_message len) w v
    monitor :
        (w v : World T) (goes_on : Bool)
        → thread_online_detect e w ≡ done goes_on v
        → Step monitor_round w v
    control_socket :
        (rounds : ℕ) (before : ℤ) (w v : World T) (r : Option ℤ)
        → thread_control_socket e rounds before w ≡ done r v
        → Step (command_round before) w v

  -- Some events, one after another.
  pub data Steps : List Event → World T → World T → Type 0 where
    stop : (w : World T) → Steps [] w w
    next :
        (ev : Event) (events : List Event) (w v u : World T)
        → Step ev w v
        → Steps events v u
        → Steps (ev ∷ events) w u
