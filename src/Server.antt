-- ===== src/Server.antt =====
-- server.c: main.
pub mod Start
pub mod Loop
mod Tests
use castserver.Base.{zero, suc}
use castserver.World.{get, out_of_rounds}
use castserver.Shutdown.{server_deinit}
use castserver.Base.{
  ℕ, ℤ, pos, is_neg, to_u16, Bool, not, List, [], ◌∷◌, codes, Option, none, some, ◌==◌,
  if◌then◌else◌,
}
use castserver.Types.{Addr, Interface, Call, af_inet}
use castserver.Env.{Env}
use castserver.World.{World, M, ◌>>=◌, ◌>>◌, pure, exit, sys}
use castserver.Mutex.{mutex_init}
use castserver.Command.{server_cmdctrl_init}
use castserver.Detect.{DetectConfig}
use castserver.Detect.Socket.{server_detect_init}
use castserver.Control.{SpctrlConfig, server_spctrl_init}
use castserver.Pusher.{SpeakerPushConfig, server_sppush_init}
use castserver.Http.{server_http_init}

-- What getopt gives, with the arguments.
pub data Opt : Type 0 where
  daemon : Opt
  server_address : List ℕ → Opt
  config_file : List ℕ → Opt
  log_level : List ℕ → Opt
  iface : List ℕ → Opt
  port_number : List ℕ → Opt
  group_address : List ℕ → Opt
  help : Opt
  any_other : Opt

-- The local variables that the options set.
pub record Settings : Type 0 where
  pub interface_name : Option (List ℕ)
  pub multicast_port : ℕ
  pub group_ip : Option (List ℕ)

module _ {T : Type 0} (e : Env T) where
  abbrev pub default_settings : Settings
  default_settings = record {
    interface_name = none;
    multicast_port = e.default_multicast_port;
    group_ip = none;
  }

  -- Its text is left out.
  abbrev pub show_help : {A : Type 0} → ℕ → M T A
  show_help status = exit status

  -- The loop over the options.
  unfoldable pub parse : List Opt → Settings → M T Settings
  parse [] s = pure s
  parse (Opt.daemon ∷ rest) s = parse rest s
  parse (Opt.server_address arg ∷ rest) s = parse rest s
  parse (Opt.config_file arg ∷ rest) s = parse rest s
  parse (Opt.log_level arg ∷ rest) s =
      if is_neg (e.log_set_level_from_string arg) then show_help e.eerr_arg else parse rest s
  parse (Opt.iface arg ∷ rest) s = parse rest (record s { interface_name = some arg })
  parse (Opt.port_number arg ∷ rest) s =
      if to_u16 (e.strtol arg) == 0
      then show_help e.eerr_arg
      else parse rest (record s { multicast_port = to_u16 (e.strtol arg) })
  parse (Opt.group_address arg ∷ rest) s = parse rest (record s { group_ip = some arg })
  parse (Opt.help ∷ rest) s = show_help 0
  parse (Opt.any_other ∷ rest) s = show_help e.eerr_arg

  abbrev pub or_exit : Option Interface → M T Interface
  or_exit none = exit e.eerr_arg
  or_exit (some interface) = pure interface

  -- A default interface that cannot be found makes main return -1.
  abbrev pub default_interface : Option (List ℕ) → M T Interface
  default_interface none = exit 255
  default_interface (some name) = or_exit (e.get_interface af_inet name)

  abbrev pub choose_interface : Option (List ℕ) → M T Interface
  choose_interface none = default_interface (e.get_default_interface af_inet)
  choose_interface (some name) = or_exit (e.get_interface af_inet name)

  -- The group, none where none is given; one of another family ends the process.
  abbrev pub choose_group : Option (List ℕ) → M T (Option Addr)
  choose_group none = pure none
  choose_group (some text) =
      if not ((e.addr_stoa text).type == af_inet)
      then show_help e.eerr_arg
      else pure (some (e.addr_stoa text))

  abbrev pub sock_path : List ℕ
  sock_path = codes "/tmp/castspeaker.sock"

  -- From `event_init` to the loop, for the chosen interface, group and port.
  unfoldable pub start : Interface → Option Addr → ℕ → M T (Unit {0})
  start interface group port = do
    sys e Call.event_init
    mutex_init e (some interface)
    server_cmdctrl_init e sock_path
    sys e Call.speaker_init
    server_detect_init e (
        some (record {
          multicast_group = group;
          interface = some interface;
          multicast_port = port;
          data_port = 0;
          added_cb = none;
        }))
    server_spctrl_init e (some (record { ip = some interface.ip; family = af_inet }))
    server_sppush_init e (some (record { ip = some interface.ip; family = af_inet }))
    server_http_init e none
    pure tt

  -- `operands` says whether arguments follow the options.
  unfoldable pub main : List Opt → Bool → M T (Unit {0})
  unfolding parse start
  main options operands = do
    s ← parse options default_settings
    if operands then show_help e.eerr_arg else do
      interface ← choose_interface s.interface_name
      group ← choose_group s.group_ip
      start interface group s.multicast_port

  -- The loop over the events, for a number of turns; `event_start` is a turn of the event loop, which
  -- runs the handlers. Behind it, main returns 0.
  unfoldable pub main_loop : M T (Unit {0}) → ℕ → M T (Unit {0})
  main_loop event_start zero = out_of_rounds
  main_loop event_start (suc rounds) =
      let rest = main_loop event_start rounds in
      do w ← get; if w.exit_thread_flag then (do server_deinit e; pure tt) else do event_start; rest
