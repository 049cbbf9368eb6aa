-- ===== src/World.antt =====
-- The state of the server process: the file-level variables of each source file, the exit flag, the
-- speakers, and the calls made so far, newest first. Log output is left out.
use castserver.Base.{ℕ, ◌≡◌, ◌≢◌, fun_ext, arith, ℤ, Bool, List, ◌∷◌, Option, if◌then◌else◌, ◌==◌}
use castserver.Types.{Addr, Interface, Speaker, DetectResponse, DetectFn, Call}
use castserver.Env.{Store, Env}
pub use castserver.Process.{
  Outcome, done, exited, fault, cut, Proc, ◌>>=◌, ◌>>◌, pure, get, modify, exit, undefined,
  out_of_rounds, when, state_of, settled, >>=-done, >>=-cong, >>=-assoc, >>=-endless, guard-endless,
}

-- server_detect.c; `conn` is its family and its `read_fd`.
pub record Detect : Type 0 where
  pub interface : Interface
  pub multicast_group : Addr
  pub multicast_port : ℕ
  pub detect_cb : Option DetectFn
  pub server_notify_resp : DetectResponse
  pub online_detect_thread : Bool
  pub family : ℕ
  pub read_fd : ℤ

-- server_speaker_control.c
pub record Control : Type 0 where
  pub server_channel_list : List ℕ
  pub listen_ip : Addr
  pub buffer : List ℕ
  pub family : ℕ
  pub read_fd : ℤ

-- server_speaker_pusher.c
pub record Pusher : Type 0 where
  pub package_seq : ℕ
  pub pcm_head : List ℕ
  pub channel_buffer : List ℕ
  pub listen_ip : Addr
  pub family : ℕ
  pub read_fd : ℤ

-- command_control.c
pub record Command : Type 0 where
  pub listenfd : ℤ
  pub sock_path : List ℕ
  pub socket_buffer : List ℕ

-- server_http.c; `d` is true when a daemon was started.
pub record Http : Type 0 where
  pub d : Bool
  pub root_path : List ℕ

-- `receiver_fd` is the `read_fd` of server_receiver.c.
pub record World (T : Type 0) : Type 0 where
  pub trace : List Call
  pub speakers : Store T
  pub exit_thread_flag : Bool
  pub detect : Detect
  pub control : Control
  pub pusher : Pusher
  pub mutex : Interface
  pub command : Command
  pub http : Http
  pub receiver_fd : ℤ

-- Shut: the proofs go by its three laws.
unfoldable pub write : (ℕ → Speaker) → ℕ → Speaker → ℕ → Speaker
write mem p v q = if q == p then v else mem q

pub write_self : (mem : ℕ → Speaker) (p : ℕ) (v : Speaker) → write mem p v p ≡ v
unfolding write
write_self mem p v = ground arith

pub write_ne : (mem : ℕ → Speaker) (p q : ℕ) (v : Speaker) → q ≢ p → write mem p v q ≡ mem q
unfolding write
write_ne mem p q v h = ground arith

pub write-write :
    (mem : ℕ → Speaker) (p : ℕ) (v u : Speaker) → write (write mem p v) p u ≡ write mem p u
unfolding write
write-write mem p v u = fun_ext λ q. ground arith

abbrev pub M : Type 0 → Type 0 → Type 0
M T A = Proc (World T) A

module _ {T : Type 0} where
  -- A call of the system, and the result that it gives after the history so far.
  abbrev pub sys : Env T → Call → M T ℤ
  sys e c w = done (e.ret w.trace c) (record w { trace = c ∷ w.trace })

  -- The speakers behind a pointer.
  abbrev pub speaker : World T → ℕ → Speaker
  speaker w p = w.speakers.mem p

  abbrev pub write_mem : Store T → ℕ → Speaker → Store T
  write_mem s p v = record s { mem = write s.mem p v }

  abbrev pub update_speaker : ℕ → (Speaker → Speaker) → M T (Unit {0})
  update_speaker p f w =
      done tt (record w { speakers = write_mem w.speakers p (f (w.speakers.mem p)) })

  abbrev pub update_store : (Store T → Store T) → M T (Unit {0})
  update_store f w = done tt (record w { speakers = f w.speakers })
