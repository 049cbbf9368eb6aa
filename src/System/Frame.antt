-- ===== src/System/Frame.antt =====
-- What a computation of the running server keeps, whatever its outcome.
use castserver.Process.{state_of-bind}
use castserver.Base.{All-map}
use castserver.Base.{All, All-append}
use castserver.Pusher.{next_seq}
use castserver.Pusher.Sequence.{next_seq_lem}
use castserver.Shutdown.{set_notify_type}
use castserver.Base.{
  ℕ, ◌≡◌, refl, sym, ap, ◌∙◌, Bool, true, false, List, [], ◌∷◌, ◌++◌, append_assoc, if◌then◌else◌,
}
use castserver.Types.{Call, Speaker}
use castserver.Env.{Env, Store}
use castserver.World.{
  World, M, ◌>>=◌, pure, get, modify, undefined, out_of_rounds, sys, state_of, update_speaker,
  update_store,
}
use castserver.Pusher.Sequence.{IsSeq}

-- The calls that serve: none opens a listening socket, waits for a message, or ends a part.
abbrev pub is_serving : Call → Bool
is_serving (Call.socket family type) = true
is_serving (Call.connect fd to) = true
is_serving (Call.sendto fd packet to) = true
is_serving (Call.send fd packet) = true
is_serving (Call.shutdown fd) = true
is_serving (Call.close fd) = true
is_serving (Call.gettimeofday) = true
is_serving (Call.sleep seconds) = true
is_serving call = false

module _ {T : Type 0} (p : Call → Bool) where
  -- From `w` to `v` no socket of the server and no flag changes, only calls that pass the test were
  -- added to the history, the package number stays in its range, and the next answer to a speaker
  -- stays no notice.
  pub record Frame (w v : World T) : Type 0 where
    pub detect_fd : v.detect.read_fd ≡ w.detect.read_fd
    pub control_fd : v.control.read_fd ≡ w.control.read_fd
    pub pusher_fd : v.pusher.read_fd ≡ w.pusher.read_fd
    pub listen_fd : v.command.listenfd ≡ w.command.listenfd
    pub flag : v.exit_thread_flag ≡ w.exit_thread_flag
    pub history : (calls : List Call) × ((v.trace ≡ calls ++ w.trace) × All (λ c. p c ≡ true) calls)
    pub seq : IsSeq w.pusher.package_seq → IsSeq v.pusher.package_seq
    pub notice : w.detect.server_notify_resp.type ≡ 0 → v.detect.server_notify_resp.type ≡ 0

  -- All of it is the same, the history too.
  abbrev Stays : World T → World T → Type 0
  Stays w v =
      (v.detect.read_fd ≡ w.detect.read_fd)
      × (v.control.read_fd ≡ w.control.read_fd)
      × (v.pusher.read_fd ≡ w.pusher.read_fd)
      × (v.command.listenfd ≡ w.command.listenfd)
      × (v.exit_thread_flag ≡ w.exit_thread_flag)
      × (v.trace ≡ w.trace)
      × (v.pusher.package_seq ≡ w.pusher.package_seq)
      × (v.detect.server_notify_resp ≡ w.detect.server_notify_resp)

  Stays-Frame : (w v : World T) → Stays w v → Frame w v
  Stays-Frame w v (detect, control, pusher, listen, flag, trace, seq, notice) = record {
    detect_fd = detect;
    control_fd = control;
    pusher_fd = pusher;
    listen_fd = listen;
    flag = flag;
    history = ([], (trace, tt));
    seq = λ s. rw seq s;
    notice = λ n. ap (λ r. r.type) notice ∙ n;
  }

  pub Frame-refl : (w : World T) → Frame w w
  Frame-refl w = Stays-Frame w w (refl, refl, refl, refl, refl, refl, refl, refl)

  pub Frame-trans : (w v u : World T) → Frame w v → Frame v u → Frame w u
  Frame-trans w v u a b = record {
    detect_fd = b.detect_fd ∙ a.detect_fd;
    control_fd = b.control_fd ∙ a.control_fd;
    pusher_fd = b.pusher_fd ∙ a.pusher_fd;
    listen_fd = b.listen_fd ∙ a.listen_fd;
    flag = b.flag ∙ a.flag;
    history = (
      b.history.0 ++ a.history.0,
      (
        b.history.1.0
            ∙ (ap (λ t. b.history.0 ++ t) a.history.1.0
                ∙ sym (append_assoc b.history.0 a.history.0 w.trace)),
        All-append _ b.history.0 a.history.0 b.history.1.1 a.history.1.1,
      ),
    );
    seq = λ s. b.seq (a.seq s);
    notice = λ n. b.notice (a.notice n);
  }

  -- A computation that keeps all this from every state.
  pub record Keeps {A : Type 0} (m : M T A) : Type 0 where
    pub run : (w : World T) → Frame w (state_of (m w))

  pub pure-Keeps : {A : Type 0} (a : A) → Keeps (pure a)
  pure-Keeps a = record { run = λ w. Frame-refl w }

  pub undefined-Keeps : {A : Type 0} → Keeps {A = A} undefined
  undefined-Keeps = record { run = λ w. Frame-refl w }

  pub out_of_rounds-Keeps : {A : Type 0} → Keeps {A = A} out_of_rounds
  out_of_rounds-Keeps = record { run = λ w. Frame-refl w }

  pub get-Keeps : Keeps get
  get-Keeps = record { run = λ w. Frame-refl w }

  pub bind-Keeps :
      {A B : Type 0} (m : M T A) (f : A → M T B)
      → Keeps m
      → ((a : A) → Keeps (f a))
      → Keeps (m >>= f)
  bind-Keeps m f a k = record {
    run = λ w. state_of-bind Frame Frame-trans m f w (a.run w) (λ x v. (k x).run v);
  }

  pub if-Keeps :
      {A : Type 0} (b : Bool) (m n : M T A) → Keeps m → Keeps n → Keeps (if b then m else n)
  if-Keeps true m n a b = a
  if-Keeps false m n a b = b

  pub store-Keeps : (f : Store T → Store T) → Keeps (update_store f)
  store-Keeps f = record {
    run = λ w. Stays-Frame w _ (refl, refl, refl, refl, refl, refl, refl, refl);
  }

  pub speaker-Keeps : (p : ℕ) (f : Speaker → Speaker) → Keeps (update_speaker p f)
  speaker-Keeps p f = record {
    run = λ w. Stays-Frame w _ (refl, refl, refl, refl, refl, refl, refl, refl);
  }

  pub sys-Keeps : (e : Env T) (c : Call) → p c ≡ true → Keeps (sys e c)
  sys-Keeps e c passes = record {
    run = λ w. record {
      detect_fd = refl;
      control_fd = refl;
      pusher_fd = refl;
      listen_fd = refl;
      flag = refl;
      history = (c ∷ [], (refl, (passes, tt)));
      seq = λ s. s;
      notice = λ n. n;
    };
  }

  pub buffer-Keeps :
      (g : World T → List ℕ)
      → Keeps (modify (λ w. record w { control = record (w.control) { buffer = g w } }))
  buffer-Keeps g = record {
    run = λ w. Stays-Frame w _ (refl, refl, refl, refl, refl, refl, refl, refl);
  }

  pub channel_list-Keeps :
      (list : List ℕ)
      → Keeps
          (modify (λ w. record w { control = record (w.control) { server_channel_list = list } }))
  channel_list-Keeps list = record {
    run = λ w. Stays-Frame w _ (refl, refl, refl, refl, refl, refl, refl, refl);
  }

  pub channel_buffer-Keeps :
      (g : World T → List ℕ)
      → Keeps (modify (λ w. record w { pusher = record (w.pusher) { channel_buffer = g w } }))
  channel_buffer-Keeps g = record {
    run = λ w. Stays-Frame w _ (refl, refl, refl, refl, refl, refl, refl, refl);
  }

  pub socket_buffer-Keeps :
      (g : World T → List ℕ)
      → Keeps (modify (λ w. record w { command = record (w.command) { socket_buffer = g w } }))
  socket_buffer-Keeps g = record {
    run = λ w. Stays-Frame w _ (refl, refl, refl, refl, refl, refl, refl, refl);
  }

  pub package_seq-Keeps : Keeps (
      modify (λ w. record w {
        pusher = record (w.pusher) { package_seq = next_seq w.pusher.package_seq };
      }))
  package_seq-Keeps = record {
    run = λ w. record {
      detect_fd = refl;
      control_fd = refl;
      pusher_fd = refl;
      listen_fd = refl;
      flag = refl;
      history = ([], (refl, tt));
      seq = λ s. (next_seq_lem w.pusher.package_seq s).0;
      notice = λ n. n;
    };
  }

  pub set_notify_type-Keeps : (e : Env T) → Keeps (set_notify_type e 0)
  set_notify_type-Keeps e = record {
    run = λ w. record {
      detect_fd = refl;
      control_fd = refl;
      pusher_fd = refl;
      listen_fd = refl;
      flag = refl;
      history = ([], (refl, tt));
      seq = λ s. s;
      notice = λ n. refl;
    };
  }

module _ {T : Type 0} (p q : Call → Bool) (weaker : (c : Call) → p c ≡ true → q c ≡ true) where
  Frame-weaken : (w v : World T) → Frame p w v → Frame q w v
  Frame-weaken w v f = record {
    detect_fd = f.detect_fd;
    control_fd = f.control_fd;
    pusher_fd = f.pusher_fd;
    listen_fd = f.listen_fd;
    flag = f.flag;
    history = (f.history.0, (f.history.1.0, All-map _ _ weaker f.history.0 f.history.1.1));
    seq = f.seq;
    notice = f.notice;
  }

  pub Keeps-weaken : {A : Type 0} (m : M T A) → Keeps p m → Keeps q m
  Keeps-weaken m k = record { run = λ w. Frame-weaken w _ (k.run w) }

pub ruleset keeps = (
  get-Keeps, bind-Keeps, if-Keeps, pure-Keeps, undefined-Keeps, out_of_rounds-Keeps, sys-Keeps,
  store-Keeps, speaker-Keeps, buffer-Keeps, channel_list-Keeps, channel_buffer-Keeps,
  package_seq-Keeps, socket_buffer-Keeps, set_notify_type-Keeps,
)
