-- ===== src/Detect/Known.antt =====
-- Which speakers the server knows, as a set of numbers: what `common/` promises of its table, and the
-- computations that leave the set alone.
use castserver.Base.{
  ℕ, ◌≡◌, refl, ap, ◌∙◌, ◌≢◌, Bool, true, false, not, ◌||◌, List, Option, none, some, ◌==◌,
  if◌then◌else◌,
}
use castserver.Types.{
  Addr, Speaker, Call, ControlPackage, DetectRequest, DetectFn, speaker_added_handle,
}
use castserver.Env.{Env, Store}
use castserver.World.{
  World, M, ◌>>=◌, pure, get, modify, undefined, sys, state_of, write_mem, update_speaker,
  update_store,
}
use castserver.Process.{seen-bind}
use castserver.Shutdown.{set_notify_type}
use castserver.Control.{
  server_spctrl_speaker, server_spctrl_sendto_speaker, server_spctrl_set_time, utime,
}
use castserver.Pusher.{server_sppush_connect}
use castserver.Detect.{call_detect_cb, welcome, respond}

module _ {T : Type 0} (e : Env T) where
  abbrev pub knows : Store T → ℕ → Bool
  knows st id = not (e.find_speaker_by_id st id == 0)

  -- The speaker table of `common/`: writing a struct that keeps its number, and checking whether a
  -- speaker is online, change nothing about who is found; a speaker that is added is found, and nobody
  -- else is lost or found by it.
  pub record SpeakerTable : Type 0 where
    pub written :
        (st : Store T) (p : ℕ) (s : Speaker)
        → s.id ≡ (st.mem p).id
        → (id : ℕ) → e.find_speaker_by_id (write_mem st p s) id ≡ e.find_speaker_by_id st id
    pub header_id : (s : Speaker) (header : DetectRequest) → (e.init_from_header s header).id ≡ s.id
    pub checked :
        (st : Store T) (p id : ℕ)
        → e.find_speaker_by_id (e.speaker_check_online st p) id ≡ e.find_speaker_by_id st id
    pub added :
        (st : Store T) (id line channel j : ℕ)
        → ((e.add_speaker st id line channel).0 ≢ 0)
          × (knows (e.add_speaker st id line channel).1 j ≡ (j == id || knows st j))

  -- The computation adds and loses no speaker.
  pub record Knows {A : Type 0} (m : M T A) : Type 0 where
    pub run : (w : World T) (j : ℕ) → knows (state_of (m w)).speakers j ≡ knows w.speakers j

  pub pure-Knows : {A : Type 0} (a : A) → Knows (pure a)
  pure-Knows a = record { run = λ w j. refl }

  undefined-Knows : {A : Type 0} → Knows {A = A} undefined
  undefined-Knows = record { run = λ w j. refl }

  get-Knows : Knows get
  get-Knows = record { run = λ w j. refl }

  sys-Knows : (c : Call) → Knows (sys e c)
  sys-Knows c = record { run = λ w j. refl }

  pub if-Knows :
      {A : Type 0} (b : Bool) (m n : M T A) → Knows m → Knows n → Knows (if b then m else n)
  if-Knows true m n a b = a
  if-Knows false m n a b = b

  pub bind-Knows :
      {A B : Type 0} (m : M T A) (f : A → M T B)
      → Knows m
      → ((a : A) → Knows (f a))
      → Knows (m >>= f)
  bind-Knows m f a k = record {
    run = λ w j. seen-bind (λ v. knows v.speakers j) m f w (λ x v. (k x).run v j) ∙ a.run w j;
  }

  buffer-Knows :
      (g : World T → List ℕ)
      → Knows (modify (λ w. record w { control = record (w.control) { buffer = g w } }))
  buffer-Knows g = record { run = λ w j. refl }

  notify-Knows : (t : ℕ) → Knows (set_notify_type e t)
  notify-Knows t = record { run = λ w j. refl }

  ruleset known = (
    get-Knows, bind-Knows, if-Knows, pure-Knows, undefined-Knows, sys-Knows, buffer-Knows,
    notify-Knows,
  )

  module _ (table : SpeakerTable) where
    pub speaker-Knows :
        (p : ℕ) (f : Speaker → Speaker)
        → ((s : Speaker) → (f s).id ≡ s.id)
        → Knows (update_speaker {T = T} p f)
    speaker-Knows p f keeps_id = record {
      run = λ w j.
          ap (λ q. not (q == 0)) (table.written w.speakers p _ (keeps_id (w.speakers.mem p)) j);
    }

    pub check-Knows : (p : ℕ) → Knows (update_store (λ st. e.speaker_check_online st p))
    check-Knows p = record { run = λ w j. ap (λ q. not (q == 0)) (table.checked w.speakers p j) }

    command-Knows : (sp : ℕ) (hd : ControlPackage) → Knows (server_spctrl_speaker e sp hd)
    unfolding server_spctrl_speaker server_spctrl_sendto_speaker
    command-Knows sp hd = search known depth 24

    time-Knows : (sp : ℕ) → Knows (server_spctrl_set_time e sp)
    unfolding server_spctrl_set_time utime
    time-Knows sp = search (known, speaker-Knows) depth 24

    connect-Knows : (sp : ℕ) → Knows (server_sppush_connect e sp)
    unfolding server_sppush_connect
    connect-Knows sp = search (known, speaker-Knows) depth 24

    call_detect_cb-Knows : (cb : Option DetectFn) (sp : ℕ) → Knows (call_detect_cb e cb sp)
    unfolding call_detect_cb
    call_detect_cb-Knows none sp = search known depth 24
    call_detect_cb-Knows (some speaker_added_handle) sp = search (known, command-Knows) depth 24

    pub welcome-Knows : (sp : ℕ) (support : Bool) → Knows (welcome e sp support)
    unfolding welcome
    welcome-Knows sp support =
        search (known, connect-Knows, time-Knows, command-Knows, call_detect_cb-Knows) depth 24

    pub respond-Knows : (addr : Addr) → Knows (respond e addr)
    unfolding respond
    respond-Knows addr = search known depth 24
