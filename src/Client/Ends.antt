-- ===== src/Client/Ends.antt =====
-- The end of the client, from its command line on.
use castserver.Base.{ℕ, ◌≡◌, refl, ◌⊎◌, inl, inr, Bool, true, false, List, [], ◌∷◌, if◌then◌else◌}
use castserver.Types.{Call}
use castserver.Env.{Env}
use castserver.Process.{Proc, Outcome, done, exited, fault, cut, ◌>>=◌, pure, get, modify, exit}
use castserver.Client.{Client, ClientOpt, client_call}

module _ {T : Type 0} (e : Env T) where
  -- What the client can end with.
  abbrev pub IsStatus : ℕ → Type 0
  IsStatus status = (status ≡ 0) ⊎ ((status ≡ 1) ⊎ (status ≡ e.eerr_socket))

  abbrev Fine : {A : Type 0} → Outcome Client A → Type 0
  Fine (done a v) = Unit
  Fine (exited status v) = IsStatus status
  Fine (fault v) = ⊥
  Fine (cut v) = ⊥

  -- The computation returns, or ends the process with such a status.
  record Settles {A : Type 0} (m : Proc Client A) : Type 0 where
    run : (w : Client) → Fine (m w)

  pure-Settles : {A : Type 0} (a : A) → Settles (pure a)
  pure-Settles a = record { run = λ w. tt }

  get-Settles : Settles get
  get-Settles = record { run = λ w. tt }

  modify-Settles : (f : Client → Client) → Settles (modify f)
  modify-Settles f = record { run = λ w. tt }

  call-Settles : (c : Call) → Settles (client_call e c)
  call-Settles c = record { run = λ w. tt }

  failure-Settles : {A : Type 0} → Settles {A = A} (exit 1)
  failure-Settles = record { run = λ w. inr (inl refl) }

  no_socket-Settles : {A : Type 0} → Settles {A = A} (exit e.eerr_socket)
  no_socket-Settles = record { run = λ w. inr (inr refl) }

  if-Settles :
      {A : Type 0} (b : Bool) (m n : Proc Client A)
      → Settles m
      → Settles n
      → Settles (if b then m else n)
  if-Settles true m n a b = a
  if-Settles false m n a b = b

  fine-after :
      {A B : Type 0} (f : A → Proc Client B) (k : (a : A) → Settles (f a)) (o : Outcome Client A)
      (w : Client)
      → Fine o
      → Fine (((λ _. o) >>= f) w)
  fine-after f k (done a v) w h = (k a).run v
  fine-after f k (exited n v) w h = h
  fine-after f k (fault v) w h = h
  fine-after f k (cut v) w h = h

  bind-Settles :
      {A B : Type 0} (m : Proc Client A) (f : A → Proc Client B)
      → Settles m
      → ((a : A) → Settles (f a))
      → Settles (m >>= f)
  bind-Settles m f a k = record { run = λ w. fine-after f k (m w) w (a.run w) }

  ruleset settling = (
    get-Settles, bind-Settles, if-Settles, pure-Settles, modify-Settles, call-Settles,
    failure-Settles, no_socket-Settles,
  )

  -- No option is -L, whose argument is copied from NULL.
  abbrev pub NoList : List ClientOpt → Type 0
  NoList [] = Unit
  NoList (ClientOpt.speaker_list ∷ rest) = ⊥
  NoList (ClientOpt.any_other ∷ rest) = NoList rest
  NoList (ClientOpt.audio_file path ∷ rest) = NoList rest
  NoList (ClientOpt.log_level level ∷ rest) = NoList rest

  -- The computation ends the process with such a status.
  record Ends {A : Type 0} (m : Proc Client A) : Type 0 where
    run : (w : Client) → (status : ℕ) × ((v : Client) × ((m w ≡ exited status v) × IsStatus status))
