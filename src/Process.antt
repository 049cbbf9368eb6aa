-- ===== src/Process.antt =====
-- How a function of the sources runs: a state passing computation that returns, ends the process, or
-- meets undefined behaviour. An endless loop is run for a number of rounds.
pub mod Returns
use castserver.Base.{true, false}
use castserver.Base.{arith}
use castserver.Base.{ℕ, ◌≡◌, ◌≢◌, refl, Bool, if◌then◌else◌}

-- `exited` is the end of the process with a status; `fault` is undefined behaviour or a failed assert.
-- `cut` is a computation that still ran after the rounds that it was given.
pub data Outcome (S A : Type 0) : Type 0 where
  done : A → S → Outcome S A
  exited : ℕ → S → Outcome S A
  fault : S → Outcome S A
  cut : S → Outcome S A

abbrev pub Proc : Type 0 → Type 0 → Type 0
Proc S A = S → Outcome S A

module _ {S : Type 0} where
  infixl 5 ◌>>=◌ ◌>>◌
  abbrev pub ◌>>=◌ : {A B : Type 0} → Proc S A → (A → Proc S B) → Proc S B
  ◌>>=◌ m f w = elim (m w) [
    | done a v ↦ f a v
    | exited n v ↦ exited n v
    | fault v ↦ fault v
    | cut v ↦ cut v
  ]

  abbrev pub ◌>>◌ : {A B : Type 0} → Proc S A → Proc S B → Proc S B
  m >> k = m >>= λ _. k

  abbrev pub pure : {A : Type 0} → A → Proc S A
  pure a w = done a w

  abbrev pub get : Proc S S
  get w = done w w

  abbrev pub modify : (S → S) → Proc S (Unit {0})
  modify f w = done tt (f w)

  -- exit(n)
  abbrev pub exit : {A : Type 0} → ℕ → Proc S A
  exit n w = exited n w

  abbrev pub undefined : {A : Type 0} → Proc S A
  undefined w = fault w

  -- No rounds are left.
  abbrev pub out_of_rounds : {A : Type 0} → Proc S A
  out_of_rounds w = cut w

  abbrev pub when : Bool → Proc S (Unit {0}) → Proc S (Unit {0})
  when b m = if b then m else pure tt

  abbrev pub state_of : {A : Type 0} → Outcome S A → S
  state_of (done a w) = w
  state_of (exited n w) = w
  state_of (fault w) = w
  state_of (cut w) = w

  -- What holds of the state that a computation is known to reach holds of its outcome.
  pub settled :
      {A : Type 0} (P : S → Type 0) (o : Outcome S A) (a : A) (v : S)
      → o ≡ done a v
      → P v
      → (o ≡ done a (state_of o)) × P (state_of o)
  settled P o a v q p = rw q (refl, p)

  pub >>=-done :
      {A B : Type 0} (m : Proc S A) (f : A → Proc S B) (w v : S) (a : A)
      → m w ≡ done a v
      → (m >>= f) w ≡ f a v
  >>=-done m f w v a q = rw (q, ◌>>=◌)

  then_with :
      {A B : Type 0} (f g : A → Proc S B) (o : Outcome S A) (w : S)
      → ((a : A) (v : S) → o ≡ done a v → f a v ≡ g a v)
      → ((λ _. o) >>= f) w ≡ ((λ _. o) >>= g) w
  then_with f g (done a v) w h = h a v refl
  then_with f g (exited n v) w h = refl
  then_with f g (fault v) w h = refl
  then_with f g (cut v) w h = refl

  -- Two computations with a common start agree when they do after each result of the start.
  pub >>=-cong :
      {A B : Type 0} (m : Proc S A) (f g : A → Proc S B) (w : S)
      → ((a : A) (v : S) → m w ≡ done a v → f a v ≡ g a v)
      → (m >>= f) w ≡ (m >>= g) w
  >>=-cong m f g w h = then_with f g (m w) w h

  twice :
      {A B C : Type 0} (f : A → Proc S B) (g : B → Proc S C) (o : Outcome S A) (w : S)
      → (((λ _. o) >>= f) >>= g) w ≡ ((λ _. o) >>= λ a. f a >>= g) w
  twice f g (done a v) w = refl
  twice f g (exited n v) w = refl
  twice f g (fault v) w = refl
  twice f g (cut v) w = refl

  pub >>=-assoc :
      {A B C : Type 0} (m : Proc S A) (f : A → Proc S B) (g : B → Proc S C) (w : S)
      → ((m >>= f) >>= g) w ≡ (m >>= λ a. f a >>= g) w
  >>=-assoc m f g w = twice f g (m w) w

  stopped :
      {A B : Type 0} (f : A → Proc S B) (o : Outcome S A) (w v : S) (b : B)
      → ((a : A) (u : S) → o ≡ done a u → f a u ≢ done b v)
      → ((λ _. o) >>= f) w ≢ done b v
  stopped f (done a u) w v b h = h a u refl
  stopped f (exited n u) w v b h = λ eq. ground arith
  stopped f (fault u) w v b h = λ eq. ground arith
  stopped f (cut u) w v b h = λ eq. ground arith

  -- A computation does not return when it does not after any result of its start.
  pub >>=-endless :
      {A B : Type 0} (m : Proc S A) (f : A → Proc S B) (w v : S) (b : B)
      → ((a : A) (u : S) → m w ≡ done a u → f a u ≢ done b v)
      → (m >>= f) w ≢ done b v
  >>=-endless m f w v b h = stopped f (m w) w v b h

  -- A guard against undefined behaviour returns no more than what it guards.
  pub guard-endless :
      {A : Type 0} (b : Bool) (m : Proc S A) (w v : S) (a : A)
      → m w ≢ done a v
      → (if b then undefined else m) w ≢ done a v
  guard-endless true m w v a h = λ eq. ground arith
  guard-endless false m w v a h = h

  pub else-cong :
      {A : Type 0} (b : Bool) (m n k : Proc S A) (w : S)
      → n w ≡ k w
      → (if b then m else n) w ≡ (if b then m else k) w
  else-cong true m n k w h = refl
  else-cong false m n k w h = h

  pub else-branch :
      {A : Type 0} (b : Bool) (m n : Proc S A) (w : S) → b ≡ false → (if b then m else n) w ≡ n w
  else-branch b m n w h = rw h refl

  state_of-after :
      {A B : Type 0} (R : S → S → Type 0) (trans : (w v u : S) → R w v → R v u → R w u)
      (f : A → Proc S B) (o : Outcome S A) (w : S)
      → R w (state_of o)
      → ((a : A) (v : S) → R v (state_of (f a v)))
      → R w (state_of (((λ _. o) >>= f) w))
  state_of-after R trans f (done a v) w first second = trans w v _ first (second a v)
  state_of-after R trans f (exited n v) w first second = first
  state_of-after R trans f (fault v) w first second = first
  state_of-after R trans f (cut v) w first second = first

  -- What relates the state before to that after each part of a computation relates it to that after
  -- the whole.
  pub state_of-bind :
      {A B : Type 0} (R : S → S → Type 0) (trans : (w v u : S) → R w v → R v u → R w u)
      (m : Proc S A) (f : A → Proc S B) (w : S)
      → R w (state_of (m w))
      → ((a : A) (v : S) → R v (state_of (f a v)))
      → R w (state_of ((m >>= f) w))
  state_of-bind R trans m f w first second = state_of-after R trans f (m w) w first second

  seen-after :
      {A B C : Type 0} (g : S → C) (f : A → Proc S B) (o : Outcome S A) (w : S)
      → ((a : A) (v : S) → g (state_of (f a v)) ≡ g v)
      → g (state_of (((λ _. o) >>= f) w)) ≡ g (state_of o)
  seen-after g f (done a v) w same = same a v
  seen-after g f (exited n v) w same = refl
  seen-after g f (fault v) w same = refl
  seen-after g f (cut v) w same = refl

  -- A view of the state that a second part leaves alone is the view after the first part.
  pub seen-bind :
      {A B C : Type 0} (g : S → C) (m : Proc S A) (f : A → Proc S B) (w : S)
      → ((a : A) (v : S) → g (state_of (f a v)) ≡ g v)
      → g (state_of ((m >>= f) w)) ≡ g (state_of (m w))
  seen-bind g m f w same = seen-after g f (m w) w same
