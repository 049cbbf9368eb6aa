-- ===== src/Process/Returns.antt =====
-- Computations that return a result from every state.
use castserver.Base.{
  ℕ, ◌≡◌, refl, ◌≢◌, ap, ◌∙◌, sym, Bool, Bool-cases, inl, inr, true, false, arith, ◌==◌,
  if◌then◌else◌,
}
use castserver.Process.{Proc, done, exited, ◌>>=◌, pure, get, modify, state_of, >>=-done}

module _ {S : Type 0} where
  -- The computation returns a result from every state: it neither ends the process nor is undefined.
  pub record Returns {A : Type 0} (m : Proc S A) : Type 0 where
    pub run : (w : S) → (a : A) × ((v : S) × (m w ≡ done a v))

  pub get-Returns : Returns get
  get-Returns = record { run = λ w. (w, (w, refl)) }

  pub pure-Returns : {A : Type 0} (a : A) → Returns (pure a)
  pure-Returns a = record { run = λ w. (a, (w, refl)) }

  pub modify-Returns : (f : S → S) → Returns (modify f)
  modify-Returns f = record { run = λ w. (tt, (f w, refl)) }

  pub if-Returns :
      {A : Type 0} (b : Bool) (m n : Proc S A)
      → Returns m
      → Returns n
      → Returns (if b then m else n)
  if-Returns true m n a b = a
  if-Returns false m n a b = b

  pub bind-Returns :
      {A B : Type 0} (m : Proc S A) (f : A → Proc S B)
      → Returns m
      → ((a : A) → Returns (f a))
      → Returns (m >>= f)
  bind-Returns m f r k = record {
    run = λ w.
        let (a, (v, eq)) = r.run w in
        let (b, (u, eq')) = (k a).run v in (b, (u, rw (eq, ◌>>=◌) eq'));
  }

  -- A test for NULL: what follows may use that the pointer is none.
  pub unless_null :
      {A : Type 0} (p : ℕ) (m n : Proc S A)
      → Returns m
      → (p ≢ 0 → Returns n)
      → Returns (if p == 0 then m else n)
  unless_null p m n a b = elim (Bool-cases (p == 0)) [
    | inl null ↦ rw null a
    | inr live ↦ rw live (b (ground arith))
  ]

module _ {S : Type 0} where
  -- What ends the process with a status after every result of a computation that returns.
  pub Returns-exited :
      {A B : Type 0} (m : Proc S A) (f : A → Proc S B) (status : ℕ) (w : S)
      → Returns m
      → ((a : A) (v : S) → f a v ≡ exited status (state_of (f a v)))
      → (m >>= f) w ≡ exited status (state_of ((m >>= f) w))
  Returns-exited m f status w r k =
      let (a, (v, eq)) = r.run w in
      let step = >>=-done m f w v a eq in
      step ∙ (k a v ∙ ap (λ o. exited status (state_of o)) (sym step))

pub ruleset returning = (get-Returns, bind-Returns, if-Returns, pure-Returns, modify-Returns)
