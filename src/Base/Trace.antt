-- ===== src/Base/Trace.antt =====
-- Calls put on a trace, and the parts of a list that pass a test.
use mathlib.Core.Path.{◌≡◌, refl, ap, ◌∙◌}
use mathlib.Core.Logic.{◌⊎◌, inl, inr}
use mathlib.Core.Bool.{Bool, true}
use mathlib.Core.List.{List, [], ◌∷◌, ◌++◌, map}
use castserver.Base.Tests.{if◌then◌else◌, Bool-cases}

module _ {ℓ} {A : Type ℓ} where
  -- A trace, newest first, after the calls of the first list, made in order.
  abbrev pub logged : List A → List A → List A
  logged [] t = t
  logged (x ∷ xs) t = logged xs (x ∷ t)

  pub logged-append : (xs ys t : List A) → logged (xs ++ ys) t ≡ logged ys (logged xs t)
  logged-append [] ys t = refl
  logged-append (x ∷ xs) ys t = logged-append xs ys (x ∷ t)

  abbrev pub keep : (A → Bool) → List A → List A
  keep p [] = []
  keep p (x ∷ xs) = if p x then x ∷ keep p xs else keep p xs

  pub keep-append : (p : A → Bool) (xs ys : List A) → keep p (xs ++ ys) ≡ keep p xs ++ keep p ys
  keep-append p [] ys = refl
  keep-append p (x ∷ xs) ys = elim (Bool-cases (p x)) [
    | inl passes ↦ rw passes (ap (λ k. x ∷ k) (keep-append p xs ys))
    | inr fails ↦ rw fails (keep-append p xs ys)
  ]

  pub keep-logged :
      (p : A → Bool) (xs t : List A) → keep p (logged xs t) ≡ logged (keep p xs) (keep p t)
  keep-logged p [] t = refl
  keep-logged p (x ∷ xs) t =
      keep-logged p xs (x ∷ t)
      ∙ elim (Bool-cases (p x)) [ inl passes ↦ rw passes refl | inr fails ↦ rw fails refl ]

  pub keep-map :
      {B : Type 0} (p : A → Bool) (f : B → A)
      → ((b : B) → p (f b) ≡ true)
      → (bs : List B) → keep p (map f bs) ≡ map f bs
  keep-map p f passes [] = refl
  keep-map p f passes (b ∷ bs) = rw (passes b) (ap (λ k. f b ∷ k) (keep-map p f passes bs))

-- A predicate of every item of a list.
abbrev pub All {ℓ κ} : {A : Type ℓ} → (A → Type κ) → List A → Type κ
All P [] = Unit
All P (x ∷ xs) = P x × All P xs

pub All-map₂ {ℓ κ₁ κ₂ κ₃} :
    {A : Type ℓ} (P : A → Type κ₁) (Q : A → Type κ₂) (R : A → Type κ₃)
    → ((x : A) → P x → Q x → R x)
    → (xs : List A) → All P xs
    → All Q xs
    → All R xs
All-map₂ P Q R f [] ps qs = tt
All-map₂ P Q R f (x ∷ xs) ps qs = (f x ps.0 qs.0, All-map₂ P Q R f xs ps.1 qs.1)

pub All-map {ℓ κ₁ κ₂} :
    {A : Type ℓ} (P : A → Type κ₁) (Q : A → Type κ₂)
    → ((x : A) → P x → Q x)
    → (xs : List A) → All P xs
    → All Q xs
All-map P Q f [] ps = tt
All-map P Q f (x ∷ xs) ps = (f x ps.0, All-map P Q f xs ps.1)

pub All-append {ℓ κ} :
    {A : Type ℓ} (P : A → Type κ) (xs ys : List A) → All P xs → All P ys → All P (xs ++ ys)
All-append P [] ys ps qs = qs
All-append P (x ∷ xs) ys ps qs = (ps.0, All-append P xs ys ps.1 qs)

-- The item stands in the list.
abbrev pub IsIn : {A : Type 0} → A → List A → Type 0
IsIn x [] = ⊥
IsIn x (y ∷ ys) = (x ≡ y) ⊎ IsIn x ys

pub All-IsIn : {A : Type 0} (xs : List A) → All (λ x. IsIn x xs) xs
All-IsIn [] = tt
All-IsIn (x ∷ xs) = (inl refl, All-map _ _ (λ y h. inr h) xs (All-IsIn xs))

pub All-lookup {κ} :
    {A : Type 0} (P : A → Type κ) (x : A) (xs : List A) → All P xs → IsIn x xs → P x
All-lookup P x [] ps h = elim h [ ]
All-lookup P x (y ∷ ys) ps (inl e) = rw e ps.0
All-lookup P x (y ∷ ys) ps (inr h) = All-lookup P x ys ps.1 h
