-- ===== src/Threads/Shuffle.antt =====
-- How the actions of two threads may follow one another.
use castserver.Base.{List, [], ◌∷◌, ◌++◌}

-- `Interleaved xs ys zs`: `zs` has the items of `xs` and of `ys`, those of each list in their order.
pub data Interleaved {A : Type 0} : List A → List A → List A → Type 0 where
  over : Interleaved [] [] []
  left : {x : A} {xs ys zs : List A} → Interleaved xs ys zs → Interleaved (x ∷ xs) ys (x ∷ zs)
  right : {y : A} {xs ys zs : List A} → Interleaved xs ys zs → Interleaved xs (y ∷ ys) (y ∷ zs)

-- The second thread waits until the first is done.
pub one_by_one : {A : Type 0} (xs ys : List A) → Interleaved xs ys (xs ++ ys)
one_by_one [] [] = over
one_by_one [] (y ∷ ys) = right (one_by_one [] ys)
one_by_one (x ∷ xs) ys = left (one_by_one xs ys)
