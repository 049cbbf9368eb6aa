-- ===== src/Wave/Body.antt =====
-- The chunks that come with the command (the first loop of cmd_wave).
use castserver.Base.{
  ℕ, zero, suc, ◌+◌, ◌-◌, ◌*◌, ◌%◌, ◌^◌, ◌<◌, ◌≡◌, refl, ap, ◌∙◌, sym, List, [], ◌∷◌, true, false,
  leb, drop, drop-add, arith,
}
use castserver.Env.{Env}
use castserver.World.{World, M, ◌>>◌, pure, >>=-cong, >>=-assoc}
use castserver.Wave.{Playing, push, offset_of, chunk_loop}

-- The first `n` positions of the samples that stand a chunk apart, each with all that follows it.
abbrev pub pieces : ℕ → ℕ → List ℕ → List (List ℕ)
pieces chunk zero samples = []
pieces chunk (suc n) samples = samples ∷ pieces chunk n (drop chunk samples)

pub offset_of-add :
    (header_size k len : ℕ) → len ≡ header_size + k → k < 2 ^ 32 → offset_of len header_size ≡ k
offset_of-add header_size k len eq small = omega arith

pub suc_mul : (n c : ℕ) → suc n * c ≡ c + n * c
suc_mul n c = grind arith

module _ {T : Type 0} (e : Env T) (p : Playing) where
  abbrev pub push_all : List (List ℕ) → M T (Unit {0})
  push_all [] = pure tt
  push_all (s ∷ rest) = push e p s >> push_all rest

  pub chunk_loop-pieces :
      (header_size n left fuel len : ℕ) (samples : List ℕ) (w : World T)
      → len ≡ header_size + (n * p.chunk + left)
      → n * p.chunk + left < 2 ^ 32
      → len < 2 ^ 64
      → left < p.chunk
      → n < fuel
      → chunk_loop e p header_size fuel len samples w
        ≡ (push_all (pieces p.chunk n samples) >> pure (drop (n * p.chunk) samples, left)) w
  unfolding chunk_loop
  chunk_loop-pieces header_size n left zero len samples w eq small wide lt enough = ground arith
  chunk_loop-pieces header_size zero left (suc fuel) len samples w eq small wide lt enough =
      let at : offset_of len header_size ≡ left =
        offset_of-add header_size left len (grind arith) (grind arith) in
      let stays : leb p.chunk left ≡ false = ground arith in
      let none : zero * p.chunk ≡ 0 = omega arith in rw (at, stays, none) refl
  chunk_loop-pieces header_size (suc n) left (suc fuel) len samples w eq small wide lt enough =
      let more = suc_mul n p.chunk in
      let at : offset_of len header_size ≡ suc n * p.chunk + left =
        offset_of-add header_size (suc n * p.chunk + left) len eq small in
      let goes : leb p.chunk (suc n * p.chunk + left) ≡ true = ground arith in
      let next : (len + 2 ^ 64 - p.chunk) % 2 ^ 64 ≡ header_size + (n * p.chunk + left) =
        omega arith in
      rw (at, goes)
        (>>=-cong (push e p samples) _
            (λ _.
              push_all (pieces p.chunk n (drop p.chunk samples))
              >> pure (drop (n * p.chunk) (drop p.chunk samples), left))
            w
            (λ a v _.
              chunk_loop-pieces header_size n left fuel _ (drop p.chunk samples) v next
                (omega arith) (omega arith) lt (omega arith))
          ∙ (ap
                (λ d.
                  (push e p samples
                      >> (push_all (pieces p.chunk n (drop p.chunk samples)) >> pure (d, left)))
                    w)
                (sym (ap (λ k. drop k samples) more ∙ drop-add p.chunk (n * p.chunk) samples))
              ∙ sym (
                  >>=-assoc (push e p samples)
                    (λ _. push_all (pieces p.chunk n (drop p.chunk samples)))
                    (λ _. pure (drop (suc n * p.chunk) samples, left)) w)))
