-- ===== src/Client/Blocks.antt =====
-- The blocks that pipe_init sends after its first message, and the file that they make up.
use castserver.Base.{le-or-lt}
use castserver.Base.{
  ℕ, zero, suc, ◌+◌, ◌-◌, ◌*◌, ◌/◌, ◌≤◌, ◌<◌, ◌≡◌, refl, ap, ◌∙◌, List, [], ◌∷◌, ◌++◌, length, take,
  drop, length-take, length-drop, length-append, append_assoc, take-append-drop, take-length,
  take-all, drop-all, take-append-add, append-nil, inl, inr, All, arith,
}
use mathlib.Core.List.{flatten}
use castserver.Client.{fread}

-- The buffer as it is sent for each of `n` reads.
abbrev pub blocks : ℕ → ℕ → List ℕ → List ℕ → List (List ℕ)
blocks chunk zero file buffer = []
blocks chunk (suc n) file buffer =
    let filled = fread chunk file buffer in filled ∷ blocks chunk n (drop chunk file) filled

-- The reads that a number of bytes takes.
abbrev pub reads : ℕ → ℕ → ℕ
reads chunk size = (size + (chunk - 1)) / chunk

-- What `n` reads of a file of some size come to: they take it all, and none of them is empty.
pub record IsReads (chunk n size : ℕ) : Type 0 where
  pub enough : size ≤ n * chunk
  pub none_empty : n * chunk < size + chunk

pub reads-IsReads : (chunk size : ℕ) → 0 < chunk → IsReads chunk (reads chunk size) size
reads-IsReads chunk size some_chunk = record { enough = grind arith; none_empty = grind arith }

pub IsReads-next :
    (chunk n : ℕ) (file : List ℕ)
    → IsReads chunk (suc n) (length file)
    → IsReads chunk n (length (drop chunk file))
IsReads-next chunk n file r =
    let more : suc n * chunk ≡ chunk + n * chunk = grind arith in
    record {
      enough = omega (arith, r.enough, length-drop chunk file);
      none_empty = grind (arith, r.none_empty, length-drop chunk file);
    }

pub length-fread :
    (chunk : ℕ) (file buffer : List ℕ)
    → length buffer ≡ chunk
    → length (fread chunk file buffer) ≡ chunk
length-fread chunk file buffer size = omega (
  arith,
  length-append (take chunk file) (drop (length (take chunk file)) buffer),
  length-drop (length (take chunk file)) buffer,
  length-take chunk file,
)

last-fread :
    (chunk : ℕ) (file buffer rest : List ℕ)
    → length file ≤ chunk
    → take (length file) (fread chunk file buffer ++ rest) ≡ file
last-fread chunk file buffer rest small =
    let all = take-all chunk file small in
    rw (all, append_assoc file (drop (length file) buffer) rest)
      (take-length file (drop (length file) buffer ++ rest))

full-fread :
    (chunk : ℕ) (file buffer : List ℕ)
    → length buffer ≡ chunk
    → chunk ≤ length file
    → fread chunk file buffer ≡ take chunk file
full-fread chunk file buffer size big =
    ap (λ d. take chunk file ++ d)
      (drop-all (length (take chunk file)) buffer (omega (arith, length-take chunk file)))
    ∙ append-nil (take chunk file)

more-fread :
    (chunk : ℕ) (file buffer rest : List ℕ)
    → length buffer ≡ chunk
    → chunk ≤ length file
    → take (length (drop chunk file)) rest ≡ drop chunk file
    → take (length file) (fread chunk file buffer ++ rest) ≡ file
more-fread chunk file buffer rest size big back =
    let start = take chunk file in
    let split : length file ≡ length start + length (drop chunk file) =
      omega (arith, length-take chunk file, length-drop chunk file) in
    rw (full-fread chunk file buffer size big, split)
      (take-append-add (length (drop chunk file)) start rest
        ∙ (ap (λ d. start ++ d) back ∙ take-append-drop chunk file))

-- What one read took, and what the reads behind it gave, are the file.
pub fread-back :
    (chunk : ℕ) (file buffer rest : List ℕ)
    → length buffer ≡ chunk
    → take (length (drop chunk file)) rest ≡ drop chunk file
    → take (length file) (fread chunk file buffer ++ rest) ≡ file
fread-back chunk file buffer rest size back = elim (le-or-lt chunk (length file)) [
  | inl big ↦ more-fread chunk file buffer rest size big back
  | inr small ↦ last-fread chunk file buffer rest (omega arith)
]

-- The file comes back from the blocks: their bytes, one block behind the other, cut to the length of
-- the file, are the file. The reads take it all, and the buffer has the size of a read.
pub flatten-blocks :
    (chunk n : ℕ) (file buffer : List ℕ)
    → length buffer ≡ chunk
    → IsReads chunk n (length file)
    → take (length file) (flatten (blocks chunk n file buffer)) ≡ file
unfolding flatten
flatten-blocks chunk zero [] buffer size r = refl
flatten-blocks chunk zero (x ∷ file) buffer size r = ground (arith, r.enough)
flatten-blocks chunk (suc n) file buffer size r =
    let filled = fread chunk file buffer in
    fread-back chunk file buffer (flatten (blocks chunk n (drop chunk file) filled)) size (
      flatten-blocks chunk n (drop chunk file) filled (length-fread chunk file buffer size)
        (IsReads-next chunk n file r))

pub length-blocks :
    (chunk n : ℕ) (file buffer : List ℕ)
    → length buffer ≡ chunk
    → All (λ b. length b ≡ chunk) (blocks chunk n file buffer)
length-blocks chunk zero file buffer size = tt
length-blocks chunk (suc n) file buffer size =
    let same = length-fread chunk file buffer size in
    (same, length-blocks chunk n (drop chunk file) (fread chunk file buffer) same)
