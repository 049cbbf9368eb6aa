-- ===== src/Wave/Split.antt =====
-- Which chunks of a file come with the command, and which ones the messages make up (cmd_wave).
use mathlib.Core.List.{flatten}
use castserver.Base.{
  ℕ, ◌+◌, ◌*◌, ◌/◌, ◌%◌, ◌≤◌, ◌<◌, ◌≡◌, sym, ap, ◌∙◌, List, [], ◌∷◌, ◌++◌, length, take, drop,
  length-take, length-drop, length-append, take-length, arith,
}
use castserver.Types.{Call}
use castserver.Env.{Env}
use castserver.Wave.{Playing}
use castserver.Wave.Stream.{Fits}
use castserver.Wave.Play.{left_over}
use castserver.Wave.Datagrams.{Plays}
use castserver.Wave.Body.{pieces}
use castserver.Wave.Messages.{buffers}
use castserver.Wave.Chunks.{Fills, Whole, pieces-chunks, buffers-chunks}

pub Fills-Fits :
    (chunk offset : ℕ) (rest : List (List ℕ))
    → offset < chunk
    → Fills chunk offset rest
    → Fits chunk offset rest
Fills-Fits chunk offset [] less fills = tt
Fills-Fits chunk offset (m ∷ rest) less fills =
    (omega (arith, fills.0), omega (arith, fills.0), Fills-Fits chunk 0 rest (omega arith) fills.1)

take-front : (n : ℕ) (xs ys : List ℕ) → length xs ≡ n → take n (xs ++ ys) ≡ xs
take-front n xs ys h = ap (λ k. take k (xs ++ ys)) (sym h) ∙ take-length xs ys

module _ {T : Type 0} (e : Env T) where
  -- `malloc` gives as many bytes as it was asked for.
  abbrev pub Allocates : Type 0
  Allocates = (h : List Call) (n : ℕ) → length (e.heap h n) ≡ n

  -- The buffer before the first message holds what is left of the command's bytes.
  length-left_over :
      (alloc : Allocates) (p : Playing) (left : ℕ) (after : List ℕ) (h : List Call)
      → left ≤ p.chunk
      → left ≤ length after
      → length (left_over e p left after h) ≡ p.chunk
  length-left_over alloc p left after h small long = omega (
    arith,
    length-append (take left after) (drop left (e.heap h p.chunk)),
    length-take left after,
    length-drop left (e.heap h p.chunk),
    alloc h p.chunk,
  )

  take-left_over :
      (p : Playing) (left : ℕ) (after : List ℕ) (h : List Call)
      → left ≤ length after
      → take left (left_over e p left after h) ≡ take left after
  take-left_over p left after h long =
      take-front left (take left after) _ (omega (arith, length-take left after))

  module _ (alloc : Allocates) (p : Playing) (some_chunk : 0 < p.chunk)
      (short : p.per_sample_chunk_bytes ≤ p.chunk) where
    pub Plays-split :
        (size : ℕ) (samples : List ℕ) (rest chunks : List (List ℕ))
        (parts : List (List (List (List ℕ)))) (h : List Call)
        → let channels = length p.chlist in
          let n = size / p.chunk in
          let left = size % p.chunk in
          size ≤ length samples
          → Fills p.chunk left rest
          → take size samples ++ flatten rest ≡ flatten chunks
          → Whole p.chunk chunks
          → Plays channels p.bytes p.per_sample_chunk_bytes chunks parts
          → (left < p.chunk)
            × Plays channels p.bytes p.per_sample_chunk_bytes
                (pieces p.chunk n samples)
                (take n parts)
            × Plays channels p.bytes p.per_sample_chunk_bytes
                (buffers left (left_over e p left (drop (n * p.chunk) samples) h) rest)
                (drop n parts)
    Plays-split size samples rest chunks parts h long fills joined cut plays =
        let n = size / p.chunk in
        let left = size % p.chunk in
        let after = drop (n * p.chunk) samples in
        let sum : size ≡ n * p.chunk + left = grind arith in
        let less : left < p.chunk = grind arith in
        let enough : left ≤ length after = omega (arith, length-drop (n * p.chunk) samples) in
        let (front, back, middle, cut') =
          pieces-chunks (length p.chlist) p.bytes p.per_sample_chunk_bytes p.chunk n left samples
            (flatten rest) chunks parts some_chunk short (omega arith)
            (sym (ap (λ k. take k samples ++ flatten rest) sum) ∙ joined) cut plays in
        let same : buffers left (left_over e p left after h) rest ≡ drop n chunks =
          buffers-chunks p.chunk rest left (left_over e p left after h) (drop n chunks) less
            (length-left_over alloc p left after h (omega arith) enough) fills
            (ap (λ k. k ++ flatten rest) (take-left_over p left after h enough) ∙ middle) cut' in
        (less, front, rw same back)
