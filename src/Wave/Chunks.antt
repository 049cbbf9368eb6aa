-- ===== src/Wave/Chunks.antt =====
-- A file that is cut into chunks, of which the first come with the command and the others as messages
-- that fill the buffer (cmd_wave).
use mathlib.Core.List.{flatten}
use castserver.Base.{
  ℕ, zero, suc, ◌+◌, ◌-◌, ◌*◌, ◌≤◌, ◌<◌, ◌≡◌, refl, sym, ap, ◌∙◌, List, [], ◌∷◌, ◌++◌, length, take,
  drop, get_or, All, arith, length-append, length-take, length-drop, append-nil, append_assoc,
  take-take, take-all, drop-all, drop-add,
}
use castserver.Wave.Body.{pieces, suc_mul}
use castserver.Wave.Datagrams.{Plays}
use castserver.Wave.Messages.{buffers}

-- Each message fills what is free of a buffer of a chunk behind an offset; the offset is that of
-- the first one.
abbrev pub Fills : ℕ → ℕ → List (List ℕ) → Type 0
Fills chunk offset [] = Unit
Fills chunk offset (m ∷ rest) = (length m ≡ chunk - offset) × Fills chunk 0 rest

-- Two lists that agree up to what follows their first `length c` items.
front :
    (c xs tail rest : List ℕ) (m : ℕ)
    → length c + m ≤ length xs
    → take (length c + m) xs ++ tail ≡ c ++ rest
    → (take (length c) xs ≡ c) × (take m (drop (length c) xs) ++ tail ≡ rest)
front [] xs tail rest m long eq =
    let e : 0 + m ≡ m = omega arith in (refl, sym (ap (λ k. take k xs ++ tail) e) ∙ eq)
front (x ∷ c) [] tail rest m long eq = absurd (omega arith)
front (x ∷ c) (y ∷ xs) tail rest m long eq =
    let e : suc (length c) + m ≡ suc (length c + m) = omega arith in
    let eq' : y ∷ (take (length c + m) xs ++ tail) ≡ x ∷ (c ++ rest) =
      sym (ap (λ k. take k (y ∷ xs) ++ tail) e) ∙ eq in
    let (same, later) = front c xs tail rest m (omega arith) (ap (drop 1) eq') in
    (cc (ap (λ l. get_or l 0 0) eq', same), later)

-- All chunks are whole.
abbrev pub Whole : ℕ → List (List ℕ) → Type 0
Whole chunk chunks = All (λ c. length c ≡ chunk) chunks

-- The chunks that come with the command, and what is left for the messages.
pub pieces-chunks :
    (channels bits len chunk n left : ℕ) (samples tail : List ℕ) (chunks : List (List ℕ))
    (parts : List (List (List (List ℕ))))
    → 0 < chunk
    → len ≤ chunk
    → n * chunk + left ≤ length samples
    → take (n * chunk + left) samples ++ tail ≡ flatten chunks
    → Whole chunk chunks
    → Plays channels bits len chunks parts
    → Plays channels bits len (pieces chunk n samples) (take n parts)
      × Plays channels bits len (drop n chunks) (drop n parts)
      × (take left (drop (n * chunk) samples) ++ tail ≡ flatten (drop n chunks))
      × Whole chunk (drop n chunks)
unfolding flatten
pieces-chunks channels bits len chunk zero left samples tail chunks parts some short long eq whole
      plays =
    let e : zero * chunk ≡ 0 = omega arith in
    let e' : zero * chunk + left ≡ left = omega arith in
    (tt, plays, rw e (sym (ap (λ k. take k samples ++ tail) e') ∙ eq), whole)
pieces-chunks channels bits len chunk (suc n) left samples tail [] parts some short long eq whole
      plays =
    absurd (
      omega (
        arith,
        ap length eq,
        length-append (take (suc n * chunk + left) samples) tail,
        length-take (suc n * chunk + left) samples,
        suc_mul n chunk,
      ))
pieces-chunks channels bits len chunk (suc n) left samples tail (c ∷ chunks) [] some short long eq
      whole plays =
    absurd plays
pieces-chunks channels bits len chunk (suc n) left samples tail (c ∷ chunks) (part ∷ parts) some
      short long eq whole plays =
    let more : suc n * chunk + left ≡ length c + (n * chunk + left) =
      omega (arith, suc_mul n chunk, whole.0) in
    let (same, later) =
      front c samples tail (flatten chunks) (n * chunk + left) (omega arith)
        (sym (ap (λ k. take k samples ++ tail) more) ∙ eq) in
    let rest =
      pieces-chunks channels bits len chunk n left (drop chunk samples) tail chunks parts some short
        (omega (arith, length-drop chunk samples))
        (sym (ap (λ k. take (n * chunk + left) (drop k samples) ++ tail) whole.0) ∙ later) whole.1
        plays.3 in
    let far : drop (n * chunk) (drop chunk samples) ≡ drop (suc n * chunk) samples =
      sym (ap (λ k. drop k samples) (suc_mul n chunk) ∙ drop-add chunk (n * chunk) samples) in
    let head : take len samples ≡ take len c =
      sym (take-take len chunk samples short)
      ∙ ap (take len) (sym (ap (λ k. take k samples) whole.0) ∙ same) in
    (
      (plays.0, omega (arith, suc_mul n chunk), head ∙ plays.2, rest.0),
      rest.1,
      sym (ap (λ k. take left k ++ tail) far) ∙ rest.2,
      rest.3,
    )

-- The buffers of the messages are the chunks themselves.
pub buffers-chunks :
    (chunk : ℕ) (rest : List (List ℕ)) (offset : ℕ) (buffer : List ℕ) (chunks : List (List ℕ))
    → offset < chunk
    → length buffer ≡ chunk
    → Fills chunk offset rest
    → take offset buffer ++ flatten rest ≡ flatten chunks
    → Whole chunk chunks
    → buffers offset buffer rest ≡ chunks
unfolding flatten
buffers-chunks chunk [] offset buffer [] less full fills eq whole = refl
buffers-chunks chunk [] offset buffer (c ∷ chunks) less full fills eq whole = absurd (
    omega (
      arith,
      ap length eq,
      ap length (append-nil (take offset buffer)),
      length-take offset buffer,
      length-append c (flatten chunks),
      whole.0,
    ))
buffers-chunks chunk (m ∷ rest) offset buffer [] less full fills eq whole = absurd (
    omega (
      arith,
      ap length eq,
      length-append (take offset buffer) (m ++ flatten rest),
      length-append m (flatten rest),
      fills.0,
    ))
buffers-chunks chunk (m ∷ rest) offset buffer (c ∷ chunks) less full fills eq whole =
    let filled = take offset buffer ++ (m ++ drop (offset + length m) buffer) in
    let alone : filled ≡ take offset buffer ++ m =
      ap (λ k. take offset buffer ++ (m ++ k))
        (drop-all (offset + length m) buffer (omega (arith, fills.0)))
      ∙ ap (λ k. take offset buffer ++ k) (append-nil m) in
    let size : length filled ≡ chunk = omega (
      arith,
      ap length alone,
      length-append (take offset buffer) m,
      length-take offset buffer,
      fills.0,
    ) in
    let joined : filled ++ flatten rest ≡ c ++ flatten chunks =
      ap (λ k. k ++ flatten rest) alone
      ∙ (append_assoc (take offset buffer) m (flatten rest) ∙ eq) in
    let none : length c + 0 ≡ length filled = omega (arith, whole.0) in
    let (same, later) =
      front c filled (flatten rest) (flatten chunks) 0 (omega arith)
        (ap (λ k. k ++ flatten rest) (take-all (length c + 0) filled (omega arith)) ∙ joined) in
    let this : filled ≡ c = sym (take-all (length c) filled (omega arith)) ∙ same in
    ap (λ k. k ∷ buffers 0 filled rest) this
    ∙ ap (λ k. c ∷ k)
        (buffers-chunks chunk rest 0 filled chunks (omega arith) size fills.1 later whole.1)
