-- ===== src/Pusher/Frames.antt =====
-- Interleaved samples, as server_sppush_push gets them.
use mathlib.Core.List.{flatten}
use castserver.Base.{
  ℕ, zero, suc, ◌+◌, ◌*◌, ◌<◌, ◌≡◌, sym, ap, ◌∙◌, List, [], ◌∷◌, ◌++◌, length, take, drop, get_or,
  length-append, take-length, drop-length, drop-add, append_assoc, arith, All,
}

-- A frame is the samples of one moment, a sample for each channel.
abbrev pub IsFrame : ℕ → ℕ → List (List ℕ) → Type 0
IsFrame channels bits frame = (length frame ≡ channels) × All (λ s. length s ≡ bits) frame

-- The interleaved bytes of a list of frames, as a decoder gives them.
unfoldable pub interleave : List (List (List ℕ)) → List ℕ
interleave [] = []
interleave (frame ∷ frames) = flatten frame ++ interleave frames

-- The bytes of the `i`-th channel.
unfoldable pub channel_bytes : ℕ → List (List (List ℕ)) → List ℕ
channel_bytes i [] = []
channel_bytes i (frame ∷ frames) = get_or frame i [] ++ channel_bytes i frames

pub length-flatten :
    (bits : ℕ) (frame : List (List ℕ))
    → All (λ s. length s ≡ bits) frame
    → length (flatten frame) ≡ length frame * bits
unfolding flatten
length-flatten bits [] h = omega arith
length-flatten bits (s ∷ frame) h =
    omega (arith, length-append s (flatten frame), length-flatten bits frame h.1, h.0)

pub length-interleave :
    (channels bits : ℕ) (frames : List (List (List ℕ)))
    → All (IsFrame channels bits) frames
    → length (interleave frames) ≡ length frames * (bits * channels)
unfolding interleave
length-interleave channels bits [] h = omega arith
length-interleave channels bits (frame ∷ frames) h = omega (
  arith,
  length-append (flatten frame) (interleave frames),
  length-flatten bits frame h.0.1,
  length-interleave channels bits frames h.1,
  ap (λ n. n * bits) h.0.0,
)

pub drop_past : (n m : ℕ) (xs ys : List ℕ) → m ≡ length xs + n → drop m (xs ++ ys) ≡ drop n ys
drop_past n m xs ys e =
    ap (λ k. drop k (xs ++ ys)) e
    ∙ (drop-add (length xs) n (xs ++ ys) ∙ ap (drop n) (drop-length xs ys))

pub zero-mul : (n : ℕ) → zero * n ≡ zero
zero-mul n = omega arith

pub take_first : (bits : ℕ) (s t : List ℕ) → length s ≡ bits → take bits (s ++ t) ≡ s
take_first bits s t e = ap (λ k. take k (s ++ t)) (sym e) ∙ take-length s t

-- The `i`-th sample of the frame in front.
pub sample_at :
    (bits i : ℕ) (frame : List (List ℕ)) (t : List ℕ)
    → All (λ s. length s ≡ bits) frame
    → i < length frame
    → (take bits (drop (i * bits) (flatten frame ++ t)) ≡ get_or frame i [])
      × (length (get_or frame i []) ≡ bits)
unfolding flatten
sample_at bits i [] t h lt = absurd (omega arith)
sample_at bits zero (s ∷ frame) t h lt = (
  ap (λ k. take bits (drop k ((s ++ flatten frame) ++ t))) (zero-mul bits)
      ∙ (ap (take bits) (append_assoc s (flatten frame) t)
          ∙ take_first bits s (flatten frame ++ t) h.0),
  h.0,
)
sample_at bits (suc i) (s ∷ frame) t h lt =
    let (found, size) = sample_at bits i frame t h.1 (omega arith) in
    (
      ap (λ xs. take bits (drop (suc i * bits) xs)) (append_assoc s (flatten frame) t)
          ∙ (ap (take bits)
                (drop_past (i * bits) (suc i * bits) s (flatten frame ++ t) (omega (arith, h.0)))
              ∙ found),
      size,
    )

pub drop_one_more :
    (n bits : ℕ) (room : List ℕ) → drop (suc n * bits) room ≡ drop (n * bits) (drop bits room)
drop_one_more n bits room =
    let one_more : suc n * bits ≡ bits + n * bits = omega arith in
    ap (λ k. drop k room) one_more ∙ drop-add bits (n * bits) room

pub length-channel_bytes :
    (channels bits i : ℕ) (frames : List (List (List ℕ)))
    → All (IsFrame channels bits) frames
    → i < channels
    → length (channel_bytes i frames) ≡ length frames * bits
unfolding channel_bytes
length-channel_bytes channels bits i [] ok lt = omega arith
length-channel_bytes channels bits i (fr ∷ frames) ok lt = omega (
  arith,
  length-append (get_or fr i []) (channel_bytes i frames),
  (sample_at bits i fr [] ok.0.1 (omega (arith, ok.0.0))).1,
  length-channel_bytes channels bits i frames ok.1 lt,
)
