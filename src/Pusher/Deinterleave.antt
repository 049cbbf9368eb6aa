-- ===== src/Pusher/Deinterleave.antt =====
-- The copy loop of server_sppush_push: one channel out of interleaved samples.
use castserver.Base.{none}
use mathlib.Core.List.{flatten}
use castserver.Base.{
  ℕ, zero, suc, ◌+◌, ◌*◌, ◌≤◌, ◌<◌, ◌≡◌, refl, sym, ap, ◌∙◌, List, [], ◌∷◌, ◌++◌, length, take,
  drop, get_or, length-append, length-take, length-drop, drop-length, drop-add, take-append-drop,
  append_assoc, some, arith, All, le→leb, lt→leb-false,
}
use castserver.Env.{Env}
use castserver.Pusher.{copy_loop}
use castserver.Pusher.Frames.{
  IsFrame, interleave, channel_bytes, length-flatten, length-interleave, drop_past, zero-mul,
  take_first, sample_at, drop_one_more,
}

module _ {T : Type 0} (e : Env T) where
  -- BITS_CPY copies `bits` bytes into the buffer, where both ends have room.
  abbrev pub CopiesBytes : Type 0
  CopiesBytes =
      (buf src : List ℕ) (dst bits : ℕ)
      → dst + bits ≤ length buf
      → bits ≤ length src
      → e.bits_cpy buf dst src bits ≡ take dst buf ++ (take bits src ++ drop (dst + bits) buf)

  -- One round: the sample `s` goes behind what is written.
  copy_one :
      (cpy : CopiesBytes) (src s pre room : List ℕ) (dst bits : ℕ)
      → length pre ≡ dst
      → bits ≤ length room
      → bits ≤ length src
      → take bits src ≡ s
      → e.bits_cpy (pre ++ room) dst src bits ≡ (pre ++ s) ++ drop bits room
  copy_one cpy src s pre room dst bits w r enough found =
      cpy (pre ++ room) src dst bits (omega (arith, length-append pre room)) enough
      ∙ (ap (λ p. p ++ (take bits src ++ drop (dst + bits) (pre ++ room)))
            (take_first dst pre room w)
          ∙ (ap (λ q. pre ++ (q ++ drop (dst + bits) (pre ++ room))) found
              ∙ (ap (λ q. pre ++ (s ++ q)) (drop_past bits (dst + bits) pre room (omega arith))
                  ∙ sym (append_assoc pre s (drop bits room)))))

  -- What the loop has written so far is `pre`; `room` is the buffer behind it.
  copy_frames :
      (cpy : CopiesBytes) (samples : List ℕ) (channels bits i : ℕ)
      → i < channels
      → i * bits + bits ≤ bits * channels
      → 0 < bits
      → (fuel base src dst len : ℕ) (frames : List (List (List ℕ))) (pre room : List ℕ)
      → All (IsFrame channels bits) frames
      → drop base samples ≡ interleave frames
      → src ≡ base + i * bits
      → len ≡ base + length frames * (bits * channels)
      → length frames < fuel
      → length pre ≡ dst
      → length frames * bits ≤ length room
      → copy_loop e samples len bits (bits * channels) fuel src dst (pre ++ room)
        ≡ some (pre ++ (channel_bytes i frames ++ drop (length frames * bits) room))
  unfolding copy_loop interleave channel_bytes
  copy_frames cpy samples channels bits i lt le pos zero base src dst len frames pre room ok at es
        el f w r =
      absurd (omega arith)
  copy_frames cpy samples channels bits i lt le pos (suc fuel) base src dst len [] pre room ok at es
        el f w r =
      rw (lt→leb-false (src + bits) len (omega arith))
        (ap (λ k. some (pre ++ drop k room)) (sym (zero-mul bits)))
  copy_frames cpy samples channels bits i lt le pos (suc fuel) base src dst len (fr ∷ frames) pre
        room ok at es el f w r =
      let s = get_or fr i [] in
      let (found, size) = sample_at bits i fr (interleave frames) ok.0.1 (omega (arith, ok.0.0)) in
      let here : drop src samples ≡ drop (i * bits) (flatten fr ++ interleave frames) =
        ap (λ k. drop k samples) es
        ∙ (drop-add base (i * bits) samples ∙ ap (drop (i * bits)) at) in
      let width : bits * channels ≡ length (flatten fr) =
        omega (arith, length-flatten bits fr ok.0.1, ap (λ n. n * bits) ok.0.0) in
      let enough : bits ≤ length (drop src samples) = omega (
        arith,
        ap length here,
        length-drop (i * bits) (flatten fr ++ interleave frames),
        length-append (flatten fr) (interleave frames),
      ) in
      let next : drop (base + bits * channels) samples ≡ interleave frames =
        drop-add base (bits * channels) samples
        ∙ (ap (drop (bits * channels)) at
            ∙ (ap (λ k. drop k (flatten fr ++ interleave frames)) width
                ∙ drop-length (flatten fr) (interleave frames))) in
      rw
        (
          le→leb (src + bits) len (omega arith),
          copy_one cpy (drop src samples) s pre room dst bits w (omega arith) enough
              (ap (take bits) here ∙ found),
          copy_frames cpy samples channels bits i lt le pos fuel (base + bits * channels)
              (src + bits * channels) (dst + bits) len frames (pre ++ s) (drop bits room) ok.1 next
              (omega arith) (omega arith) (omega arith) (omega (arith, length-append pre s))
              (omega (arith, length-drop bits room)),
        )
        (rw (drop_one_more (length frames) bits room) (simp append_assoc))

  fuel_enough : (n bits channels i : ℕ) → 0 < bits → i < channels → n ≤ n * (bits * channels)
  fuel_enough n bits channels i pos lt = grind arith

  in_frame : (bits channels i : ℕ) → i < channels → i * bits + bits ≤ bits * channels
  in_frame bits channels i lt = grind arith

  -- The copy loop ends within its fuel, `len + 1` rounds, and undoes the interleaving: given whole
  -- frames of samples of `bits > 0` bytes, it puts the samples of channel `i`, in order, behind the
  -- first `start` bytes of the buffer, and changes no other byte of it. The conditions are that the
  -- buffer has room, and that BITS_CPY copies.
  pub copy_loop_lem :
      (cpy : CopiesBytes) (channels bits i start : ℕ) (frames : List (List (List ℕ))) (buf : List ℕ)
      → All (IsFrame channels bits) frames
      → i < channels
      → 0 < bits
      → start + length frames * bits ≤ length buf
      → let len = length (interleave frames) in
        copy_loop e (interleave frames) len bits (bits * channels) (suc len) (i * bits) start buf
        ≡ some
            (take start buf ++ (channel_bytes i frames ++ drop (start + length frames * bits) buf))
  copy_loop_lem cpy channels bits i start frames buf ok lt pos fits =
      let size = length-interleave channels bits frames ok in
      rw (
        ← take-append-drop start buf,
        copy_frames cpy (interleave frames) channels bits i lt (in_frame bits channels i lt) pos
            (suc (length (interleave frames))) 0 (i * bits) start (length (interleave frames))
            frames (take start buf) (drop start buf) ok refl (omega arith) (omega (arith, size))
            (omega (arith, size, fuel_enough (length frames) bits channels i pos lt))
            (omega (arith, length-take start buf)) (omega (arith, length-drop start buf)),
        take-append-drop start buf,
        drop-add start (length frames * bits) buf,
      )

  -- Samples of no byte make the copy loop endless: however many rounds it is given, it does not end
  -- when it starts within the chunk. That is what a format of less than 8 bits for a sample asks for.
  pub copy_loop_endless :
      (fuel len channels src dst : ℕ) (samples buf : List ℕ)
      → src ≤ len
      → copy_loop e samples len 0 (0 * channels) fuel src dst buf ≡ none
  unfolding copy_loop
  copy_loop_endless zero len channels src dst samples buf le = refl
  copy_loop_endless (suc fuel) len channels src dst samples buf le =
      rw
        (
          le→leb (src + 0) len (omega arith),
          copy_loop_endless fuel len channels (src + 0 * channels) (dst + 0) samples
              (e.bits_cpy buf dst (drop src samples) 0) (omega arith),
        )
        refl
