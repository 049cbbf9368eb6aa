-- ===== src/Command/Listing.antt =====
-- The list of speakers that a client gets (cmd_speakers).
use mathlib.Core.List.{flatten}
use castserver.Base.{
  ℕ, suc, ℤ, pos, ◌+◌, ◌*◌, ◌≤◌, ◌≡◌, sym, ap, Bool-cases, inl, inr, List, [], ◌∷◌, ◌++◌, map,
  length, take, drop, keep, length-append, take-length, drop-length, drop-add, append_assoc, Option,
  some, arith, lt→ltb, ◌==◌, if◌then◌else◌,
}
use castserver.Types.{Speaker, Call}
use castserver.Env.{Env}
use castserver.World.{World, done}
use castserver.Command.{is_listed, fill_list, cmd_speakers}

module _ {T : Type 0} (e : Env T) where
  -- Each struct is copied with its size.
  abbrev pub IsSized : Type 0
  IsSized = (s : Speaker) → length (e.speaker_bytes s) ≡ e.speaker_size

  -- The speakers in a state between NONE and DELETED, and their bytes.
  abbrev pub listed : (ℕ → Speaker) → List ℕ → List ℕ
  listed mem sps = keep (λ sp. is_listed e (mem sp)) sps

  abbrev pub listing : (ℕ → Speaker) → List ℕ → List ℕ
  listing mem sps = flatten (map (λ sp. e.speaker_bytes (mem sp)) (listed mem sps))

  fill_one :
      (sized : IsSized) (s : Speaker) (idx : ℕ) (pre room : List ℕ)
      → length pre ≡ idx * e.speaker_size
      → take (idx * e.speaker_size) (pre ++ room)
          ++ (e.speaker_bytes s ++ drop (idx * e.speaker_size + e.speaker_size) (pre ++ room))
        ≡ (pre ++ e.speaker_bytes s) ++ drop e.speaker_size room
  fill_one sized s idx pre room size =
      rw
        (
          ← size,
          take-length pre room,
          drop-add (length pre) e.speaker_size (pre ++ room),
          drop-length pre room,
        )
        (sym (append_assoc pre (e.speaker_bytes s) (drop e.speaker_size room)))

  fill_list-listing :
      (sized : IsSized) (mem : ℕ → Speaker) (sps : List ℕ) (count idx : ℕ) (pre room : List ℕ)
      → length pre ≡ idx * e.speaker_size
      → idx + length (listed mem sps) ≤ count
      → fill_list e mem sps count idx (pre ++ room)
        ≡ some (pre ++ (listing mem sps ++ drop (length (listed mem sps) * e.speaker_size) room))
  unfolding fill_list flatten
  fill_list-listing sized mem [] count idx pre room size fits =
      let none_more : 0 * e.speaker_size ≡ 0 = omega arith in
      ap (λ k. some (pre ++ drop k room)) (sym none_more)
  fill_list-listing sized mem (sp ∷ rest) count idx pre room size fits =
      elim (Bool-cases (is_listed e (mem sp))) [
        | inr hidden ↦
            rw hidden (fill_list-listing sized mem rest count idx pre room size (rw hidden at fits))
        | inl shown ↦
            let fits' = rw shown at fits in
            let bytes = e.speaker_bytes (mem sp) in
            let k = length (listed mem rest) in
            let more : suc k * e.speaker_size ≡ e.speaker_size + k * e.speaker_size = omega arith in
            rw
              (
                shown,
                lt→ltb idx count (omega arith),
                fill_one sized (mem sp) idx pre room size,
                fill_list-listing sized mem rest count (idx + 1) (pre ++ bytes)
                    (drop e.speaker_size room)
                    (omega (arith, length-append pre bytes, sized (mem sp), size)) (omega arith),
                more,
                drop-add e.speaker_size (k * e.speaker_size) room,
              )
              (simp append_assoc)
      ]

  -- Where there is a speaker and the array has room for the listed ones, the client is sent one
  -- message: the structs of the speakers in a state between NONE and DELETED, in the order of the
  -- table. Its length is that of the array for all speakers: behind the structs it holds what the
  -- stack happened to hold. With no speaker nothing is sent. The result is 0, and nothing else
  -- changes. Each struct has to have its size.
  pub cmd_speakers_lem :
      (sized : IsSized) (fd : ℤ) (arg : Option (List ℕ)) (len : ℕ) (w : World T)
      → length (listed w.speakers.mem (e.speaker_foreach w.speakers)) ≤ e.speaker_count w.speakers
      → let sps = e.speaker_foreach w.speakers in
        let stale =
          drop
            (length (listed w.speakers.mem sps) * e.speaker_size)
            (e.stack w.trace (e.speaker_count w.speakers * e.speaker_size)) in
        cmd_speakers e fd arg len w ≡ (
          if e.speaker_count w.speakers == 0
          then done (pos 0) w
          else done
              (pos 0)
              (record w { trace = Call.send fd (listing w.speakers.mem sps ++ stale) ∷ w.trace }))
  unfolding cmd_speakers
  cmd_speakers_lem sized fd arg len w room =
      let sps = e.speaker_foreach w.speakers in
      let count = e.speaker_count w.speakers in
      let none_before : 0 ≡ 0 * e.speaker_size = omega arith in
      rw
        (fill_list-listing sized w.speakers.mem sps count 0 []
          (e.stack w.trace (count * e.speaker_size)) none_before (omega (arith, room)))
        (ground arith)
