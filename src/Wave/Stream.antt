-- ===== src/Wave/Stream.antt =====
-- What the connection sends after the command (the second loop of cmd_wave).
use castserver.Base.{take-all}
use castserver.Base.{
  ℕ, zero, suc, ℤ, pos, ◌+◌, ◌-◌, ◌%◌, ◌^◌, ◌≤◌, ◌<◌, ◌≡◌, refl, ap, ◌∙◌, Bool, true, false, List,
  [], ◌∷◌, ◌++◌, length, take, drop, get_or, All, arith, ◌==◌, if◌then◌else◌, drop-add,
}
use castserver.Types.{Call}
use castserver.Env.{Env}
use castserver.World.{World, M, ◌>>◌, pure, sys, done, state_of, >>=-cong}
use castserver.Wave.{Playing, push, time_zero, receive_loop}
use castserver.System.Frame.{is_serving, Frame, Keeps}
use castserver.System.Handlers.{server_sppush_push-Keeps}

abbrev is_recv : Call → Bool
is_recv (Call.recv fd size) = true
is_recv call = false

-- The messages that were received in a history.
abbrev pub received : List Call → ℕ
received [] = 0
received (c ∷ trace) = if is_recv c then suc (received trace) else received trace

-- Each message has a byte, and fits in what is free of a buffer of a chunk behind an offset; the
-- offset is that of the first one.
abbrev pub Fits : ℕ → ℕ → List (List ℕ) → Type 0
Fits chunk offset [] = Unit
Fits chunk offset (m ∷ rest) = (0 < length m) × (length m ≤ chunk - offset) × Fits chunk 0 rest

serving_silent : (c : Call) → is_serving c ≡ true → is_recv c ≡ false
serving_silent c h = ground arith

serving-received :
    (calls trace : List Call)
    → All (λ c. is_serving c ≡ true) calls
    → received (calls ++ trace) ≡ received trace
serving-received [] trace all = refl
serving-received (c ∷ calls) trace all =
    rw (serving_silent c all.0) (serving-received calls trace all.1)

get_or-drop : {A : Type 0} (xs : List A) (k : ℕ) (d : A) → get_or xs k d ≡ get_or (drop k xs) 0 d
get_or-drop [] zero d = refl
get_or-drop [] (suc k) d = refl
get_or-drop (x ∷ xs) zero d = refl
get_or-drop (x ∷ xs) (suc k) d = get_or-drop xs k d

drop-suc : {A : Type 0} (xs ys : List A) (k : ℕ) (y : A) → drop k xs ≡ y ∷ ys → drop (suc k) xs ≡ ys
drop-suc xs ys k y h =
    let e : suc k ≡ k + 1 = omega arith in ap (λ n. drop n xs) e ∙ (drop-add k 1 xs ∙ ap (drop 1) h)

pub Keeps-received :
    {T A : Type 0} (m : M T A) (k : Keeps is_serving m) (w v : World T) (r : A)
    → m w ≡ done r v
    → received v.trace ≡ received w.trace
Keeps-received m k w v r eq =
    let kept : Frame is_serving w (state_of (m w)) = k.run w in
    let f : Frame is_serving w v = rw eq at kept in
    ap received f.history.1.0 ∙ serving-received f.history.0 w.trace f.history.1.1

module _ {T : Type 0} (e : Env T) (fd : ℤ) (messages : List (List ℕ)) where
  -- The peer of the connection sends bytes that come as the messages, one for each `recv` that has
  -- room for it, and then ends it.
  pub record Delivers : Type 0 where
    pub ret :
        (h : List Call) (n : ℕ)
        → length (get_or messages (received h) []) ≤ n
        → e.ret h (Call.recv fd n) ≡ pos (length (get_or messages (received h) []))
    pub bytes :
        (h : List Call) (n : ℕ)
        → length (get_or messages (received h) []) ≤ n
        → e.bytes h (Call.recv fd n) ≡ get_or messages (received h) []

  -- What the loop does with the messages that are left: each is put in the buffer, the whole buffer is
  -- pushed, and it is answered by four zero bytes.
  abbrev pub play_messages : Playing → List (List ℕ) → ℕ → List ℕ → M T ℤ
  play_messages p [] offset buffer = do sys e (Call.recv fd (p.chunk - offset)); pure (pos 0)
  play_messages p (m ∷ rest) offset buffer =
      let filled = take offset buffer ++ (m ++ drop (offset + length m) buffer) in
      do
        sys e (Call.recv fd (p.chunk - offset))
        push e p filled
        sys e (Call.send fd (time_zero e))
        play_messages p rest 0 filled

  pub receive_loop-messages :
      (peer : Delivers) (p : Playing) (left : List (List ℕ)) (rounds offset : ℕ) (buffer : List ℕ)
      (w : World T)
      → drop (received w.trace) messages ≡ left
      → Fits p.chunk offset left
      → p.chunk < 2 ^ 32
      → length left < rounds
      → receive_loop e p fd rounds offset buffer w ≡ play_messages p left offset buffer w
  unfolding receive_loop
  receive_loop-messages peer p left zero offset buffer w eq ok small enough = ground arith
  receive_loop-messages peer p [] (suc rounds) offset buffer w eq ok small enough =
      let first = get_or-drop messages (received w.trace) [] ∙ ap (λ l. get_or l 0 []) eq in
      let room : length (get_or messages (received w.trace) []) ≤ p.chunk - offset =
        omega (arith, ap length first) in
      let size = peer.ret w.trace (p.chunk - offset) room ∙ ap (λ m. pos (length m)) first in
      rw size refl
  receive_loop-messages peer p (m ∷ left) (suc rounds) offset buffer w eq ok small enough =
      let first = get_or-drop messages (received w.trace) [] ∙ ap (λ l. get_or l 0 []) eq in
      let room : length (get_or messages (received w.trace) []) ≤ p.chunk - offset =
        omega (arith, ap length first, ok.1) in
      let size = peer.ret w.trace (p.chunk - offset) room ∙ ap (λ m. pos (length m)) first in
      let text = peer.bytes w.trace (p.chunk - offset) room ∙ first in
      let more : (length m % 2 ^ 32 == 0) ≡ false = ground (arith, ok.0, ok.1) in
      let u : World T = record w { trace = Call.recv fd (p.chunk - offset) ∷ w.trace } in
      let filled = take offset buffer ++ (m ++ drop (offset + length m) buffer) in
      rw (size, text, take-all (length m) m (omega arith), more)
        (>>=-cong (push e p filled) _ _ u λ r v pushed.
          receive_loop-messages peer p left rounds 0 filled
            (record v { trace = Call.send fd (time_zero e) ∷ v.trace })
            (ap (λ n. drop n messages)
                (Keeps-received (push e p filled) (server_sppush_push-Keeps e _ _ _ _ _) u v r
                  pushed)
              ∙ drop-suc messages left (received w.trace) m eq)
            ok.2 small (omega arith))
