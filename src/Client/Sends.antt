-- ===== src/Client/Sends.antt =====
-- What the client sends when it plays a file.
use castserver.Base.{◌≤◌}
use castserver.Base.{
  ℕ, zero, suc, ℤ, negsuc, is_nonpos, eq_int, overlay, ◌+◌, ◌*◌, ◌%◌, ◌^◌, ◌<◌, ◌≡◌, ◌≢◌, refl, ap,
  ◌∙◌, sym, Bool, Bool-cases, true, false, List, [], ◌∷◌, ◌++◌, length, take, drop, length-drop,
  append_assoc, append-nil, All, arith, inl, inr, ◌==◌,
}
use mathlib.Core.List.{flatten}
use castserver.Types.{Call}
use castserver.Env.{Env}
use castserver.Process.{Proc, done, exited, ◌>>=◌, ◌>>◌, pure, >>=-done}
use castserver.Client.{Client, word, pipe_request, wait_for, send_loop, exit_thread, pipe_init}
use castserver.Client.Blocks.{
  blocks, reads, IsReads, reads-IsReads, fread-back, flatten-blocks, length-blocks,
}
use castserver.Client.Pipe.{talk, send_loop-talk, first_part, last_wait}

-- The messages that were sent in a history, in order.
abbrev pub messages : List Call → List (List ℕ)
messages [] = []
messages (Call.send fd m ∷ trace) = messages trace ++ (m ∷ [])
messages (_ ∷ trace) = messages trace

module _ {T : Type 0} (e : Env T) where
  -- No `send` fails.
  abbrev pub Sends : Type 0
  Sends =
      (h : List Call) (fd : ℤ) (m : List ℕ) → eq_int (e.ret h (Call.send fd m)) (negsuc 0) ≡ false

  -- The computation returns, and sends the messages.
  record Said {A : Type 0} (m : Proc Client A) (sent : List (List ℕ)) (w : Client) : Type 0 where
    result : A
    after : Client
    runs : m w ≡ done result after
    trace : messages after.trace ≡ messages w.trace ++ sent

  wait_for-Said :
      (time : ℕ) (sleep_time : List ℕ) (w : Client) → Said (wait_for e time sleep_time) [] w
  wait_for-Said time sleep_time w =
      let n = e.ret w.trace (Call.recv w.sockfd 4) in
      let filled = overlay n (e.bytes w.trace (Call.recv w.sockfd 4)) sleep_time in
      elim (Bool-cases (is_nonpos n)) [
        | inl none ↦ record {
          result = sleep_time;
          after = record w { trace = Call.recv w.sockfd 4 ∷ w.trace };
          runs = rw (none, ◌>>=◌) refl;
          trace = sym (append-nil (messages w.trace));
        }
        | inr some ↦ record {
          result = filled;
          after = record w {
            trace = Call.usleep ((time + word filled) % 2 ^ 32) ∷ Call.recv w.sockfd 4 ∷ w.trace;
          };
          runs = rw (some, ◌>>=◌) refl;
          trace = sym (append-nil (messages w.trace));
        }
      ]

  talk-Said :
      (works : Sends) (time : ℕ) (sent : List (List ℕ)) (sleep_time : List ℕ) (w : Client)
      → (st : List ℕ) × ((v : Client) × ((talk e time sent sleep_time w ≡ done (true, st) v)
            × (messages v.trace ≡ messages w.trace ++ sent)))
  talk-Said works time [] sleep_time w =
      (sleep_time, (w, (refl, sym (append-nil (messages w.trace)))))
  talk-Said works time (block ∷ rest) sleep_time w =
      let u : Client = record w { trace = Call.send w.sockfd block ∷ w.trace } in
      let waited = wait_for-Said time sleep_time u in
      let (st, (v, (runs, trace))) = talk-Said works time rest waited.result waited.after in
      (
        st,
        (
          v,
          (
            rw (works w.trace w.sockfd block) (
                >>=-done (wait_for e time sleep_time) (λ slept. talk e time rest slept) u
                  waited.after waited.result waited.runs
                ∙ runs),
            trace
                ∙ (ap (λ m. m ++ rest) (waited.trace ∙ append-nil _)
                    ∙ append_assoc (messages w.trace) (block ∷ []) rest),
          ),
        ),
      )

  Exits : Proc Client (Unit {0}) → List (List ℕ) → Client → Type 0
  Exits m sent w =
      (v : Client) × ((m w ≡ exited 0 v) × (messages v.trace ≡ messages w.trace ++ sent))

  exit_thread-Exits : (is_stdin : Bool) (w : Client) → Exits (exit_thread e is_stdin) [] w
  unfolding Exits
  exit_thread-Exits true w = (_, (refl, sym (append-nil (messages w.trace))))
  exit_thread-Exits false w = (_, (refl, sym (append-nil (messages w.trace))))

  Said-Exits :
      {A : Type 0} (m : Proc Client A) (f : A → Proc Client (Unit {0})) (said sent : List (List ℕ))
      (w v : Client) (a : A)
      → m w ≡ done a v
      → messages v.trace ≡ messages w.trace ++ said
      → Exits (f a) sent v
      → Exits (m >>= f) (said ++ sent) w
  unfolding Exits
  Said-Exits m f said sent w v a runs trace (x, (ends, more)) = (
    x,
    (
      >>=-done m f w v a runs ∙ ends,
      more ∙ (ap (λ k. k ++ sent) trace ∙ append_assoc (messages w.trace) said sent),
    ),
  )

  reads_bound : (chunk n size : ℕ) → 0 < chunk → IsReads chunk n size → n ≤ size
  reads_bound chunk zero size some_chunk r = omega arith
  reads_bound chunk (suc n) size some_chunk r =
      let more : suc n * chunk ≡ chunk + n * chunk = grind arith in
      let room : n ≤ n * chunk = grind arith in omega (arith, r.none_empty)

  -- When no `send` fails, the first 4084 bytes of the file hold a header with a chunk that is not
  -- empty, and xmalloc gives what it is asked for, the client ends with 0, and it has sent the file:
  -- first the command with the first part of the file, then one message of exactly a chunk for each
  -- read of the rest. The file is what these messages hold, one behind the other, cut to its length;
  -- the bytes behind it are stale.
  pub pipe_init_lem :
      (is_stdin : Bool) (file : List ℕ) (w : Client)
      → Sends
      → ((h : List Call) (n : ℕ) → length (e.heap h n) ≡ n)
      → let part = first_part e file w in
        let c = e.get_chunksize part 4084 e.chunk_quality in
        let heap = e.heap (Call.send w.sockfd (pipe_request part) ∷ w.trace) c.chunk in
        let later = drop 4084 file in
        let rest = blocks c.chunk (reads c.chunk (length later)) later heap in
        e.header_check part 4084 ≢ 0
        → 0 < c.chunk
        → ((v : Client) × ((pipe_init e (is_stdin, file) w ≡ exited 0 v)
              × (messages v.trace ≡ messages w.trace ++ (pipe_request part ∷ rest))))
          × (take (length file) (part ++ flatten rest) ≡ file)
          × All (λ b. length b ≡ c.chunk) rest
  unfolding pipe_init Exits
  pipe_init_lem is_stdin file w works sized found some_chunk =
      let part = first_part e file w in
      let c = e.get_chunksize part 4084 e.chunk_quality in
      let u : Client = record w { trace = Call.send w.sockfd (pipe_request part) ∷ w.trace } in
      let heap = e.heap u.trace c.chunk in
      let later = drop 4084 file in
      let n = reads c.chunk (length later) in
      let r = reads-IsReads c.chunk (length later) some_chunk in
      let rest = blocks c.chunk n later heap in
      let header : (e.header_check part 4084 == 0) ≡ false = ground arith in
      let loop = send_loop e c.chunk c.time (suc (length file)) later heap (e.stack u.trace 4) in
      let (st, (v, (runs, said))) = talk-Said works c.time rest (e.stack u.trace 4) u in
      let waited = wait_for-Said c.time st v in
      let looped =
        send_loop-talk e c.chunk c.time n (suc (length file)) later heap (e.stack u.trace 4) u
          some_chunk r
          (omega
            (arith, reads_bound c.chunk n (length later) some_chunk r, length-drop 4084 file)) in
      let finish = λ (end : Bool × List ℕ). last_wait e c.time end >> exit_thread e is_stdin in
      let last =
        Said-Exits (last_wait e c.time (true, st)) (λ _. exit_thread e is_stdin) [] [] v
          waited.after tt
          (>>=-done (wait_for e c.time st) (λ _. pure tt) v waited.after waited.result waited.runs)
          waited.trace (exit_thread-Exits is_stdin waited.after) in
      let (x, (ends, all)) =
        Said-Exits loop finish rest [] u v (true, st) (looped ∙ runs) said last in
      (
        (
          x,
          (
            rw header ends,
            all
                ∙ (ap (λ k. messages u.trace ++ k) (append-nil rest)
                    ∙ append_assoc (messages w.trace) (pipe_request part ∷ []) rest),
          ),
        ),
        fread-back 4084 file (drop 12 (e.heap w.trace 4096)) (flatten rest)
            (omega (arith, length-drop 12 (e.heap w.trace 4096), sized w.trace 4096))
            (flatten-blocks c.chunk n later heap (sized u.trace c.chunk) r),
        length-blocks c.chunk n later heap (sized u.trace c.chunk),
      )
