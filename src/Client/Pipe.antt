-- ===== src/Client/Pipe.antt =====
-- How pipe_init sends a file.
use castserver.Base.{
  ℕ, zero, suc, negsuc, eq_int, ◌+◌, ◌*◌, ◌<◌, ◌≡◌, refl, Bool, true, false, ◌&&◌, List, [], ◌∷◌,
  length, take, drop, length-take, arith, ◌==◌, if◌then◌else◌,
}
use castserver.Types.{Call}
use castserver.Env.{Env}
use castserver.Process.{Proc, ◌>>=◌, ◌>>◌, pure, get, when, >>=-cong, else-cong}
use castserver.Process.Returns.{Returns, returning}
use castserver.Client.{Client, client_call, fread, wait_for, send_loop}
use castserver.Client.Blocks.{blocks, IsReads, IsReads-next}

module _ {T : Type 0} (e : Env T) where
  client_call-Returns : (c : Call) → Returns (client_call e c)
  client_call-Returns c = record { run = λ w. (_, (_, refl)) }

  wait_for-Returns : (time : ℕ) (sleep_time : List ℕ) → Returns (wait_for e time sleep_time)
  wait_for-Returns time sleep_time = search (returning, client_call-Returns) depth 24

  -- What send_loop does with the blocks that it reads.
  abbrev pub talk : ℕ → List (List ℕ) → List ℕ → Proc Client (Bool × List ℕ)
  talk time [] sleep_time = pure (true, sleep_time)
  talk time (block ∷ rest) sleep_time = do
    w ← get
    r ← client_call e (Call.send w.sockfd block)
    v ← get
    if eq_int r (negsuc 0) && e.errno v.trace == e.epipe
        then pure (false, sleep_time)
        else do slept ← wait_for e time sleep_time; talk time rest slept

  talk-Returns :
      (time : ℕ) (sent : List (List ℕ)) (sleep_time : List ℕ) → Returns (talk time sent sleep_time)
  talk-Returns time [] sleep_time = search returning depth 10
  talk-Returns time (block ∷ rest) sleep_time =
      let others = talk-Returns time rest in
      search (returning, client_call-Returns, wait_for-Returns, others) depth 30

  pub send_loop-talk :
      (chunk time n fuel : ℕ) (file send_buf sleep_time : List ℕ) (w : Client)
      → 0 < chunk
      → IsReads chunk n (length file)
      → n < fuel
      → send_loop e chunk time fuel file send_buf sleep_time w
        ≡ talk time (blocks chunk n file send_buf) sleep_time w
  unfolding send_loop
  send_loop-talk chunk time n zero file send_buf sleep_time w some_chunk r enough = ground arith
  send_loop-talk chunk time zero (suc fuel) file send_buf sleep_time w some_chunk r enough =
      let none : (length (take chunk file) == 0) ≡ true =
        ground (arith, length-take chunk file, r.enough) in
      rw none refl
  send_loop-talk chunk time (suc n) (suc fuel) file send_buf sleep_time w some_chunk r enough =
      let more : suc n * chunk ≡ chunk + n * chunk = grind arith in
      let some_byte : (length (take chunk file) == 0) ≡ false =
        ground (arith, length-take chunk file, r.none_empty, more) in
      let filled = fread chunk file send_buf in
      let u = record w { trace = Call.send w.sockfd filled ∷ w.trace } in
      let stops =
        eq_int (e.ret w.trace (Call.send w.sockfd filled)) (negsuc 0)
        && e.errno (Call.send w.sockfd filled ∷ w.trace) == e.epipe in
      let goes_on =
        λ (k : List ℕ → Proc Client (Bool × List ℕ)). wait_for e time sleep_time >>= k in
      let loop = λ (slept : List ℕ). send_loop e chunk time fuel (drop chunk file) filled slept in
      let others = λ (slept : List ℕ). talk time (blocks chunk n (drop chunk file) filled) slept in
      rw some_byte (
        else-cong stops (pure (false, sleep_time)) (goes_on loop) (goes_on others) u (
          >>=-cong (wait_for e time sleep_time) loop others u λ slept v _.
            send_loop-talk chunk time n fuel (drop chunk file) filled slept v some_chunk
              (IsReads-next chunk n file r) (omega arith)))

  -- The part of the file in the first message, with what xmalloc left behind it.
  abbrev pub first_part : List ℕ → Client → List ℕ
  first_part file w = fread 4084 file (drop 12 (e.heap w.trace 4096))

  -- The answer that is awaited behind the loop.
  abbrev pub last_wait : ℕ → Bool × List ℕ → Proc Client (Unit {0})
  last_wait time end = when end.0 (wait_for e time end.1 >> pure tt)
