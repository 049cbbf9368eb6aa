-- ===== src/Http/Path.antt =====
-- Which files the HTTP handler opens (ahc_echo).
use castserver.Base.{
  ℕ, suc, ℤ, pos, is_nonzero, ◌<◌, ◌≡◌, refl, true, false, not, ◌||◌, List, [], ◌∷◌, ◌++◌, length,
  codes, arith, if◌then◌else◌,
}
use castserver.Types.{Call}
use castserver.Env.{Env}
use castserver.World.{World, done}
use castserver.Http.{Method, is_read, page, path_size, has_dot_slash, ahc_echo, mhd_no}

parent-has_dot_slash : (a b : List ℕ) → has_dot_slash (a ++ (codes "../" ++ b)) ≡ true
unfolding has_dot_slash
parent-has_dot_slash [] b = refl
parent-has_dot_slash (c ∷ []) b = ground (arith, parent-has_dot_slash [] b)
parent-has_dot_slash (c ∷ d ∷ a) b = ground (arith, parent-has_dot_slash (d ∷ a) b)

module _ {T : Type 0} (e : Env T) where
  -- The trace after the page was queued as the answer.
  abbrev pub page_queued : List Call → List Call
  page_queued t =
      Call.mhd_destroy_response ∷ Call.mhd_queue_response ∷ Call.mhd_response_from_buffer page ∷ t

  abbrev pub queue_result : List Call → ℤ
  queue_result t = e.ret t Call.mhd_queue_response

  -- A request whose path steps to a parent directory, "../" anywhere in it, opens no file: the demo
  -- page is the answer.
  pub parent_refused :
      (a b : List ℕ) (method : Method) (w : World T)
      → is_read method ≡ true
      → ahc_echo e (a ++ (codes "../" ++ b)) method 0 true w
        ≡ done
            (queue_result (Call.mhd_response_from_buffer page ∷ w.trace), false)
            (record w { trace = page_queued w.trace })
  unfolding ahc_echo
  parent_refused a b method w read = rw (read, parent-has_dot_slash a b) refl

  -- The calls for a file that was opened: it is examined, and sent where it is regular, else closed.
  abbrev pub opened : List ℕ → World T → List Call
  opened url w = Call.open_file (w.http.root_path ++ url) ∷ w.trace

  -- A request for a file that can be opened, by a path that fits and has no "./": where it is a
  -- regular file, the answer is made of it with its size, and where it is none, it is closed and the
  -- page is the answer. No other file is opened. The result is that of queueing the answer; where
  -- no answer can be made of the file, it is closed and the result is MHD_NO. No `close` fails.
  pub ahc_echo_file :
      (url : List ℕ) (method : Method) (n : ℕ) (w : World T)
      → is_read method ≡ true
      → has_dot_slash url ≡ false
      → length (w.http.root_path ++ url) < path_size
      → let fd = pos (suc n) in
        let t = opened url w in
        let seen = Call.fstat fd ∷ t in
        let closed = Call.close fd ∷ seen in
        let made = Call.mhd_response_from_fd (e.st_size seen) fd ∷ seen in
        e.ret w.trace (Call.open_file (w.http.root_path ++ url)) ≡ fd
        → ((s : List Call) → e.ret s (Call.close fd) ≡ pos 0)
        → ahc_echo e url method 0 true w ≡ (
            if is_nonzero (e.ret t (Call.fstat fd)) || not (e.s_isreg seen)
            then done
                (queue_result (Call.mhd_response_from_buffer page ∷ closed), false)
                (record w { trace = page_queued closed })
            else if is_nonzero (e.ret seen (Call.mhd_response_from_fd (e.st_size seen) fd))
            then done
                (queue_result made, false)
                (record w { trace = Call.mhd_destroy_response ∷ Call.mhd_queue_response ∷ made })
            else done (mhd_no, false) (record w { trace = Call.close fd ∷ made }))
  unfolding ahc_echo
  ahc_echo_file url method n w read plain fits found closes =
      let fd = pos (suc n) in
      let seen = Call.fstat fd ∷ opened url w in
      ground (arith, closes seen, closes (Call.mhd_response_from_fd (e.st_size seen) fd ∷ seen))
