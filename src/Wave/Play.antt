-- ===== src/Wave/Play.antt =====
-- The whole of cmd_wave: a file is played from its header to the end of the connection.
use castserver.Base.{
  ℕ, suc, ℤ, ◌+◌, ◌-◌, ◌*◌, ◌/◌, ◌%◌, ◌^◌, ◌<◌, ◌≤◌, ◌≡◌, ap, ◌∙◌, ◌≢◌, false, List, [], ◌∷◌, ◌++◌,
  length, take, drop, length-drop, arith, ◌==◌, ltb, some, if◌then◌else◌,
}
use castserver.Types.{Call}
use castserver.Env.{Env}
use castserver.World.{World, M, ◌>>=◌, ◌>>◌, pure, get, undefined, >>=-cong, >>=-assoc}
use castserver.Control.{server_spctrl_set_format}
use castserver.Wave.{Playing, push, offset_of, receive_loop, play, playing, cmd_wave}
use castserver.Wave.Body.{pieces, push_all, chunk_loop-pieces, offset_of-add}
use castserver.Wave.Stream.{
  received, Fits, Delivers, play_messages, receive_loop-messages, Keeps-received,
}
use castserver.System.Frame.{is_serving, Keeps, keeps, bind-Keeps}
use castserver.System.Handlers.{server_sppush_push-Keeps, server_spctrl_set_format-Keeps}

module _ {T : Type 0} (e : Env T) where
  push_all-Keeps : (p : Playing) (bodies : List (List ℕ)) → Keeps is_serving (push_all e p bodies)
  push_all-Keeps p [] = search keeps depth 10
  push_all-Keeps p (body ∷ rest) =
      bind-Keeps is_serving (push e p body) (λ _. push_all e p rest)
        (server_sppush_push-Keeps e _ _ _ _ _) λ _. push_all-Keeps p rest

  -- The buffer before the first message: what is left of the command's bytes, and stale bytes.
  abbrev pub left_over : Playing → ℕ → List ℕ → List Call → List ℕ
  left_over p left samples trace = take left samples ++ drop left (e.heap trace p.chunk)

  module _ (fd : ℤ) (messages : List (List ℕ)) (peer : Delivers e fd messages) where
    -- The command with neither fuel nor 32-bit arithmetic: the samples that came with it chunk by
    -- chunk, then the messages one by one.
    abbrev pub play_file : Playing → ℕ → List ℕ → List (List ℕ) → M T ℤ
    play_file p size samples rest =
        let n = size / p.chunk in
        do
          push_all e p (pieces p.chunk n samples)
          v ← get
          play_messages e fd messages p rest (size % p.chunk)
              (left_over p (size % p.chunk) (drop (n * p.chunk) samples) v.trace)

    play-play_file :
        (rounds : ℕ) (p : Playing) (header_size len : ℕ) (samples : List ℕ) (rest : List (List ℕ))
        (w : World T)
        → 0 < p.chunk
        → header_size ≤ len
        → len < 2 ^ 32
        → len ≤ header_size + length samples
        → drop (received w.trace) messages ≡ rest
        → Fits p.chunk ((len - header_size) % p.chunk) rest
        → p.chunk < 2 ^ 32
        → length rest < rounds
        → play e rounds p fd header_size len samples w
          ≡ play_file p (len - header_size) samples rest w
    unfolding play
    play-play_file rounds p header_size len samples rest w some_chunk fits small whole eq ok bound
          enough =
        let size = len - header_size in
        let n = size / p.chunk in
        let left = size % p.chunk in
        let sum : size ≡ n * p.chunk + left = grind arith in
        let below : left < p.chunk = grind arith in
        let room : n ≤ n * p.chunk = grind arith in
        let at : offset_of len header_size ≡ size =
          offset_of-add header_size size len (omega arith) (omega arith) in
        let after = drop (n * p.chunk) samples in
        let enough_left : ltb (length after) left ≡ false =
          ground (arith, length-drop (n * p.chunk) samples) in
        let bodies = pieces p.chunk n samples in
        let goes_on = λ (x : List ℕ × ℕ). get >>= λ v.
        if ltb (length x.0) x.1
        then undefined
        else receive_loop e p fd rounds x.1 (left_over p x.1 x.0 v.trace) in
        ap (λ o. ((λ _. o) >>= goes_on) w)
          (chunk_loop-pieces e p header_size n left (suc (offset_of len header_size)) len samples w
            (omega arith) (omega arith) (omega arith) below (omega arith))
        ∙ (>>=-assoc (push_all e p bodies) (λ _. pure (after, left)) goes_on w
            ∙ >>=-cong (push_all e p bodies) _ _ w λ r v pushed. rw enough_left (
                receive_loop-messages e fd messages peer p rest rounds left _ v
                  (ap (λ k. drop k messages)
                      (Keeps-received (push_all e p bodies) (push_all-Keeps p bodies) w v r pushed)
                    ∙ eq)
                  ok bound enough))

    -- A file is taken chunk by chunk, in order and to its end, whatever the pushes meet. When the
    -- header is found within the `len` bytes of the command (fewer than 2³²), names a channel and a
    -- chunk that is not empty, and `rounds` exceeds the number of messages that still come from the
    -- peer, none of them empty or larger than the room that `recv` is given for it, then cmd_wave
    -- is equal to this: the speakers are told the format; the chunks that lie whole in the command
    -- are pushed, one for each, in order; the rest of the command is put at the start of a buffer
    -- of one chunk; and each message is put in the buffer, where the first follows that rest, the
    -- buffer is pushed, and the peer is answered by four zero bytes. When the peer ends the
    -- connection the result is 0. Neither the loops' fuel nor the 32-bit arithmetic shows.
    pub cmd_wave_lem :
        (rounds len : ℕ) (arg : List ℕ) (w : World T)
        → let header_size = e.header_check arg len in
          let format = e.get_format arg len in
          let p = playing e arg len in
          let rest = drop (received w.trace) messages in
          0 < header_size
          → header_size ≤ len
          → len < 2 ^ 32
          → len ≤ length arg
          → format.channels ≢ 0
          → 0 < p.chunk
          → Fits p.chunk ((len - header_size) % p.chunk) rest
          → length rest < rounds
          → cmd_wave e rounds fd (some arg) len w
            ≡ (server_spctrl_set_format e p.chlist format.samples_per_sec format.bits_per_sample
                  >> play_file p (len - header_size) (drop header_size arg) rest)
                w
    unfolding cmd_wave
    cmd_wave_lem rounds len arg w found fits small whole some_channel some_chunk ok enough =
        let header_size = e.header_check arg len in
        let format = e.get_format arg len in
        let p = playing e arg len in
        let rest = drop (received w.trace) messages in
        let told =
          server_spctrl_set_format e p.chlist format.samples_per_sec format.bits_per_sample in
        let exact : header_size % 2 ^ 32 ≡ header_size = omega arith in
        let c1 : (header_size == 0) ≡ false = ground arith in
        let c2 : (format.channels == 0) ≡ false = ground arith in
        rw (exact, c1, c2)
          (>>=-cong told _ _ w λ r v q.
            play-play_file rounds p header_size len (drop header_size arg) rest v some_chunk fits
              small (omega (arith, length-drop header_size arg))
              (ap (λ k. drop k messages)
                (Keeps-received told (server_spctrl_set_format-Keeps e _ _ _) w v r q))
              ok (omega arith) enough)
