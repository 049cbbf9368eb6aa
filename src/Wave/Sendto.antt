-- ===== src/Wave/Sendto.antt =====
-- The datagrams among the calls of a file that is played (cmd_wave).
use castserver.Base.{
  ℕ, ℤ, ◌+◌, ◌≡◌, refl, sym, ap, ◌∙◌, Bool, true, false, List, [], ◌∷◌, ◌++◌, length, take, drop,
  take-append-drop, append_assoc, logged, keep, keep-append, keep-logged, keep-map,
}
use castserver.Types.{Call}
use castserver.Env.{Env, Store}
use castserver.Pusher.Channel.{recipients, packet_for}
use castserver.Pusher.Frames.{interleave, channel_bytes}
use castserver.Pusher.Packets.{channel_packets, all_packets}
use castserver.Wave.{Playing, time_zero}
use castserver.Wave.Datagrams.{played_packets}
use castserver.Wave.Messages.{message_calls}

abbrev pub is_sendto : Call → Bool
is_sendto (Call.sendto fd packet to) = true
is_sendto call = false

module _ {T : Type 0} (e : Env T) (header : List ℕ → List ℕ) (p : Playing) (store : Store T)
    (head old : List ℕ) where
  abbrev packets : List (List (List ℕ)) → ℕ → List ℕ → List Call
  packets part i chs = all_packets e header e.default_line part store head old i chs

  abbrev played : List (List (List (List ℕ))) → List Call
  played parts = played_packets e header p store head old parts

  keep-all_packets :
      (part : List (List (List ℕ))) (i : ℕ) (chs : List ℕ)
      → keep is_sendto (packets part i chs) ≡ packets part i chs
  keep-all_packets part i [] = refl
  keep-all_packets part i (ch ∷ chs) =
      keep-append is_sendto (channel_packets e header e.default_line part store head old i ch)
        (packets part (i + 1) chs)
      ∙ (ap (λ k. k ++ keep is_sendto (packets part (i + 1) chs))
            (keep-map is_sendto
              (packet_for e store.mem (header head ++ (channel_bytes i part ++ old))
                (length (interleave part) + e.pcm_header_size))
              (λ sp. refl) (recipients e store e.default_line ch))
          ∙ ap (λ k. channel_packets e header e.default_line part store head old i ch ++ k)
              (keep-all_packets part (i + 1) chs))

  keep-played_packets :
      (parts : List (List (List (List ℕ)))) → keep is_sendto (played parts) ≡ played parts
  keep-played_packets [] = refl
  keep-played_packets (part ∷ parts) =
      keep-append is_sendto (packets part 0 p.chlist) (played parts)
      ∙ (ap (λ k. k ++ keep is_sendto (played parts)) (keep-all_packets part 0 p.chlist)
          ∙ ap (λ k. packets part 0 p.chlist ++ k) (keep-played_packets parts))

  -- Between the datagrams, the calls for the messages are receptions and answers.
  keep-message_calls :
      (fd : ℤ) (offset : ℕ) (parts : List (List (List (List ℕ))))
      → keep is_sendto (message_calls e header fd p store head old offset parts) ≡ played parts
  keep-message_calls fd offset [] = refl
  keep-message_calls fd offset (part ∷ parts) =
      let later = message_calls e header fd p store head old 0 parts in
      keep-append is_sendto (packets part 0 p.chlist) (Call.send fd (time_zero e) ∷ later)
      ∙ (ap (λ k. k ++ keep is_sendto later) (keep-all_packets part 0 p.chlist)
          ∙ ap (λ k. packets part 0 p.chlist ++ k) (keep-message_calls fd 0 parts))

  played_packets-append :
      (xs ys : List (List (List (List ℕ)))) → played (xs ++ ys) ≡ played xs ++ played ys
  played_packets-append [] ys = refl
  played_packets-append (x ∷ xs) ys =
      ap (λ k. packets x 0 p.chlist ++ k) (played_packets-append xs ys)
      ∙ sym (append_assoc (packets x 0 p.chlist) (played xs) (played ys))

  keep-calls :
      (commands : List Call) (fd : ℤ) (offset n : ℕ) (parts : List (List (List (List ℕ))))
      → keep is_sendto commands ≡ commands
      → keep is_sendto (
          commands
          ++ (played (take n parts)
              ++ message_calls e header fd p store head old offset (drop n parts)))
        ≡ commands ++ played parts
  keep-calls commands fd offset n parts same =
      let first = played (take n parts) in
      let later = message_calls e header fd p store head old offset (drop n parts) in
      keep-append is_sendto commands (first ++ later)
      ∙ (ap (λ k. k ++ keep is_sendto (first ++ later)) same
          ∙ ap (λ k. commands ++ k)
              (keep-append is_sendto first later
                ∙ (ap (λ k. k ++ keep is_sendto later) (keep-played_packets (take n parts))
                    ∙ (ap (λ k. first ++ k) (keep-message_calls fd offset (drop n parts))
                        ∙ (sym (played_packets-append (take n parts) (drop n parts))
                            ∙ ap played (take-append-drop n parts))))))

  -- The datagrams of a trace that has the commands, the chunks and the messages on it.
  pub heard :
      (commands : List Call) (fd : ℤ) (offset n : ℕ) (parts : List (List (List (List ℕ))))
      → keep is_sendto commands ≡ commands
      → (t trace : List Call)
      → trace
        ≡ logged
            (commands
              ++ (played (take n parts)
                  ++ message_calls e header fd p store head old offset (drop n parts)))
            t
      → keep is_sendto trace ≡ logged (commands ++ played parts) (keep is_sendto t)
  heard commands fd offset n parts same t trace eq =
      ap (keep is_sendto) eq
      ∙ (keep-logged is_sendto
            (commands
              ++ (played (take n parts)
                  ++ message_calls e header fd p store head old offset (drop n parts)))
            t
          ∙ ap (λ k. logged k (keep is_sendto t)) (keep-calls commands fd offset n parts same))
