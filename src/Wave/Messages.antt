-- ===== src/Wave/Messages.antt =====
-- The messages of the connection, down to the datagrams (the second loop of cmd_wave).
use castserver.Control.Format.{told}
use castserver.Base.{
  ℕ, ℤ, pos, ◌+◌, ◌-◌, ◌/◌, ◌≡◌, refl, sym, ap, ◌∙◌, List, [], ◌∷◌, ◌++◌, length, take, drop, All,
  logged, logged-append,
}
use castserver.Types.{Call}
use castserver.Env.{Env, Store}
use castserver.World.{World, done, state_of, settled, >>=-done}
use castserver.Pusher.Channel.{EncodesHeader, AllReady, recipients}
use castserver.Pusher.Deinterleave.{CopiesBytes}
use castserver.Pusher.Prefix.{ReadsBytes}
use castserver.Pusher.Packets.{all_packets, Room, Sent}
use castserver.Wave.{Playing, push, time_zero}
use castserver.Wave.Stream.{play_messages}
use castserver.Wave.Datagrams.{Plays, Playable, push-Sent}

-- The buffer of a chunk after each message: the first one is put behind an offset.
abbrev pub buffers : ℕ → List ℕ → List (List ℕ) → List (List ℕ)
buffers offset buffer [] = []
buffers offset buffer (m ∷ rest) =
    let filled = take offset buffer ++ (m ++ drop (offset + length m) buffer) in
    filled ∷ buffers 0 filled rest

-- The calls for the messages: each is received, its buffer goes to the speakers, and it is answered;
-- then the peer ends the connection.
abbrev pub message_calls :
    {T : Type 0} (e : Env T)
    → (List ℕ → List ℕ)
    → ℤ
    → Playing
    → Store T
    → List ℕ
    → List ℕ
    → ℕ
    → List (List (List (List ℕ)))
    → List Call
message_calls e header fd p store head rest offset [] = Call.recv fd (p.chunk - offset) ∷ []
message_calls e header fd p store head rest offset (part ∷ parts) =
    Call.recv fd (p.chunk - offset)
    ∷ (all_packets e header e.default_line part store head rest 0 p.chlist
        ++ (Call.send fd (time_zero e) ∷ message_calls e header fd p store head rest 0 parts))

module _ {T : Type 0} (e : Env T) (header : List ℕ → List ℕ) (enc : EncodesHeader e header)
    (cpy : CopiesBytes e) (reads : ReadsBytes e) (p : Playing) (ok : Playable e p) where
  abbrev len : ℕ
  len = p.per_sample_chunk_bytes

  abbrev channels : ℕ
  channels = length p.chlist

  abbrev AllTold : Store T → Type 0
  AllTold store = All (λ ch. AllReady e store.mem (recipients e store e.default_line ch)) p.chlist

  module _ (fd : ℤ) (messages : List (List ℕ)) where
    pub play_messages-Sent :
        (left : List (List ℕ)) (parts : List (List (List (List ℕ)))) (offset : ℕ)
        (buffer rest : List ℕ) (w : World T)
        → Plays channels p.bytes len (buffers offset buffer left) parts
        → Room e len (len / channels) rest w
        → AllTold w.speakers
        → let m = play_messages e fd messages p left offset buffer in
          (m w ≡ done (pos 0) (state_of (m w)))
          × Sent e len
              (len / channels)
              (message_calls e header fd p w.speakers w.pusher.pcm_head rest offset parts)
              rest
              w
              (state_of (m w))
    play_messages-Sent [] [] offset buffer rest w plays room told = (
      refl,
      record {
        speakers = refl;
        head = refl;
        room = record { room = room.room; behind = room.behind };
        trace = refl;
      },
    )
    play_messages-Sent [] (part ∷ parts) offset buffer rest w plays room told = absurd plays
    play_messages-Sent (m ∷ left) [] offset buffer rest w plays room told = absurd plays
    play_messages-Sent (m ∷ left) (part ∷ parts) offset buffer rest w plays room told =
        let filled = take offset buffer ++ (m ++ drop (offset + length m) buffer) in
        let asked = Call.recv fd (p.chunk - offset) in
        let answer = Call.send fd (time_zero e) in
        let u : World T = record w { trace = asked ∷ w.trace } in
        let (q, s) =
          push-Sent e header enc cpy reads p ok filled part rest u plays.0 plays.1 plays.2
            (record { room = room.room; behind = room.behind }) told in
        let v = state_of (push e p filled u) in
        let x : World T = record v { trace = answer ∷ v.trace } in
        let told' : AllTold x.speakers = rw s.speakers told in
        let (r, t) =
          play_messages-Sent left parts 0 filled rest x plays.3
            (record { room = s.room.room; behind = s.room.behind }) told' in
        let calls = λ (st : Store T) (h : List ℕ). message_calls e header fd p st h rest 0 parts in
        let first =
          all_packets e header e.default_line part w.speakers w.pusher.pcm_head rest 0 p.chlist in
        let later = calls w.speakers w.pusher.pcm_head in
        let same : calls x.speakers v.pusher.pcm_head ≡ later =
          ap (λ st. calls st v.pusher.pcm_head) s.speakers ∙ ap (calls w.speakers) s.head in
        settled
          (Sent e len (len / channels)
            (message_calls e header fd p w.speakers w.pusher.pcm_head rest offset (part ∷ parts))
            rest w)
          _ (pos 0) _ (>>=-done (push e p filled) _ u v _ q ∙ r)
          (record {
            speakers = t.speakers ∙ s.speakers;
            head = t.head ∙ s.head;
            room = record { room = t.room.room; behind = t.room.behind };
            trace =
                t.trace
                ∙ (ap (λ k. logged k (answer ∷ v.trace)) same
                    ∙ (ap (λ l. logged later (answer ∷ l)) s.trace
                        ∙ sym (logged-append first (answer ∷ later) (asked ∷ w.trace))));
          })
