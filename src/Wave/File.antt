-- ===== src/Wave/File.antt =====
-- The chunks of the command and then the messages, down to the datagrams (both loops of cmd_wave).
use castserver.Control.Format.{told}
use castserver.Base.{ℕ, ℤ, pos, ◌*◌, ◌/◌, ◌%◌, ◌≡◌, ap, ◌∙◌, List, ◌++◌, length, drop, All, logged}
use castserver.Types.{Call}
use castserver.Env.{Env, Store}
use castserver.World.{World, M, ◌>>◌, done, state_of, settled, >>=-done}
use castserver.Pusher.Channel.{EncodesHeader, AllReady, recipients}
use castserver.Pusher.Deinterleave.{CopiesBytes}
use castserver.Pusher.Prefix.{ReadsBytes}
use castserver.Pusher.Packets.{Room, Sent, Sent-trans}
use castserver.Wave.{Playing}
use castserver.Wave.Body.{pieces, push_all}
use castserver.Wave.Stream.{Delivers}
use castserver.Wave.Play.{left_over, play_file}
use castserver.Wave.Datagrams.{Plays, Playable, played_packets, push_all-Sent}
use castserver.Wave.Messages.{buffers, message_calls, play_messages-Sent}

module _ {T : Type 0} (e : Env T) (header : List ℕ → List ℕ) (enc : EncodesHeader e header)
    (cpy : CopiesBytes e) (reads : ReadsBytes e) (p : Playing) (ok : Playable e p) where
  abbrev len : ℕ
  len = p.per_sample_chunk_bytes

  abbrev channels : ℕ
  channels = length p.chlist

  abbrev AllTold : Store T → Type 0
  AllTold store = All (λ ch. AllReady e store.mem (recipients e store e.default_line ch)) p.chlist

  module _ (fd : ℤ) (messages : List (List ℕ)) where
    play_file-Sent :
        (peer : Delivers e fd messages) (size : ℕ) (samples : List ℕ) (left : List (List ℕ))
        (parts later : List (List (List (List ℕ)))) (rest : List ℕ) (w : World T)
        → let n = size / p.chunk in
          let first = played_packets e header p w.speakers w.pusher.pcm_head rest parts in
          let m = play_file e fd messages peer p size samples left in
          Plays channels p.bytes len (pieces p.chunk n samples) parts
          → Plays channels p.bytes len
              (buffers
                (size % p.chunk)
                (left_over e p (size % p.chunk) (drop (n * p.chunk) samples) (logged first w.trace))
                left)
              later
          → Room e len (len / channels) rest w
          → AllTold w.speakers
          → (m w ≡ done (pos 0) (state_of (m w)))
            × Sent e len
                (len / channels)
                (first
                  ++ message_calls e header fd p w.speakers w.pusher.pcm_head rest
                      (size % p.chunk)
                      later)
                rest
                w
                (state_of (m w))
    play_file-Sent peer size samples left parts later rest w plays plays' room told =
        let n = size / p.chunk in
        let bodies = pieces p.chunk n samples in
        let first = played_packets e header p w.speakers w.pusher.pcm_head rest parts in
        let (q, s) =
          push_all-Sent e header enc cpy reads p ok bodies parts rest w plays room told in
        let v = state_of (push_all e p bodies w) in
        let told' : AllTold v.speakers = rw s.speakers told in
        let buffer : List Call → List ℕ =
          λ h. left_over e p (size % p.chunk) (drop (n * p.chunk) samples) h in
        let filled : Plays channels p.bytes len (buffers (size % p.chunk) (buffer v.trace) left)
            later =
          rw s.trace plays' in
        let (r, t) =
          play_messages-Sent e header enc cpy reads p ok fd messages left later (size % p.chunk)
            (buffer v.trace) rest v filled s.room told' in
        let calls = λ (st : Store T) (h : List ℕ).
          message_calls e header fd p st h rest (size % p.chunk) later in
        let same =
          ap (λ st. calls st v.pusher.pcm_head) s.speakers ∙ ap (calls w.speakers) s.head in
        settled (Sent e len (len / channels) (first ++ calls w.speakers w.pusher.pcm_head) rest w) _
          (pos 0) _ (>>=-done (push_all e p bodies) _ w v _ q ∙ r)
          (Sent-trans e len (len / channels) first _ _ rest w v _ same s t)

    -- The calls `commands` of a computation that changes no speaker and nothing of the audio channel,
    -- and then those of the file.
    pub play_file-after :
        (peer : Delivers e fd messages) (m : M T (Unit {0})) (commands : List Call) (size : ℕ)
        (samples : List ℕ) (left : List (List ℕ)) (parts later : List (List (List (List ℕ))))
        (rest : List ℕ) (w u : World T)
        → let n = size / p.chunk in
          let first = played_packets e header p w.speakers w.pusher.pcm_head rest parts in
          let all = m >> play_file e fd messages peer p size samples left in
          m w ≡ done tt u
          → u.speakers ≡ w.speakers
          → u.pusher ≡ w.pusher
          → u.trace ≡ logged commands w.trace
          → Plays channels p.bytes len (pieces p.chunk n samples) parts
          → Plays channels p.bytes len
              (buffers
                (size % p.chunk)
                (left_over e p
                  (size % p.chunk)
                  (drop (n * p.chunk) samples)
                  (logged first (logged commands w.trace)))
                left)
              later
          → Room e len (len / channels) rest w
          → AllTold w.speakers
          → (all w ≡ done (pos 0) (state_of (all w)))
            × Sent e len
                (len / channels)
                (commands
                  ++ (first
                      ++ message_calls e header fd p w.speakers w.pusher.pcm_head rest
                          (size % p.chunk)
                          later))
                rest
                w
                (state_of (all w))
    play_file-after peer m commands size samples left parts later rest w u q sp pu tr plays plays'
          room told =
        let n = size / p.chunk in
        let calls = λ (st : Store T) (h : List ℕ).
          played_packets e header p st h rest parts
          ++ message_calls e header fd p st h rest (size % p.chunk) later in
        let first : Store T → List ℕ → List Call =
          λ st h. played_packets e header p st h rest parts in
        let filled : Plays channels p.bytes len
            (buffers (size % p.chunk)
              (left_over e p (size % p.chunk) (drop (n * p.chunk) samples)
                (logged (first u.speakers u.pusher.pcm_head) u.trace))
              left)
            later =
          rw (sp, pu, tr) plays' in
        let told' : AllTold u.speakers = rw sp told in
        let (r, t) =
          play_file-Sent peer size samples left parts later rest u plays filled
            (record { room = rw pu room.room; behind = rw pu room.behind }) told' in
        let same =
          ap (λ st. calls st u.pusher.pcm_head) sp ∙ ap (λ x. calls w.speakers x.pcm_head) pu in
        settled
          (Sent e len (len / channels) (commands ++ calls w.speakers w.pusher.pcm_head) rest w) _
          (pos 0) _ (>>=-done m (λ _. play_file e fd messages peer p size samples left) w u _ q ∙ r)
          (Sent-trans e len (len / channels) commands _ _ rest w u _ same
            (record {
              speakers = sp;
              head = ap (λ x. x.pcm_head) pu;
              room = record { room = rw pu room.room; behind = rw pu room.behind };
              trace = tr;
            })
            t)
