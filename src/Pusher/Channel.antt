-- ===== src/Pusher/Channel.antt =====
-- One packet to the speakers of a channel (server_sppush_push_channel).
use castserver.Base.{
  ℕ, pos, ◌≤◌, ◌≡◌, refl, sym, ap, ◌∙◌, ◌≢◌, Bool-cases, inl, inr, true, List, [], ◌∷◌, ◌++◌, map,
  length, take, drop, length-append, length-drop, drop-length, arith, All, logged, ◌==◌,
  if◌then◌else◌,
}
use castserver.Types.{Speaker, Call}
use castserver.Env.{Env, Store}
use castserver.World.{World, pure, settled, >>=-done, done, speaker, state_of}
use castserver.Pusher.{next_seq, push_loop, server_sppush_push_channel}
use castserver.Pusher.Send.{is_ready, audio, pusher_sendto_speaker_lem}

module _ {T : Type 0} (e : Env T) where
  -- `pcm_header_encode` writes the bytes of the header at the start of the buffer, and no others.
  abbrev pub EncodesHeader : (List ℕ → List ℕ) → Type 0
  EncodesHeader header =
      (buf head : List ℕ)
      → e.pcm_header_size ≤ length buf
      → (length (header head) ≡ e.pcm_header_size)
        × (e.pcm_header_encode buf head ≡ header head ++ drop e.pcm_header_size buf)

  abbrev pub AllReady : (ℕ → Speaker) → List ℕ → Type 0
  AllReady mem sps = All (λ sp. (sp ≢ 0) × (is_ready e (mem sp) ≡ true)) sps

  -- The packet for one speaker: the header, and what the buffer holds behind it.
  abbrev pub packet_for : (ℕ → Speaker) → List ℕ → ℕ → ℕ → Call
  packet_for mem contents len sp = audio e (mem sp) (take len contents)

  -- What a push leaves: the packets on the trace, and the buffer changed in its header only.
  pub record Pushed (header : List ℕ → List ℕ) (sps : List ℕ) (len : ℕ) (w v : World T)
      : Type 0 where
    pub speakers : v.speakers ≡ w.speakers
    pub head : v.pusher.pcm_head ≡ w.pusher.pcm_head
    pub body :
        drop e.pcm_header_size v.pusher.channel_buffer
        ≡ drop e.pcm_header_size w.pusher.channel_buffer
    pub size : length v.pusher.channel_buffer ≡ length w.pusher.channel_buffer
    pub trace :
        v.trace
        ≡ logged
            (map
              (packet_for w.speakers.mem
                (header w.pusher.pcm_head ++ drop e.pcm_header_size w.pusher.channel_buffer)
                len)
              sps)
            w.trace

  abbrev with_header : World T → World T
  with_header w = record w {
    pusher = record (w.pusher) {
      channel_buffer = e.pcm_header_encode w.pusher.channel_buffer w.pusher.pcm_head;
    };
  }

  body-encode :
      (header : List ℕ → List ℕ)
      → EncodesHeader header
      → (buf head : List ℕ) → e.pcm_header_size ≤ length buf
      → (drop e.pcm_header_size (e.pcm_header_encode buf head) ≡ drop e.pcm_header_size buf)
        × (length (e.pcm_header_encode buf head) ≡ length buf)
  body-encode header enc buf head fits =
      let (size, eq) = enc buf head fits in
      let body = drop e.pcm_header_size buf in
      (
        ap (drop e.pcm_header_size) eq
            ∙ (ap (λ n. drop n (header head ++ body)) (sym size) ∙ drop-length (header head) body),
        omega (
          arith,
          ap length eq,
          length-append (header head) body,
          length-drop e.pcm_header_size buf,
        ),
      )

  abbrev sent_to : ℕ → ℕ → World T → World T
  sent_to sp len w = record (with_header w) {
    trace =
        audio e (speaker w sp)
          (take len (e.pcm_header_encode w.pusher.channel_buffer w.pusher.pcm_head))
        ∷ w.trace;
  }

  push_loop-step :
      (sp : ℕ) (rest : List ℕ) (len : ℕ) (w : World T)
      → sp ≢ 0
      → is_ready e (speaker w sp) ≡ true
      → len ≤ length (e.pcm_header_encode w.pusher.channel_buffer w.pusher.pcm_head)
      → push_loop e (sp ∷ rest) len w ≡ push_loop e rest len (sent_to sp len w)
  unfolding push_loop
  push_loop-step sp rest len w live ready fits = ground (
    arith,
    pusher_sendto_speaker_lem e sp (e.pcm_header_encode w.pusher.channel_buffer w.pusher.pcm_head)
        len (with_header w) live fits,
  )

  Pushed-cons :
      (header : List ℕ → List ℕ)
      → EncodesHeader header
      → (sp : ℕ) (rest : List ℕ) (len : ℕ) (w v : World T)
      → e.pcm_header_size ≤ length w.pusher.channel_buffer
      → Pushed header rest len (sent_to sp len w) v
      → Pushed header (sp ∷ rest) len w v
  Pushed-cons header enc sp rest len w v room p =
      let (size, eq) = enc w.pusher.channel_buffer w.pusher.pcm_head room in
      let (body, total) = body-encode header enc w.pusher.channel_buffer w.pusher.pcm_head room in
      let packets : List ℕ → List Call =
        λ b. map (packet_for w.speakers.mem (header w.pusher.pcm_head ++ b) len) rest in
      let first : List ℕ → List Call = λ b. audio e (speaker w sp) (take len b) ∷ w.trace in
      let old = drop e.pcm_header_size w.pusher.channel_buffer in
      record {
        speakers = p.speakers;
        head = p.head;
        body = p.body ∙ body;
        size = p.size ∙ total;
        trace =
            p.trace
            ∙ (ap
                  (λ b.
                    logged (packets b)
                      (first (e.pcm_header_encode w.pusher.channel_buffer w.pusher.pcm_head)))
                  body
                ∙ ap (λ b. logged (packets old) (first b)) eq);
      }

  pub push_loop-Pushed :
      (header : List ℕ → List ℕ)
      → EncodesHeader header
      → (sps : List ℕ) (len : ℕ) (w : World T) → e.pcm_header_size ≤ length w.pusher.channel_buffer
      → len ≤ length w.pusher.channel_buffer
      → AllReady w.speakers.mem sps
      → (push_loop e sps len w ≡ done tt (state_of (push_loop e sps len w)))
        × Pushed header sps len w (state_of (push_loop e sps len w))
  unfolding push_loop
  push_loop-Pushed header enc [] len w room fits ready =
      (refl, record { speakers = refl; head = refl; body = refl; size = refl; trace = refl })
  push_loop-Pushed header enc (sp ∷ rest) len w room fits ready =
      let (body, total) = body-encode header enc w.pusher.channel_buffer w.pusher.pcm_head room in
      let (r, p) =
        push_loop-Pushed header enc rest len (sent_to sp len w) (omega arith) (omega arith)
          ready.1 in
      rw (push_loop-step sp rest len w ready.0.0 ready.0.1 (omega arith))
        (r, Pushed-cons header enc sp rest len w _ room p)

  -- The speakers of a channel of a line; a channel with no list has none.
  abbrev pub recipients : Store T → ℕ → ℕ → List ℕ
  recipients store line ch =
      if (e.get_speaker_list store line ch).0 == 0 then [] else (e.get_speaker_list store line ch).1

  abbrev numbered : World T → World T
  numbered w = record w {
    pusher = record (w.pusher) { package_seq = next_seq w.pusher.package_seq };
  }

  pub push_channel-Pushed :
      (header : List ℕ → List ℕ)
      → EncodesHeader header
      → (line ch len : ℕ) (w : World T) → e.pcm_header_size ≤ length w.pusher.channel_buffer
      → len ≤ length w.pusher.channel_buffer
      → AllReady w.speakers.mem (recipients w.speakers line ch)
      → let v = state_of (server_sppush_push_channel e line ch len w) in
        (server_sppush_push_channel e line ch len w
          ≡ done (if (e.get_speaker_list w.speakers line ch).0 == 0 then pos 1 else pos 0) v)
        × Pushed header (recipients w.speakers line ch) len w v
  unfolding server_sppush_push_channel
  push_channel-Pushed header enc line ch len w room fits ready =
      elim (Bool-cases ((e.get_speaker_list w.speakers line ch).0 == 0)) [
        | inl none_listed ↦
            rw none_listed (
              refl,
              record { speakers = refl; head = refl; body = refl; size = refl; trace = refl },
            )
        | inr listed ↦
            let sps = (e.get_speaker_list w.speakers line ch).1 in
            let ready' = rw listed at ready in
            let (r, p) =
              push_loop-Pushed header enc (e.get_speaker_list w.speakers line ch).1 len (numbered w)
                room fits ready' in
            rw listed (
              settled (Pushed header sps len w) _ (pos 0) _
                (>>=-done (push_loop e sps len) (λ _. pure (pos 0)) (numbered w) _ tt r)
                (record {
                  speakers = p.speakers;
                  head = p.head;
                  body = p.body;
                  size = p.size;
                  trace = p.trace;
                }))
      ]
