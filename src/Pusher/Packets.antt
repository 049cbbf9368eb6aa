-- ===== src/Pusher/Packets.antt =====
-- The datagrams of a chunk of audio, and what pushing it leaves (server_sppush_push).
use castserver.Base.{
  ℕ, ◌+◌, ◌≤◌, ◌≡◌, sym, ap, ◌∙◌, List, [], ◌∷◌, ◌++◌, map, length, drop, logged, logged-append,
}
use castserver.Types.{Call}
use castserver.Env.{Env, Store}
use castserver.World.{World}
use castserver.Pusher.Channel.{packet_for, recipients}
use castserver.Pusher.Frames.{interleave, channel_bytes}

module _ {T : Type 0} (e : Env T) where
  -- The packets of the `i`-th channel of a chunk: for each of its speakers the header, the samples of
  -- the channel, and of what the buffer held behind them, `rest`, as many bytes as fill the length of
  -- the chunk of all channels.
  abbrev pub channel_packets :
      (List ℕ → List ℕ) → ℕ → List (List (List ℕ)) → Store T → List ℕ → List ℕ → ℕ → ℕ → List Call
  channel_packets header line frames store head rest i ch =
      map
        (packet_for e store.mem (header head ++ (channel_bytes i frames ++ rest))
          (length (interleave frames) + e.pcm_header_size))
        (recipients e store line ch)

  abbrev pub all_packets :
      (List ℕ → List ℕ)
      → ℕ
      → List (List (List ℕ))
      → Store T
      → List ℕ
      → List ℕ
      → ℕ
      → List ℕ
      → List Call
  all_packets header line frames store head rest i [] = []
  all_packets header line frames store head rest i (ch ∷ chs) =
      channel_packets header line frames store head rest i ch
      ++ all_packets header line frames store head rest (i + 1) chs

  -- The static buffer has room for a chunk of `len` bytes, and holds `rest` behind the `size` bytes
  -- of one channel's samples.
  pub record Room (len size : ℕ) (rest : List ℕ) (w : World T) : Type 0 where
    pub room : len + e.pcm_header_size ≤ length w.pusher.channel_buffer
    pub behind : drop (e.pcm_header_size + size) w.pusher.channel_buffer ≡ rest

  -- What a push leaves.
  pub record Sent (len size : ℕ) (packets : List Call) (rest : List ℕ) (w v : World T)
      : Type 0 where
    pub speakers : v.speakers ≡ w.speakers
    pub head : v.pusher.pcm_head ≡ w.pusher.pcm_head
    pub room : Room len size rest v
    pub trace : v.trace ≡ logged packets w.trace

  pub Sent-trans :
      (len size : ℕ) (ps qs rs : List Call) (rest : List ℕ) (w v x : World T)
      → rs ≡ qs
      → Sent len size ps rest w v
      → Sent len size rs rest v x
      → Sent len size (ps ++ qs) rest w x
  Sent-trans len size ps qs rs rest w v x eq s r = record {
    speakers = r.speakers ∙ s.speakers;
    head = r.head ∙ s.head;
    room = r.room;
    trace =
        r.trace
        ∙ (ap (λ k. logged k v.trace) eq
            ∙ (ap (logged qs) s.trace ∙ sym (logged-append ps qs w.trace)));
  }
