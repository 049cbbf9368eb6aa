-- ===== src/Detect/Speaker.antt =====
-- What a detect request does to the speakers (valid_speaker).
use castserver.Base.{
  ℕ, pos, negsuc, ◌≡◌, ap, ◌∙◌, ◌≢◌, Bool, true, false, not, ◌&&◌, ◌∷◌, none, arith, ◌==◌,
  if◌then◌else◌,
}
use castserver.Types.{DetectRequest, Call}
use castserver.Env.{Env}
use castserver.World.{World, done, speaker, write_self, write-write, write_mem}
use castserver.Control.{clock}
use castserver.Control.Send.{is_reachable, sent, server_spctrl_speaker_lem}
use castserver.Pusher.Connect.{may_connect, given_fd, connected, server_sppush_connect_lem}
use castserver.Control.{server_spctrl_set_time, server_spctrl_speaker}
use castserver.Detect.{is_supported, of_bool, sample_packet, call_detect_cb, welcome, valid_speaker}

module _ {T : Type 0} (e : Env T) where
  -- The request names a format at all.
  abbrev pub has_format : DetectRequest → Bool
  has_format header = not (header.bits_mask == 0) && not (header.rate_mask == 0)

  -- A known speaker after its request: the flag is set anew and its state is checked.
  abbrev pub renewed : DetectRequest → ℕ → World T → World T
  renewed header sp w = record w {
    speakers =
        e.speaker_check_online
          (write_mem w.speakers sp
            (record (speaker w sp) { supported = of_bool (is_supported e header) }))
          sp;
  }

  -- A request of a speaker that is known gives 0, sets anew whether the speaker is supported, checks
  -- whether it is online, and makes no call.
  pub valid_speaker_known :
      (header : DetectRequest) (sp : ℕ) (w : World T)
      → has_format header ≡ true
      → e.find_speaker_by_id w.speakers header.id ≡ sp
      → sp ≢ 0
      → valid_speaker e header w ≡ done (pos 0) (renewed header sp w)
  unfolding valid_speaker
  valid_speaker_known header sp w h found known = ground arith

  abbrev pub new_pointer : DetectRequest → World T → ℕ
  new_pointer header w = (e.add_speaker w.speakers header.id e.default_line e.default_channel).0

  -- The speakers with the new one, as its request describes it.
  abbrev pub introduced : DetectRequest → World T → World T
  introduced header w =
      let (p, added) = e.add_speaker w.speakers header.id e.default_line e.default_channel in
      let flagged =
        write_mem added p (record (added.mem p) { supported = of_bool (is_supported e header) }) in
      record w {
        speakers =
            e.speaker_check_online (write_mem flagged p (e.init_from_header (flagged.mem p) header))
              p;
      }

  pub valid_speaker-new :
      (header : DetectRequest) (w : World T)
      → has_format header ≡ true
      → e.find_speaker_by_id w.speakers header.id ≡ 0
      → new_pointer header w ≢ 0
      → valid_speaker e header w
        ≡ welcome e (new_pointer header w) (is_supported e header) (introduced header w)
  unfolding valid_speaker
  valid_speaker-new header w h unknown added = ground arith

  welcome_unsupported :
      (p : ℕ) (w : World T)
      → e.speaker_supported (speaker w p) ≡ false
      → welcome e p false w ≡ done (negsuc 0) w
  unfolding welcome
  welcome_unsupported p w h = ground (arith, server_sppush_connect_lem e p w)

  -- The new speaker with its socket and the moment of its connection.
  abbrev pub clocked : ℕ → World T → World T
  clocked p w = record w {
    trace = Call.gettimeofday ∷ (connected e p w).trace;
    speakers =
        write_mem w.speakers p
          (record (speaker w p) { fd = given_fd e w; conn_time = clock e (connected e p w) });
  }

  clocked-connected :
      (p : ℕ) (w : World T) → server_spctrl_set_time e p (connected e p w) ≡ done tt (clocked p w)
  unfolding server_spctrl_set_time
  clocked-connected p w =
      let with_fd = record (speaker w p) { fd = given_fd e w } in
      ground (
        arith,
        write_self w.speakers.mem p with_fd,
        write-write w.speakers.mem p with_fd
            (record with_fd { conn_time = clock e (connected e p w) }),
      )

  abbrev pub sample_sent : ℕ → World T → World T
  sample_sent p w = sent e p (sample_packet e (speaker w p).channel) (clocked p w)

  sample-clocked :
      (p : ℕ) (w : World T)
      → p ≢ 0
      → is_reachable e (speaker w p) ≡ true
      → server_spctrl_speaker e p (sample_packet e (speaker (clocked p w) p).channel) (clocked p w)
        ≡ done (pos 0) (sample_sent p w)
  sample-clocked p w live reach =
      let struct = record (speaker w p) {
        fd = given_fd e w;
        conn_time = clock e (connected e p w);
      } in
      let at_p : speaker (clocked p w) p ≡ struct = write_self w.speakers.mem p struct in
      let reach' : is_reachable e (speaker (clocked p w) p) ≡ true =
        ap (is_reachable e) at_p ∙ reach in
      ap (λ c. server_spctrl_speaker e p (sample_packet e c) (clocked p w))
        (ap (λ s. s.channel) at_p)
      ∙ (server_spctrl_speaker_lem e p (sample_packet e (speaker w p).channel) (clocked p w) live
          ∙ rw reach')

  welcome_supported :
      (p : ℕ) (w : World T)
      → p ≢ 0
      → may_connect e (speaker w p) ≡ true
      → is_reachable e (speaker w p) ≡ true
      → w.detect.detect_cb ≡ none
      → welcome e p true w ≡ done (pos 0) (sample_sent p w)
  unfolding welcome call_detect_cb
  welcome_supported p w live may reach cb =
      ground (
        arith,
        server_sppush_connect_lem e p w,
        clocked-connected p w,
        sample-clocked p w live reach,
      )

  -- A new speaker, online with a port once it is added, whose request names a format. If the format
  -- of the server is among those that it supports, the result is 0, and the calls are, in this order:
  -- a socket, its connection to the speaker, the clock, and the sample command with the server's format
  -- and the speaker's channel. If not, the result is -1 and no call is made, but the speaker stays
  -- added. No callback is set; the flag that was set is what SPEAKER_SUPPORTED reads.
  pub valid_speaker_new :
      (header : DetectRequest) (w : World T)
      → has_format header ≡ true
      → e.find_speaker_by_id w.speakers header.id ≡ 0
      → new_pointer header w ≢ 0
      → let p = new_pointer header w in
        let v = introduced header w in
        e.speaker_supported (speaker v p) ≡ is_supported e header
        → e.speaker_is_online (speaker v p) ≡ true
        → is_reachable e (speaker v p) ≡ true
        → w.detect.detect_cb ≡ none
        → valid_speaker e header w
          ≡ (if is_supported e header then done (pos 0) (sample_sent p v) else done (negsuc 0) v)
  valid_speaker_new header w format unknown added flag online reach cb =
      let p = new_pointer header w in
      let v = introduced header w in
      valid_speaker-new header w format unknown added ∙ by_support (is_supported e header) flag
    where
      by_support :
          (b : Bool)
          → e.speaker_supported (speaker (introduced header w) (new_pointer header w)) ≡ b
          → welcome e (new_pointer header w) b (introduced header w) ≡ (
              if b
              then done (pos 0) (sample_sent (new_pointer header w) (introduced header w))
              else done (negsuc 0) (introduced header w))
      by_support true flag =
          welcome_supported (new_pointer header w) (introduced header w) added (ground arith) reach
            cb
      by_support false flag = welcome_unsupported (new_pointer header w) (introduced header w) flag

  -- A request that names no sample width or no rate gives 1 and changes nothing.
  pub valid_speaker_rejected :
      (header : DetectRequest) (w : World T)
      → has_format header ≡ false
      → valid_speaker e header w ≡ done (pos 1) w
  unfolding valid_speaker
  valid_speaker_rejected header w h = ground arith
