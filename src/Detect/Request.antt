-- ===== src/Detect/Request.antt =====
-- What is answered to a message on the multicast group (srv_detect_read).
use castserver.Base.{
  ℕ, ℤ, pos, negsuc, is_neg, ◌≡◌, ◌≢◌, Bool, true, false, not, ◌&&◌, List, ◌∷◌, none, arith, ◌==◌,
  if◌then◌else◌,
}
use castserver.Types.{Addr, Sockaddr, DetectRequest, Call}
use castserver.Env.{Env}
use castserver.World.{World, done, speaker}
use castserver.Detect.{is_supported, response_port, is_probe, valid_speaker, srv_detect_read}
use castserver.Detect.Speaker.{
  has_format, renewed, new_pointer, introduced, sample_sent, valid_speaker_known, valid_speaker_new,
  valid_speaker_rejected,
}
use castserver.Control.Send.{is_reachable}

module _ {T : Type 0} (e : Env T) where
  abbrev pub request_of : Sockaddr → List ℕ → DetectRequest
  request_of src packet = e.detect_request_decode src.ss_family packet

  -- The message is no probe of another server, has the size of a request, comes from the address that
  -- it claims, and names a format.
  abbrev pub is_request : Sockaddr → List ℕ → ℕ → Bool
  is_request src packet len =
      not (is_probe e packet len)
      && (len == e.detect_request_size src.ss_family
          && (e.equal_sock_addr src (request_of src packet).addr
              && has_format e (request_of src packet)))

  -- A message that is neither a probe nor a request, such as one whose sender is not the address that
  -- it claims, gives -1: no speaker is added or changed, and nothing is sent.
  pub srv_detect_read_ignored :
      (src : Sockaddr) (packet : List ℕ) (len : ℕ) (w : World T)
      → is_probe e packet len ≡ false
      → is_request src packet len ≡ false
      → srv_detect_read e src packet len w ≡ done (negsuc 0) w
  unfolding srv_detect_read
  srv_detect_read_ignored src packet len w probe bad =
      ground (arith, valid_speaker_rejected e (request_of src packet) w)

  -- The datagram of the server's address, for a speaker.
  abbrev pub response : Addr → World T → Call
  response addr w =
      Call.sendto w.detect.read_fd
        (e.detect_response_bytes (record (w.detect.server_notify_resp) { type = 0 }))
        (e.set_sockaddr addr response_port)

  abbrev pub responded : Addr → World T → World T
  responded addr w = record w {
    trace = response addr w ∷ w.trace;
    detect = record (w.detect) {
      server_notify_resp = record (w.detect.server_notify_resp) { type = 0 };
    };
  }

  -- 0, or -1 if the answer could not be sent.
  abbrev pub response_result : Addr → World T → ℤ
  response_result addr w = if is_neg (e.ret w.trace (response addr w)) then negsuc 0 else pos 0

  srv_detect_read-accepted :
      (src : Sockaddr) (packet : List ℕ) (len : ℕ) (w v : World T)
      → is_request src packet len ≡ true
      → valid_speaker e (request_of src packet) w ≡ done (pos 0) v
      → srv_detect_read e src packet len w
        ≡ done
            (response_result (request_of src packet).addr v)
            (responded (request_of src packet).addr v)
  unfolding srv_detect_read
  srv_detect_read-accepted src packet len w v good valid = ground arith

  srv_detect_read-refused :
      (src : Sockaddr) (packet : List ℕ) (len : ℕ) (w v : World T)
      → is_request src packet len ≡ true
      → valid_speaker e (request_of src packet) w ≡ done (negsuc 0) v
      → srv_detect_read e src packet len w ≡ done (negsuc 0) v
  unfolding srv_detect_read
  srv_detect_read-refused src packet len w v good valid = ground arith

  srv_detect_read-decided :
      (src : Sockaddr) (packet : List ℕ) (len : ℕ) (w u v : World T) (b : Bool)
      → is_request src packet len ≡ true
      → valid_speaker e (request_of src packet) w
        ≡ (if b then done (pos 0) u else done (negsuc 0) v)
      → srv_detect_read e src packet len w ≡ (
          if b
          then done
              (response_result (request_of src packet).addr u)
              (responded (request_of src packet).addr u)
          else done (negsuc 0) v)
  srv_detect_read-decided src packet len w u v true good valid =
      srv_detect_read-accepted src packet len w u good valid
  srv_detect_read-decided src packet len w u v false good valid =
      srv_detect_read-refused src packet len w v good valid

  -- A request of a known speaker is answered, to the address that it claims, and makes no other call:
  -- whether it is supported is set anew and whether it is online is checked. The result is 0, or -1
  -- when the answer could not be sent. This holds for a speaker that is not supported, too.
  pub srv_detect_read_known :
      (src : Sockaddr) (packet : List ℕ) (len sp : ℕ) (w : World T)
      → is_request src packet len ≡ true
      → e.find_speaker_by_id w.speakers (request_of src packet).id ≡ sp
      → sp ≢ 0
      → let header = request_of src packet in
        let v = renewed e header sp w in
        srv_detect_read e src packet len w
        ≡ done (response_result header.addr v) (responded header.addr v)
  srv_detect_read_known src packet len sp w good found known =
      srv_detect_read-accepted src packet len w _ good
        (valid_speaker_known e (request_of src packet) sp w (ground arith) found known)

  -- The first request of a speaker, which is online with a port once it is added, while no callback is
  -- set. If it supports the format of the server, it is connected, gets the sample command, and then
  -- the answer, and the result is 0 or, when the answer could not be sent, -1. If not, the result is
  -- -1 and nothing is sent; the speaker is added all the same.
  pub srv_detect_read_new :
      (src : Sockaddr) (packet : List ℕ) (len : ℕ) (w : World T)
      → is_request src packet len ≡ true
      → let header = request_of src packet in
        e.find_speaker_by_id w.speakers header.id ≡ 0
        → new_pointer e header w ≢ 0
        → let p = new_pointer e header w in
          let v = introduced e header w in
          e.speaker_supported (speaker v p) ≡ is_supported e header
          → e.speaker_is_online (speaker v p) ≡ true
          → is_reachable e (speaker v p) ≡ true
          → w.detect.detect_cb ≡ none
          → let u = sample_sent e p v in
            srv_detect_read e src packet len w ≡ (
              if is_supported e header
              then done (response_result header.addr u) (responded header.addr u)
              else done (negsuc 0) v)
  srv_detect_read_new src packet len w good unknown added flag online reach cb =
      srv_detect_read-decided src packet len w _ _ (is_supported e (request_of src packet)) good (
        valid_speaker_new e (request_of src packet) w (ground arith) unknown added flag online reach
          cb)
