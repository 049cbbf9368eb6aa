-- ===== src/System/Handlers.antt =====
-- The functions of the running server keep its frame.
use castserver.World.{
  M, get, when, pure, modify, speaker, update_speaker, update_store, ◌>>=◌, ◌>>◌,
}
use castserver.Base.{is_nonpos, suc, ◌*◌}
use castserver.Pusher.{copy_loop}
use castserver.System.Frame.{bind-Keeps, get-Keeps}
use castserver.Base.{Bool, ◌+◌}
use castserver.Base.{ℕ, ℤ, List, [], ◌∷◌, Option, none, some}
use castserver.Types.{Addr, Sockaddr, DetectRequest, DetectFn, speaker_added_handle, ControlPackage}
use castserver.Env.{Env}
use castserver.World.{World}
use castserver.Control.{
  utime, server_spctrl_sendto_speaker, server_spctrl_speaker, spctrl_time, srv_spctrl_read,
  server_spctrl_set_time, format_loop, server_spctrl_format, server_spctrl_set_format,
}
use castserver.Pusher.{
  server_sppush_connect, server_sppush_disconnect, pusher_sendto_speaker, push_loop,
  server_sppush_push_channel, store_buffer, channels_loop, server_sppush_push, srv_sppush_read,
}
use castserver.Detect.{
  call_detect_cb, welcome, valid_speaker, respond, srv_detect_read, online_detect_loop,
  thread_online_detect,
}
use castserver.Command.{send_list, cmd_speakers}
use castserver.System.Frame.{keeps, Keeps, is_serving}

module _ {T : Type 0} (e : Env T) where
  -- server_speaker_control.c
  server_spctrl_speaker-Keeps :
      (sp : ℕ) (hd : ControlPackage) → Keeps is_serving (server_spctrl_speaker e sp hd)
  unfolding server_spctrl_speaker server_spctrl_sendto_speaker
  server_spctrl_speaker-Keeps sp hd = search keeps depth 24

  pub srv_spctrl_read-Keeps :
      (packet : List ℕ) (len : ℕ) → Keeps is_serving (srv_spctrl_read e packet len)
  unfolding srv_spctrl_read spctrl_time utime
  srv_spctrl_read-Keeps packet len = search (keeps, server_spctrl_speaker-Keeps) depth 24

  server_spctrl_set_time-Keeps : (sp : ℕ) → Keeps is_serving (server_spctrl_set_time e sp)
  unfolding server_spctrl_set_time utime
  server_spctrl_set_time-Keeps sp = search keeps depth 24

  format_loop-Keeps : (hd : ControlPackage) (sps : List ℕ) → Keeps is_serving (format_loop e hd sps)
  unfolding format_loop
  format_loop-Keeps hd [] = search keeps depth 24
  format_loop-Keeps hd (sp ∷ rest) =
      let told : World T → M T (Unit {0}) = λ w.
        when (e.speaker_is_online (speaker w sp)) (
          server_spctrl_speaker e sp (record hd { channel = (speaker w sp).channel }) >> pure tt) in
      bind-Keeps is_serving get (λ w. told w >> format_loop e hd rest) (get-Keeps is_serving)
        λ w.
          bind-Keeps is_serving (told w) (λ _. format_loop e hd rest)
            (search (keeps, server_spctrl_speaker-Keeps) depth 24) λ _. format_loop-Keeps hd rest

  pub server_spctrl_set_format-Keeps :
      (channels : List ℕ) (rate bits : ℕ)
      → Keeps is_serving (server_spctrl_set_format e channels rate bits)
  unfolding server_spctrl_set_format server_spctrl_format
  server_spctrl_set_format-Keeps channels rate bits = search (keeps, format_loop-Keeps) depth 24

  -- server_speaker_pusher.c
  server_sppush_connect-Keeps : (sp : ℕ) → Keeps is_serving (server_sppush_connect e sp)
  unfolding server_sppush_connect
  server_sppush_connect-Keeps sp = search keeps depth 24

  server_sppush_disconnect-Keeps : (sp : ℕ) → Keeps is_serving (server_sppush_disconnect e sp)
  unfolding server_sppush_disconnect
  server_sppush_disconnect-Keeps sp = search keeps depth 24

  pusher_sendto_speaker-Keeps :
      (sp : ℕ) (packet : List ℕ) (len : ℕ)
      → Keeps is_serving (pusher_sendto_speaker e sp packet len)
  unfolding pusher_sendto_speaker
  pusher_sendto_speaker-Keeps sp packet len =
      search (keeps, server_sppush_disconnect-Keeps) depth 24

  push_loop-Keeps : (sps : List ℕ) (len : ℕ) → Keeps is_serving (push_loop e sps len)
  unfolding push_loop
  push_loop-Keeps [] len = search keeps depth 24
  push_loop-Keeps (sp ∷ rest) len =
      let with_header : M T (Unit {0}) = modify (λ w. record w {
        pusher = record (w.pusher) {
          channel_buffer = e.pcm_header_encode w.pusher.channel_buffer w.pusher.pcm_head;
        };
      }) in
      let sent : World T → M T ℤ = λ w. pusher_sendto_speaker e sp w.pusher.channel_buffer len in
      bind-Keeps is_serving with_header (λ _. get >>= λ w. sent w >> push_loop e rest len)
        (search keeps depth 24)
        λ _.
          bind-Keeps is_serving get (λ w. sent w >> push_loop e rest len) (get-Keeps is_serving)
            λ w.
              bind-Keeps is_serving (sent w) (λ _. push_loop e rest len)
                (search (keeps, pusher_sendto_speaker-Keeps) depth 24) λ _. push_loop-Keeps rest len

  server_sppush_push_channel-Keeps :
      (line ch len : ℕ) → Keeps is_serving (server_sppush_push_channel e line ch len)
  unfolding server_sppush_push_channel
  server_sppush_push_channel-Keeps line ch len = search (keeps, push_loop-Keeps) depth 24

  store_buffer-Keeps : (o : Option (List ℕ)) → Keeps is_serving (store_buffer e o)
  store_buffer-Keeps none = search keeps depth 24
  store_buffer-Keeps (some buf) = search keeps depth 24

  channels_loop-Keeps :
      (line : ℕ) (samples : List ℕ) (len bits step i : ℕ) (chs : List ℕ)
      → Keeps is_serving (channels_loop e line samples len bits step i chs)
  unfolding channels_loop
  channels_loop-Keeps line samples len bits step i [] = search keeps depth 24
  channels_loop-Keeps line samples len bits step i (ch ∷ chs) =
      let stored : World T → M T (Unit {0}) = λ w. store_buffer e (
        copy_loop e samples len bits step (suc len) (i * bits) e.pcm_header_size
          w.pusher.channel_buffer) in
      let pushed : M T ℤ = server_sppush_push_channel e line ch (len + e.pcm_header_size) in
      let others : M T (Unit {0}) = channels_loop e line samples len bits step (i + 1) chs in
      bind-Keeps is_serving get (λ w. stored w >> (pushed >> others)) (get-Keeps is_serving)
        λ w.
          bind-Keeps is_serving (stored w) (λ _. pushed >> others) (store_buffer-Keeps _)
            λ _.
              bind-Keeps is_serving pushed (λ _. others)
                (server_sppush_push_channel-Keeps line ch _)
                λ _. channels_loop-Keeps line samples len bits step (i + 1) chs

  pub server_sppush_push-Keeps :
      (line : ℕ) (samples : List ℕ) (len : ℕ) (chlist : List ℕ) (bits : ℕ)
      → Keeps is_serving (server_sppush_push e line samples len chlist bits)
  unfolding server_sppush_push
  server_sppush_push-Keeps line samples len chlist bits =
      search (keeps, channels_loop-Keeps) depth 24

  pub srv_sppush_read-Keeps : (len : ℕ) → Keeps is_serving (srv_sppush_read e len)
  unfolding srv_sppush_read
  srv_sppush_read-Keeps len = search keeps depth 24

  -- server_detect.c
  call_detect_cb-Keeps : (cb : Option DetectFn) (sp : ℕ) → Keeps is_serving (call_detect_cb e cb sp)
  unfolding call_detect_cb
  call_detect_cb-Keeps none sp = search keeps depth 24
  call_detect_cb-Keeps (some speaker_added_handle) sp =
      search (keeps, server_spctrl_speaker-Keeps) depth 24

  welcome-Keeps : (sp : ℕ) (support : Bool) → Keeps is_serving (welcome e sp support)
  unfolding welcome
  welcome-Keeps sp support =
      search
        (
          keeps, server_sppush_connect-Keeps, server_spctrl_set_time-Keeps,
          server_spctrl_speaker-Keeps, call_detect_cb-Keeps,
        )
        depth 24

  valid_speaker-Keeps : (header : DetectRequest) → Keeps is_serving (valid_speaker e header)
  unfolding valid_speaker
  valid_speaker-Keeps header = search (keeps, welcome-Keeps) depth 24

  respond-Keeps : (addr : Addr) → Keeps is_serving (respond e addr)
  unfolding respond
  respond-Keeps addr = search keeps depth 24

  pub srv_detect_read-Keeps :
      (src : Sockaddr) (packet : List ℕ) (len : ℕ)
      → Keeps is_serving (srv_detect_read e src packet len)
  unfolding srv_detect_read
  srv_detect_read-Keeps src packet len = search (keeps, valid_speaker-Keeps, respond-Keeps) depth 24

  online_detect_loop-Keeps : (sps : List ℕ) → Keeps is_serving (online_detect_loop e sps)
  unfolding online_detect_loop
  online_detect_loop-Keeps [] = search keeps depth 24
  online_detect_loop-Keeps (sp ∷ rest) =
      let older : M T (Unit {0}) =
        update_speaker sp (λ s. record s { timeout = e.timeout_pred s.timeout }) in
      let offline : World T → M T (Unit {0}) = λ w. when (is_nonpos (speaker w sp).timeout) (
        update_store (λ st. e.speaker_offline st sp)
        >> (server_sppush_disconnect e sp >> pure tt)) in
      let others : M T (Unit {0}) = online_detect_loop e rest in
      bind-Keeps is_serving get (λ w. older >> (offline w >> others)) (get-Keeps is_serving)
        λ w.
          bind-Keeps is_serving older (λ _. offline w >> others) (search keeps depth 24)
            λ _.
              bind-Keeps is_serving (offline w) (λ _. others)
                (search (keeps, server_sppush_disconnect-Keeps) depth 24)
                λ _. online_detect_loop-Keeps rest

  pub thread_online_detect-Keeps : Keeps is_serving (thread_online_detect e)
  unfolding thread_online_detect
  thread_online_detect-Keeps = search (keeps, online_detect_loop-Keeps) depth 24

  -- command/speakers.c
  send_list-Keeps : (fd : ℤ) (o : Option (List ℕ)) → Keeps is_serving (send_list e fd o)
  send_list-Keeps fd none = search keeps depth 24
  send_list-Keeps fd (some list) = search keeps depth 24

  pub cmd_speakers-Keeps :
      (fd : ℤ) (arg : Option (List ℕ)) (len : ℕ) → Keeps is_serving (cmd_speakers e fd arg len)
  unfolding cmd_speakers
  cmd_speakers-Keeps fd arg len = search (keeps, send_list-Keeps) depth 24
