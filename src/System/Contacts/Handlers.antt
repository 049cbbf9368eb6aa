-- ===== src/System/Contacts/Handlers.antt =====
-- The functions of the running server write to contacts only.
use castserver.World.{◌>>=◌, ◌>>◌, pure, get, modify, when, speaker}
use castserver.Base.{ℕ, ℤ, suc, List, [], ◌∷◌, ◌+◌, ◌*◌, Option, none, some}
use castserver.Types.{Addr, Sockaddr, Call, ControlPackage}
use castserver.Env.{Env}
use castserver.World.{World, M}
use castserver.Control.{
  utime, server_spctrl_sendto_speaker, server_spctrl_speaker, spctrl_time, srv_spctrl_read,
  server_spctrl_set_time, format_loop, server_spctrl_format, server_spctrl_set_format,
}
use castserver.Pusher.{
  server_sppush_connect, server_sppush_disconnect, pusher_sendto_speaker, push_loop,
  server_sppush_push_channel, store_buffer, channels_loop, server_sppush_push, srv_sppush_read,
  copy_loop,
}
use castserver.System.Contacts.{KeepsAddresses, Safe, polite, bind-Safe, get-Safe}

module _ {T : Type 0} (e : Env T) (P : Addr → Type 0) (Q : Sockaddr → Type 0)
    (law : KeepsAddresses e) (old : List Call) where
  abbrev S : {A : Type 0} → M T A → Type 0
  S m = Safe e P Q law old m

  pub server_spctrl_speaker-Safe :
      (sp : ℕ) (hd : ControlPackage) → S (server_spctrl_speaker e sp hd)
  unfolding server_spctrl_speaker server_spctrl_sendto_speaker
  server_spctrl_speaker-Safe sp hd = search polite depth 24

  pub srv_spctrl_read-Safe : (packet : List ℕ) (len : ℕ) → S (srv_spctrl_read e packet len)
  unfolding srv_spctrl_read spctrl_time utime
  srv_spctrl_read-Safe packet len = search (polite, server_spctrl_speaker-Safe) depth 24

  pub server_spctrl_set_time-Safe : (sp : ℕ) → S (server_spctrl_set_time e sp)
  unfolding server_spctrl_set_time utime
  server_spctrl_set_time-Safe sp = search polite depth 24

  format_loop-Safe : (hd : ControlPackage) (sps : List ℕ) → S (format_loop e hd sps)
  unfolding format_loop
  format_loop-Safe hd [] = search polite depth 24
  format_loop-Safe hd (sp ∷ rest) =
      let told : World T → M T (Unit {0}) = λ w.
        when (e.speaker_is_online (speaker w sp)) (
          server_spctrl_speaker e sp (record hd { channel = (speaker w sp).channel }) >> pure tt) in
      get-Safe e P Q law old (λ w. told w >> format_loop e hd rest)
        λ w i.
          bind-Safe e P Q law old (told w) (λ _. format_loop e hd rest)
            (search (polite, server_spctrl_speaker-Safe) depth 24) λ _. format_loop-Safe hd rest

  pub server_spctrl_set_format-Safe :
      (channels : List ℕ) (rate bits : ℕ) → S (server_spctrl_set_format e channels rate bits)
  unfolding server_spctrl_set_format server_spctrl_format
  server_spctrl_set_format-Safe channels rate bits = search (polite, format_loop-Safe) depth 24

  pub server_sppush_connect-Safe : (sp : ℕ) → S (server_sppush_connect e sp)
  unfolding server_sppush_connect
  server_sppush_connect-Safe sp = search polite depth 24

  pub server_sppush_disconnect-Safe : (sp : ℕ) → S (server_sppush_disconnect e sp)
  unfolding server_sppush_disconnect
  server_sppush_disconnect-Safe sp = search polite depth 24

  pusher_sendto_speaker-Safe :
      (sp : ℕ) (packet : List ℕ) (len : ℕ) → S (pusher_sendto_speaker e sp packet len)
  unfolding pusher_sendto_speaker
  pusher_sendto_speaker-Safe sp packet len = search (polite, server_sppush_disconnect-Safe) depth 24

  push_loop-Safe : (sps : List ℕ) (len : ℕ) → S (push_loop e sps len)
  unfolding push_loop
  push_loop-Safe [] len = search polite depth 24
  push_loop-Safe (sp ∷ rest) len =
      let with_header : M T (Unit {0}) = modify (λ w. record w {
        pusher = record (w.pusher) {
          channel_buffer = e.pcm_header_encode w.pusher.channel_buffer w.pusher.pcm_head;
        };
      }) in
      let sent : World T → M T ℤ = λ w. pusher_sendto_speaker e sp w.pusher.channel_buffer len in
      bind-Safe e P Q law old with_header (λ _. get >>= λ w. sent w >> push_loop e rest len)
        (search polite depth 24)
        λ _.
          get-Safe e P Q law old (λ w. sent w >> push_loop e rest len)
            λ w i.
              bind-Safe e P Q law old (sent w) (λ _. push_loop e rest len)
                (pusher_sendto_speaker-Safe sp _ len) λ _. push_loop-Safe rest len

  server_sppush_push_channel-Safe : (line ch len : ℕ) → S (server_sppush_push_channel e line ch len)
  unfolding server_sppush_push_channel
  server_sppush_push_channel-Safe line ch len = search (polite, push_loop-Safe) depth 24

  store_buffer-Safe : (o : Option (List ℕ)) → S (store_buffer e o)
  store_buffer-Safe none = search polite depth 24
  store_buffer-Safe (some buf) = search polite depth 24

  channels_loop-Safe :
      (line : ℕ) (samples : List ℕ) (len bits step i : ℕ) (chs : List ℕ)
      → S (channels_loop e line samples len bits step i chs)
  unfolding channels_loop
  channels_loop-Safe line samples len bits step i [] = search polite depth 24
  channels_loop-Safe line samples len bits step i (ch ∷ chs) =
      let stored : World T → M T (Unit {0}) = λ w. store_buffer e (
        copy_loop e samples len bits step (suc len) (i * bits) e.pcm_header_size
          w.pusher.channel_buffer) in
      let pushed : M T ℤ = server_sppush_push_channel e line ch (len + e.pcm_header_size) in
      let others : M T (Unit {0}) = channels_loop e line samples len bits step (i + 1) chs in
      get-Safe e P Q law old (λ w. stored w >> (pushed >> others))
        λ w j.
          bind-Safe e P Q law old (stored w) (λ _. pushed >> others) (store_buffer-Safe _)
            λ _.
              bind-Safe e P Q law old pushed (λ _. others)
                (server_sppush_push_channel-Safe line ch _)
                λ _. channels_loop-Safe line samples len bits step (i + 1) chs

  pub server_sppush_push-Safe :
      (line : ℕ) (samples : List ℕ) (len : ℕ) (chlist : List ℕ) (bits : ℕ)
      → S (server_sppush_push e line samples len chlist bits)
  unfolding server_sppush_push
  server_sppush_push-Safe line samples len chlist bits =
      search (polite, channels_loop-Safe) depth 24

  pub srv_sppush_read-Safe : (len : ℕ) → S (srv_sppush_read e len)
  unfolding srv_sppush_read
  srv_sppush_read-Safe len = search polite depth 24
