-- ===== src/Sample.antt =====
-- A system and a `common/` with concrete functions, two speakers, and a state of the server: what the
-- tests run the definitions on.
use castserver.Base.{some}
use castserver.Client.{list_speakers_request}
use castserver.Base.{
  ℕ, zero, suc, ℤ, pos, negsuc, ◌+◌, ◌/◌, ◌%◌, ◌^◌, Bool, true, false, List, [], ◌∷◌, ◌++◌, codes,
  length, take, drop, get_or, replicate, none, keep, ◌==◌, ◌||◌, if◌then◌else◌,
}
use castserver.Types.{Addr, Interface, Sockaddr, Speaker, Call, af_inet}
use castserver.Env.{Env, Store}
use castserver.World.{World, write_mem}

abbrev pub address : ℕ → Addr
address body = record { type = af_inet; body = body }

abbrev pub from : ℕ → Sockaddr
from host = record { ss_family = af_inet; host = host; port = 9000 }

abbrev pub lan : Interface
lan = record { ip = address 50; ifindex = 3 }

-- An online speaker on a channel, with a socket of its own.
abbrev pub online_speaker : ℕ → ℕ → Speaker
online_speaker n channel = record {
  id = n;
  ip = address (100 + n);
  dport = 4000 + n;
  state = 1;
  supported = 1;
  timeout = pos 1;
  fd = pos (20 + n);
  channel = channel;
  conn_time = 1;
}

abbrev pub taken_offline : Speaker → Speaker
taken_offline s = record s { state = 2 }

abbrev pub result : Call → ℤ
result (Call.socket family type) = pos 7
result (Call.sendto fd bytes to) = pos (length bytes)
result (Call.recvfrom fd size) = pos 18
result (Call.accept fd) = pos 40
result (Call.open_file path) = pos 41
result (Call.mhd_response_from_buffer bytes) = pos 1
result (Call.mhd_response_from_fd size fd) = pos 1
result Call.mhd_queue_response = pos 1
result (Call.mhd_start_daemon port) = pos 1
result (Call.recv fd size) = pos 12
result (Call.fopen path) = pos 1
result _ = pos 0

abbrev pub content : Call → List ℕ
content (Call.recv fd size) = list_speakers_request
content (Call.fopen path) = 82 ∷ 4 ∷ 2 ∷ []
content _ = codes "hey, kill yourself"

abbrev pub one_less : ℤ → ℤ
one_less (pos zero) = negsuc 0
one_less (pos (suc n)) = pos n
one_less (negsuc n) = negsuc (suc n)

abbrev pub is_known : ℕ → List ℕ → Bool
is_known id [] = false
is_known id (p ∷ rest) = id == p || is_known id rest

abbrev pub pcm_header : List ℕ → List ℕ
pcm_header head = 80 ∷ get_or head 0 0 ∷ []

abbrev pub system : Env (List ℕ)
system = record {
  ret = λ history call. result call;
  bytes = λ history call. content call;
  errno = λ history. 0;
  eintr = 4;
  epipe = 32;
  stack = λ history size. replicate size 170;
  heap = λ history size. replicate size 171;
  peer = λ history call. from 1;
  s_isreg = λ history. true;
  st_size = λ history. 64;
  tv_sec = λ history. length history;
  tv_usec = λ history. 5;
  debug = true;
  ok = pos 0;
  error_speaker = pos 3;
  error_socket = pos 4;
  eerr_socket = 10;
  eerr_arg = 11;
  eerr_thread = 12;
  set_sockaddr = λ a port. record { ss_family = a.type; host = a.body; port = port };
  equal_sock_addr = λ src a. src.host == a.body;
  addr_stoa = λ text. address (length text);
  inet_addr = λ text. length text;
  default_multicast_group = codes "239.44.44.44";
  default_multicast_groupv6 = codes "ff15::44";
  default_multicast_port = 4414;
  mask_isset = λ mask bit. mask / 2 ^ bit % 2 == 1;
  bit_24 = 2;
  rate_48000 = 3;
  bits_cpy = λ buf dst src bits. take dst buf ++ (take bits src ++ drop (dst + bits) buf);
  default_line = 0;
  default_channel = 1;
  speaker_size = 2;
  speaker_bytes = λ s. s.id ∷ s.channel ∷ [];
  stat_none = 0;
  stat_online = 1;
  stat_deleted = 3;
  speaker_is_online = λ s. s.state == 1;
  speaker_supported = λ s. s.supported == 1;
  timeout_pred = one_less;
  init_from_header = λ s header. record s { ip = header.addr; dport = get_or header.rest 0 0 };
  find_speaker_by_id = λ st id. if is_known id st.table then id else 0;
  add_speaker = λ st id line channel.
      if id == 0
      then (0, st)
      else (id, write_mem (record st { table = id ∷ st.table }) id (online_speaker id channel));
  speaker_check_online = λ st sp. st;
  speaker_offline = λ st sp. write_mem st sp (taken_offline (st.mem sp));
  speaker_foreach = λ st. st.table;
  speaker_count = λ st. length st.table;
  get_speaker_list =
      λ st line channel. (length st.table, keep (λ sp. (st.mem sp).channel == channel) st.table);
  detect_type_first_run = 1;
  detect_type_exit = 2;
  detect_request_size = λ family. 5;
  detect_request_decode = λ family bytes. record {
    id = get_or bytes 0 0;
    addr = record { type = family; body = get_or bytes 1 0 };
    bits_mask = get_or bytes 2 0;
    rate_mask = get_or bytes 3 0;
    rest = drop 4 bytes;
  };
  detect_response_bytes = λ r. r.ver ∷ r.type ∷ r.addr.body ∷ [];
  spcmd_sample = 1;
  spcmd_time = 2;
  control_package_size = 6;
  control_time_size = 3;
  control_is_cmd = λ packet cmd. get_or packet 0 0 == cmd;
  control_time_spid = λ packet. get_or packet 1 0;
  control_package_encode =
      λ buf hd. hd.cmd ∷ hd.bits ∷ hd.rate ∷ hd.channel ∷ hd.server ∷ hd.offset ∷ [];
  pcm_header_size = 2;
  pcm_header_encode = λ buf head. pcm_header head ++ drop 2 buf;
  header_check = λ bytes size. if get_or bytes 0 0 == 82 then 3 else 0;
  get_chunksize = λ bytes size type. record { chunk = get_or bytes 1 0; time = 7 };
  get_format = λ bytes size. record {
    channels = get_or bytes 2 0;
    samples_per_sec = 48000;
    bits_per_sample = 8;
  };
  get_channel_list = λ bytes size. 1 ∷ 2 ∷ [];
  chunk_quality = 1;
  strtol = λ text. pos (length text);
  log_set_level_from_string = λ text. pos 0;
  get_interface = λ family name. some lan;
  get_default_interface = λ family. none;
  is_exit_thread_cmd = λ buf. get_or buf 0 0 == 0;
}

abbrev pub two_speakers : Store (List ℕ)
two_speakers = record {
  table = 5 ∷ 6 ∷ [];
  mem = λ p. if p == 5 then online_speaker 5 1 else online_speaker 6 2;
}

-- The server on `lan`, with its sockets open and a buffer for audio.
abbrev pub running : List ℕ → World (List ℕ)
running buffer = record {
  trace = [];
  speakers = two_speakers;
  exit_thread_flag = false;
  detect = record {
    interface = lan;
    multicast_group = address 12;
    multicast_port = 4414;
    detect_cb = none;
    server_notify_resp = record { ver = 1; type = 0; addr = address 50 };
    online_detect_thread = true;
    family = af_inet;
    read_fd = pos 30;
  };
  control = record {
    server_channel_list = [];
    listen_ip = address 0;
    buffer = [];
    family = af_inet;
    read_fd = pos 31;
  };
  pusher = record {
    package_seq = 65535;
    pcm_head = 9 ∷ [];
    channel_buffer = buffer;
    listen_ip = address 0;
    family = af_inet;
    read_fd = pos 32;
  };
  mutex = lan;
  command = record { listenfd = pos 33; sock_path = codes "/tmp/s"; socket_buffer = [] };
  http = record { d = false; root_path = codes "/www" };
  receiver_fd = pos 0;
}

abbrev pub server : World (List ℕ)
server = running []

-- The system, where a request makes its speaker online again, and where the speaker 5 is the only one.
abbrev pub reviving : Env (List ℕ)
reviving = record system {
  speaker_check_online = λ st sp. write_mem st sp (record (st.mem sp) { state = 1 });
}

abbrev pub alone : World (List ℕ)
alone = record server {
  speakers = record { table = 5 ∷ []; mem = λ p. record (online_speaker 5 1) { timeout = pos 0 } };
}
