-- ===== src/Types.antt =====
-- The structs and constants of the C types that the sources exchange. The headers of `common/` are a
-- submodule that the repository does not hold: a record here has the members that the sources name.
use castserver.Base.{ℕ, ℤ, Option, none, some, List, ◌%◌, ◌^◌}

-- The values of <sys/socket.h> on Linux.
abbrev pub af_inet : ℕ
af_inet = 2

abbrev pub af_inet6 : ℕ
af_inet6 = 10

abbrev pub af_unix : ℕ
af_unix = 1

-- addr_t: the family, and the bytes of the union of `ipv4` and `ipv6`, little endian.
pub record Addr : Type 0 where
  pub type : ℕ
  pub body : ℕ

-- a.ipv4.s_addr
abbrev pub s_addr : Addr → ℕ
s_addr a = a.body % 2 ^ 32

-- if (cfg->ip) memcpy(&listen_ip, cfg->ip, …); else bzero(&listen_ip.ipv6, …);
abbrev pub ip_or_any : Option Addr → ℕ → Addr
ip_or_any none family = record { type = family; body = 0 }
ip_or_any (some ip) family = ip

-- interface_t
pub record Interface : Type 0 where
  pub ip : Addr
  pub ifindex : ℕ

-- A socket address, as `set_sockaddr` fills it and `recvfrom` returns it.
pub record Sockaddr : Type 0 where
  pub ss_family : ℕ
  pub host : ℕ
  pub port : ℕ

-- speaker_t. `timeout` is the value of the member, whatever integer type holds it.
pub record Speaker : Type 0 where
  pub id : ℕ
  pub ip : Addr
  pub dport : ℕ
  pub state : ℕ
  pub supported : ℕ
  pub timeout : ℤ
  pub fd : ℤ
  pub channel : ℕ
  pub conn_time : ℕ

-- spk_detect_request_t. `rest` stands for the members that only SPEAKER_STRUCT_INIT_FROM_HEADER reads.
pub record DetectRequest : Type 0 where
  pub id : ℕ
  pub addr : Addr
  pub bits_mask : ℕ
  pub rate_mask : ℕ
  pub rest : List ℕ

-- spk_detect_response_t
pub record DetectResponse : Type 0 where
  pub ver : ℕ
  pub type : ℕ
  pub addr : Addr

-- control_package_t: the command, and the members of `sample` and `time`.
pub record ControlPackage : Type 0 where
  pub cmd : ℕ
  pub bits : ℕ
  pub rate : ℕ
  pub channel : ℕ
  pub server : ℕ
  pub offset : ℕ

-- wave_chunk_t; `chunk` is also the result of get_chunksize.
pub record WaveChunk : Type 0 where
  pub chunk : ℕ
  pub time : ℕ

-- audio_format_t
pub record AudioFormat : Type 0 where
  pub channels : ℕ
  pub samples_per_sec : ℕ
  pub bits_per_sample : ℕ

-- control_package_t hd = {0};
abbrev pub control_package_zero : ControlPackage
control_package_zero = record { cmd = 0; bits = 0; rate = 0; channel = 0; server = 0; offset = 0 }

pub data SockType : Type 0 where
  sock_dgram sock_dgram_nonblock sock_stream : SockType

pub data Level : Type 0 where
  ipproto_ip sol_socket : Level

-- An option of `setsockopt` with its value.
pub data SockOpt : Type 0 where
  ip_multicast_ttl : ℕ → SockOpt
  ip_multicast_if : ℕ → SockOpt
  ipv6_multicast_if : ℕ → SockOpt
  ip_add_membership : ℕ → ℕ → SockOpt
  ipv6_add_membership : ℕ → ℕ → SockOpt
  ip_multicast_loop : ℕ → SockOpt
  ipv6_multicast_loop : ℕ → SockOpt
  so_rcvtimeo : ℕ → SockOpt

pub data Thread : Type 0 where
  online_detect control_socket : Thread

-- What the program asks of the system and of the libraries that it links, with the arguments.
pub data Call : Type 0 where
  socket : ℕ → SockType → Call
  bind : ℤ → Sockaddr → Call
  bind_path : ℤ → List ℕ → Call
  listen : ℤ → ℕ → Call
  accept : ℤ → Call
  setsockopt : ℤ → Level → SockOpt → Call
  connect : ℤ → Sockaddr → Call
  connect_path : ℤ → List ℕ → Call
  sendto : ℤ → List ℕ → Sockaddr → Call
  send : ℤ → List ℕ → Call
  recv : ℤ → ℕ → Call
  recvfrom : ℤ → ℕ → Call
  shutdown : ℤ → Call
  close : ℤ → Call
  unlink : List ℕ → Call
  gettimeofday : Call
  sleep : ℕ → Call
  usleep : ℕ → Call
  fopen : List ℕ → Call
  fclose : Call
  setpriority : Call
  event_init : Call
  speaker_init : Call
  event_add : ℤ → Call
  event_deinit : Call
  speaker_deinit : Call
  mhd_start_daemon : ℕ → Call
  mhd_stop_daemon : Call
  mhd_response_from_buffer : List ℕ → Call
  mhd_response_from_fd : ℕ → ℤ → Call
  mhd_queue_response : Call
  mhd_destroy_response : Call
  open_file : List ℕ → Call
  fstat : ℤ → Call
  init_thread_cmd : Call
  write_exit_thread_cmd : Call
  deinit_thread_cmd : Call
  pthread_create : Thread → Call
  pthread_detach : Thread → Call
  pthread_cancel : Thread → Call

-- The functions of the program whose address is taken as a `server_detect_fn`.
pub data DetectFn : Type 0 where
  speaker_added_handle : DetectFn
