-- ===== src/Env.antt =====
-- What the sources call and the repository does not hold: the operating system, and the submodule
-- `common/` with its constants, macros and functions. A field stands for one of them; no law is
-- assumed here. `T` is the state that `common/` keeps of the speakers besides their structs.
use castserver.Base.{ℕ, ℤ, Bool, List, Option}
use castserver.Types.{
  Addr, Interface, Sockaddr, Speaker, DetectRequest, DetectResponse, ControlPackage, Call,
  WaveChunk, AudioFormat,
}

-- The speakers as `common/` holds them. `mem p` is the struct at the pointer `p`; NULL is 0.
pub record Store (T : Type 0) : Type 0 where
  pub table : T
  pub mem : ℕ → Speaker

pub record Env (T : Type 0) : Type 0 where
  -- The result of a call, and the bytes that it puts in the caller's buffer, after a history.
  pub ret : List Call → Call → ℤ
  pub bytes : List Call → Call → List ℕ
  -- errno after a history, and the bytes that an uninitialised local array of a size happens to hold.
  pub errno : List Call → ℕ
  pub eintr : ℕ
  pub epipe : ℕ
  pub stack : List Call → ℕ → List ℕ
  -- The bytes that `xmalloc` happens to give.
  pub heap : List Call → ℕ → List ℕ
  -- The peer of `recvfrom`, the fields of gettimeofday's `struct timeval`.
  pub peer : List Call → Call → Sockaddr
  pub tv_sec : List Call → ℕ
  pub tv_usec : List Call → ℕ
  -- The mode and the size that the last `fstat` of a history gave.
  pub s_isreg : List Call → Bool
  pub st_size : List Call → ℕ
  -- Whether the build keeps `assert` (CMakeLists.txt defines NDEBUG unless the type is Debug).
  pub debug : Bool
  -- error.h
  pub ok : ℤ
  pub error_speaker : ℤ
  pub error_socket : ℤ
  pub eerr_socket : ℕ
  pub eerr_arg : ℕ
  pub eerr_thread : ℕ
  -- ip.h and <arpa/inet.h>
  pub set_sockaddr : Addr → ℕ → Sockaddr
  pub equal_sock_addr : Sockaddr → Addr → Bool
  pub addr_stoa : List ℕ → Addr
  pub inet_addr : List ℕ → ℕ
  -- common.h, audio.h
  pub default_multicast_group : List ℕ
  pub default_multicast_groupv6 : List ℕ
  pub default_multicast_port : ℕ
  pub mask_isset : ℕ → ℕ → Bool
  pub bit_24 : ℕ
  pub rate_48000 : ℕ
  pub bits_cpy : List ℕ → ℕ → List ℕ → ℕ → List ℕ
  -- speaker_struct.h
  pub default_line : ℕ
  pub default_channel : ℕ
  pub speaker_size : ℕ
  pub speaker_bytes : Speaker → List ℕ
  pub stat_none : ℕ
  pub stat_online : ℕ
  pub stat_deleted : ℕ
  pub speaker_is_online : Speaker → Bool
  pub speaker_supported : Speaker → Bool
  pub timeout_pred : ℤ → ℤ
  pub init_from_header : Speaker → DetectRequest → Speaker
  pub find_speaker_by_id : Store T → ℕ → ℕ
  pub add_speaker : Store T → ℕ → ℕ → ℕ → ℕ × Store T
  pub speaker_check_online : Store T → ℕ → Store T
  pub speaker_offline : Store T → ℕ → Store T
  pub speaker_foreach : Store T → List ℕ
  pub speaker_count : Store T → ℕ
  pub get_speaker_list : Store T → ℕ → ℕ → ℕ × List ℕ
  -- package/detect.h
  pub detect_type_first_run : ℕ
  pub detect_type_exit : ℕ
  pub detect_request_size : ℕ → ℕ
  pub detect_request_decode : ℕ → List ℕ → DetectRequest
  pub detect_response_bytes : DetectResponse → List ℕ
  -- package/control.h
  pub spcmd_sample : ℕ
  pub spcmd_time : ℕ
  pub control_package_size : ℕ
  pub control_time_size : ℕ
  pub control_is_cmd : List ℕ → ℕ → Bool
  pub control_time_spid : List ℕ → ℕ
  pub control_package_encode : List ℕ → ControlPackage → List ℕ
  -- package/pcm.h
  pub pcm_header_size : ℕ
  pub pcm_header_encode : List ℕ → List ℕ → List ℕ
  -- codec/wave.h: `header_check` on some bytes and their number, and what the header that it read says.
  pub header_check : List ℕ → ℕ → ℕ
  pub get_chunksize : List ℕ → ℕ → ℕ → WaveChunk
  pub get_format : List ℕ → ℕ → AudioFormat
  pub get_channel_list : List ℕ → ℕ → List ℕ
  pub chunk_quality : ℕ
  -- <stdlib.h>, log.h, ip.h: what `main` reads its options with; a negative result of get_interface,
  -- and one of get_default_interface that is not positive, is none
  pub strtol : List ℕ → ℤ
  pub log_set_level_from_string : List ℕ → ℤ
  pub get_interface : ℕ → List ℕ → Option Interface
  pub get_default_interface : ℕ → Option (List ℕ)
  -- thread.h: whether CHK_RECV_EXIT_THREAD leaves the thread for the bytes in the buffer
  pub is_exit_thread_cmd : List ℕ → Bool
