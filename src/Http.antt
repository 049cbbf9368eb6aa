-- ===== src/Http.antt =====
-- server_http.c: files of one directory over HTTP. libmicrohttpd is a part of the system.
pub mod Path
pub mod Life
mod Tests
use castserver.Base.{
  ℕ, ℤ, pos, negsuc, is_neg, is_nonpos, is_nonzero, eq_int, Bool, true, false, ◌+◌, not, ◌&&◌, ◌||◌,
  List, [], ◌∷◌, ◌++◌, length, codes, Option, none, some, ltb, ◌==◌, if◌then◌else◌,
}
use castserver.Types.{Call}
use castserver.Env.{Env}
use castserver.World.{World, M, ◌>>=◌, ◌>>◌, pure, get, modify, exit, undefined, sys}

-- http_config_t
pub record HttpConfig : Type 0 where
  pub port : ℕ
  pub root_path : List ℕ

-- sizeof(root_path), sizeof(file_path)
abbrev pub path_size : ℕ
path_size = 128

-- MHD_NO, MHD_YES
abbrev pub mhd_no : ℤ
mhd_no = pos 0

abbrev pub mhd_yes : ℤ
mhd_yes = pos 1

abbrev pub page : List ℕ
page =
    codes
      "<html><head><title>libmicrohttpd demo</title></head><body>libmicrohttpd demo</body></html>"

pub data Method : Type 0 where
  method_get method_head other_method : Method

abbrev pub is_read : Method → Bool
is_read other_method = false
is_read _ = true

-- strstr(url, "./") != NULL
unfoldable pub has_dot_slash : List ℕ → Bool
has_dot_slash [] = false
has_dot_slash (c ∷ []) = false
has_dot_slash (c ∷ d ∷ rest) = c == b'.' && d == b'/' || has_dot_slash (d ∷ rest)

module _ {T : Type 0} (e : Env T) where
  -- abort(), whose status is that of SIGABRT
  abbrev pub abort : {A : Type 0} → M T A
  abort = exit 134

  abbrev pub close_or_abort : ℤ → M T (Unit {0})
  close_or_abort fd = do r ← sys e (Call.close fd); if is_nonzero r then abort else pure tt

  -- The descriptor of the file, or -1. A path that does not fit its array is written past its end.
  abbrev pub open_url : List ℕ → M T ℤ
  open_url url = if has_dot_slash url then pure (negsuc 0) else do
    w ← get
    let path = w.http.root_path ++ url
    if ltb (length path) path_size then sys e (Call.open_file path) else undefined

  -- What is left of it where it is no regular file.
  abbrev pub only_regular : ℤ → M T ℤ
  only_regular fd = if is_nonpos fd then pure fd else do
    r ← sys e (Call.fstat fd)
    w ← get
    if is_nonzero r || not (e.s_isreg w.trace)
        then (do close_or_abort fd; pure (negsuc 0))
        else pure fd

  abbrev pub queue : M T ℤ
  queue = do r ← sys e Call.mhd_queue_response; sys e Call.mhd_destroy_response; pure r

  abbrev pub answer : ℤ → M T ℤ
  answer fd =
      if eq_int fd (negsuc 0) then (do sys e (Call.mhd_response_from_buffer page); queue) else do
        w ← get
        response ← sys e (Call.mhd_response_from_fd (e.st_size w.trace) fd)
        if is_nonzero response then queue else do close_or_abort fd; pure mhd_no

  -- `seen` says whether *ptr is &dummy before; the second part of the result says so after.
  unfoldable pub ahc_echo : List ℕ → Method → ℕ → Bool → M T (ℤ × Bool)
  unfolding has_dot_slash
  ahc_echo url method upload_data_size seen =
      if not (is_read method)
      then pure (mhd_no, seen)
      else if not seen
      then pure (mhd_yes, true)
      else if not (upload_data_size == 0)
      then pure (mhd_no, seen)
      else do fd ← open_url url; file ← only_regular fd; r ← answer file; pure (r, false)

  abbrev pub set_root : List ℕ → M T (Unit {0})
  set_root path =
      if ltb (length path) path_size
      then modify (λ w. record w { http = record (w.http) { root_path = path } })
      else undefined

  abbrev pub start_daemon : ℕ → M T ℤ
  start_daemon port = do
    d ← sys e (Call.mhd_start_daemon port)
    modify (λ w. record w { http = record (w.http) { d = is_nonzero d } })
    pure (pos 0)

  unfoldable pub server_http_init : Option HttpConfig → M T ℤ
  server_http_init none = do set_root (codes "/tmp"); start_daemon 4415
  server_http_init (some cfg) = do set_root cfg.root_path; start_daemon cfg.port
