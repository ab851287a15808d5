-- ===== src/Platform/Types.antt =====
-- The values that system calls and libcurl exchange with the program.
use ota_fetch.Base.{ℕ, Bytes, Option, Bool, ℤ}

-- What `mkdir` returned: 0, -1 with EEXIST, or -1 with another `errno`.
pub data Mkdir : Type 0 where
  made exists refused : Mkdir

-- What `unlink` returned: 0, -1 with ENOENT, or -1 with another `errno`.
pub data Unlink : Type 0 where
  removed missing stuck : Unlink

-- What `fork` and `waitpid` said of the child that runs `rauc install`.
pub data Child : Type 0 where
  fork_failed wait_failed lost : Child
  exited signaled : ℕ → Child

-- The libcurl options that a download sets.
pub record Request : Type 0 where
  pub url : Bytes
  pub connect_timeout : ℤ
  pub transfer_timeout : ℤ
  pub low_speed : Option (ℤ × ℤ)
  pub client_cert : Option Bytes
  pub client_key : Option Bytes
  pub ca_info : Option Bytes
  -- `show_progress && log_progress_enabled()`, whose second half holds in every fetch: `main` sets the
  -- log level to INFO or DEBUG before.
  pub progress_enabled : Bool

-- `curl_easy_perform(curl) == CURLE_OK`, and CURLINFO_RESPONSE_CODE.
pub record Transfer : Type 0 where
  pub curle_ok : Bool
  pub http_code : ℕ

-- What the program did that no file shows: it forked to run `rauc install` on a path, it rebooted, it
-- slept for some seconds.
pub data Event : Type 0 where
  installing : Bytes → Event
  rebooted : Event
  slept : ℕ → Event
