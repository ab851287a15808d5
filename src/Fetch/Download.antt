-- ===== src/Fetch/Download.antt =====
-- `fetch_file` of src/ota_fetch.c: a download into `dest_path.tmp` that a rename puts in place.
use ota_fetch.Base.{
  ◌+◌, Bytes, codes, length, none, some, Bool, true, false, ◌&&◌, ◌||◌, not, ◌++◌, ltb, leb,
  if◌then◌else◌, Exec, Result, ok, err, pure, raise, try, check, ◌>>=◌, ◌>>◌, ℤ, minus_one,
  is_positive,
}
use ota_fetch.Platform.{Platform, State, ask, act, Request, Transfer}
use ota_fetch.Config.{Config}
use ota_fetch.Fetch.Paths.{ensure_parent_dir_exists}

-- The options that are set on the handle.
unfoldable pub request_of : Bytes → Config → Bool → Request
request_of url cfg show_progress = record {
  url = url;
  connect_timeout = cfg.connect_timeout;
  transfer_timeout = cfg.transfer_timeout;
  low_speed =
      if is_positive cfg.low_speed_limit && is_positive cfg.low_speed_time
      then some (cfg.low_speed_limit, cfg.low_speed_time)
      else none;
  client_cert = cfg.tls_client_cert;
  client_key = cfg.tls_client_key;
  ca_info = cfg.tls_ca_cert;
  progress_enabled = show_progress;
}

unfoldable pub tmp_of : Bytes → Bytes
tmp_of dest_path = dest_path ++ codes ".tmp"

-- `res == CURLE_OK && !(http_code < 200 || http_code >= 300)`
unfoldable pub succeeded : Transfer → Bool
succeeded t = t.curle_ok && not (ltb t.http_code 200 || leb 300 t.http_code)

module _ (P : Platform) where
  -- From `fopen` to `rename`. The error says whether `fp` is still open at `cleanup`.
  unfoldable pub download : Request → Bytes → Bytes → Exec (State P) Bool (Unit {0})
  unfolding succeeded
  download request tmp_path dest_path = do
    opened ← act P (P.fopen_wb tmp_path)
    check opened false
    curl ← ask P (λ w. P.curl_easy_init)
    check curl true
    answer ← act P (P.curl_easy_perform request tmp_path)
    check (succeeded answer) true
    flushed ← act P (P.fflush tmp_path)
    check flushed true
    closed ← act P (P.fclose tmp_path)
    check closed false
    moved ← act P (P.rename tmp_path dest_path)
    check moved false

  -- The label `cleanup`.
  unfoldable pub cleanup : Bytes → Result Bool (Unit {0}) → Exec (State P) ℤ (Unit {0})
  cleanup tmp_path (ok _) = pure tt
  cleanup tmp_path (err true) = do
    act P (P.fclose tmp_path)
    act P (P.unlink tmp_path)
    raise minus_one
  cleanup tmp_path (err false) = do act P (P.unlink tmp_path); raise minus_one

  unfoldable pub fetch_file : Bytes → Bytes → Config → Bool → Exec (State P) ℤ (Unit {0})
  unfolding ensure_parent_dir_exists request_of tmp_of download cleanup
  fetch_file url dest_path cfg show_progress = do
    ensure_parent_dir_exists P (some dest_path)
    got ← ask P (λ w. P.malloc (length dest_path + 5))
    check got minus_one
    outcome ← try (download (request_of url cfg show_progress) (tmp_of dest_path) dest_path)
    cleanup (tmp_of dest_path) outcome
