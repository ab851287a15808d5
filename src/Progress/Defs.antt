-- ===== src/Progress/Defs.antt =====
-- `struct download_progress` and its functions of src/ota_fetch.c, with the pacing functions of src/log.c.
-- An `int` or `int64_t` that is -1 until it is set is `none` here.
use ota_fetch.Base.{
  ℕ, zero, suc, ◌+◌, ◌*◌, ◌/◌, ◌%◌, ◌^◌, ℤ, pos_part, Bool, true, false, not, ◌&&◌, ◌||◌, ◌==◌, ltb,
  leb, Option, none, some, if◌then◌else◌,
}

pub record DownloadProgress : Type 0 where
  pub started_ms : ℕ
  pub last_emit_ms : Option ℕ
  pub last_percent : Option ℕ
  pub last_non_tty_percent_milestone : Option ℕ
  pub last_non_tty_byte_milestone : ℕ
  pub transferred : ℕ
  pub total : ℕ

-- `now_ms` is what `monotonic_ms` returns.
abbrev pub download_progress_init : ℕ → DownloadProgress
download_progress_init now_ms = record {
  started_ms = now_ms;
  last_emit_ms = none;
  last_percent = none;
  last_non_tty_percent_milestone = none;
  last_non_tty_byte_milestone = 0;
  transferred = 0;
  total = 0;
}

abbrev pub at_most_100 : ℕ → ℕ
at_most_100 percent = if ltb 100 percent then 100 else percent

unfoldable pub download_progress_percent : ℕ → ℕ → Option ℕ
download_progress_percent transferred zero = none
download_progress_percent transferred (suc total) =
    some (at_most_100 (transferred * 100 % 2 ^ 64 / suc total))

unfoldable pub log_progress_percent_milestone : Option ℕ → Option ℕ
log_progress_percent_milestone none = none
log_progress_percent_milestone (some percent) =
    if ltb percent 10 then none else if leb 100 percent then some 100 else some (percent / 10 * 10)

unfoldable pub log_progress_byte_milestone : ℕ → ℕ → ℕ
log_progress_byte_milestone transferred zero = 0
log_progress_byte_milestone transferred (suc interval) = transferred / suc interval

-- `a == b`, with -1 equal to itself only.
abbrev pub same_int : Option ℕ → Option ℕ → Bool
same_int none none = true
same_int none (some b) = false
same_int (some a) none = false
same_int (some a) (some b) = a == b

abbrev pub is_set : Option ℕ → Bool
is_set none = false
is_set (some a) = true

-- `now - last >= n` for times that are not negative.
abbrev pub elapsed : ℕ → ℕ → ℕ → Bool
elapsed n last now = leb (last + n) now

unfoldable pub log_progress_should_emit : ℕ → Option ℕ → Option ℕ → Option ℕ → Bool → Bool
log_progress_should_emit now_ms last_emit_ms previous_percent current_percent true = true
log_progress_should_emit now_ms none previous_percent current_percent false = true
log_progress_should_emit now_ms (some last) previous_percent current_percent false =
    elapsed 500 last now_ms
    || (is_set current_percent
        && not (same_int current_percent previous_percent)
        && elapsed 200 last now_ms)

-- 5 MiB
abbrev pub byte_interval : ℕ
byte_interval = 5 * 1024 * 1024

-- Each returns the progress, and whether the line is rendered.
abbrev pub on_percent_milestone : DownloadProgress → Option ℕ → DownloadProgress × Bool
on_percent_milestone p none = (p, false)
on_percent_milestone p (some m) =
    if same_int (some m) p.last_non_tty_percent_milestone
    then (p, false)
    else (record p { last_non_tty_percent_milestone = some m }, true)

abbrev pub on_byte_milestone : DownloadProgress → ℕ → DownloadProgress × Bool
on_byte_milestone p m =
    if m == 0 || m == p.last_non_tty_byte_milestone
    then (p, false)
    else (record p { last_non_tty_byte_milestone = m }, true)

unfoldable pub non_tty_progress : DownloadProgress → DownloadProgress × Bool
unfolding download_progress_percent log_progress_percent_milestone log_progress_byte_milestone
non_tty_progress p =
    if ltb 0 p.total
    then on_percent_milestone p
        (log_progress_percent_milestone (download_progress_percent p.transferred p.total))
    else on_byte_milestone p (log_progress_byte_milestone p.transferred byte_interval)

unfoldable pub tty_progress : ℕ → DownloadProgress → DownloadProgress × Bool
unfolding download_progress_percent log_progress_should_emit
tty_progress now_ms p =
    let current = download_progress_percent p.transferred p.total in
    if log_progress_should_emit now_ms p.last_emit_ms p.last_percent current false
    then (record p { last_emit_ms = some now_ms; last_percent = current }, true)
    else (p, false)

-- `enabled` is `log_progress_enabled()`, `tty` is `isatty`, and `now_ms` is what `monotonic_ms` returns.
unfoldable pub download_progress_callback :
    Bool → Bool → ℕ → ℤ → ℤ → DownloadProgress → DownloadProgress × Bool
unfolding non_tty_progress tty_progress
download_progress_callback enabled tty now_ms dltotal dlnow progress =
    let p = record progress { total = pos_part dltotal; transferred = pos_part dlnow } in
    if not enabled || p.transferred == 0 || (ltb 0 p.total && leb p.total p.transferred)
    then (p, false)
    else if tty
    then tty_progress now_ms p
    else non_tty_progress p
