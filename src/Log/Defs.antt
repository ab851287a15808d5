-- ===== src/Log/Defs.antt =====
-- The levels, the log lines and the progress line of src/log.c. What `fprintf` and `fputc` write to stderr
-- is a text that grows, each call succeeding; a message is given as `vsnprintf` formats it.
use ota_fetch.Base.{
  ℕ, zero, suc, ◌-◌, Bytes, codes, length, take, ltb, leb, ◌==◌, ℤ, pos, negsuc, Bool, true, false,
  not, ◌&&◌, ◌||◌, Option, none, some, [], ◌∷◌, ◌++◌, if◌then◌else◌,
}

-- The static variables, and what was written. `is_tty` is what `isatty` said of stderr.
pub record Log : Type 0 where
  pub log_level : ℕ
  pub is_tty : Bool
  pub progress_active : Bool
  pub progress_width : ℕ
  pub stderr : Bytes
  pub log_file : Option Bytes

unfoldable pub log_level_str : ℤ → Bytes
log_level_str (negsuc n) = codes "LOG"
log_level_str (pos n) =
    if n == 1
    then codes "ERROR"
    else if n == 2
    then codes "WARN"
    else if n == 3
    then codes "INFO"
    else if n == 4
    then codes "DEBUG"
    else codes "LOG"

abbrev pub clamp_level : ℤ → ℕ
clamp_level (negsuc n) = 0
clamp_level (pos n) = if ltb 4 n then 4 else n

unfoldable pub log_set_level : ℤ → Log → Log
log_set_level level log = record log { log_level = clamp_level level }

unfoldable pub log_is_enabled : ℤ → Log → Bool
log_is_enabled (negsuc n) log = false
log_is_enabled (pos zero) log = false
log_is_enabled (pos (suc n)) log = leb (suc n) log.log_level

-- The text that `log_render_line` writes.
unfoldable pub log_render_line : Bytes → Bytes → Bytes
log_render_line label message = b'[' ∷ label ++ codes "] " ++ message ++ 10 ∷ []

abbrev pub log_reset_progress_state : Log → Log
log_reset_progress_state log = record log { progress_active = false; progress_width = 0 }

abbrev pub spaces : ℕ → Bytes
spaces zero = []
spaces (suc n) = 32 ∷ spaces n

abbrev pub progress_text : Bytes → Bytes
progress_text message = codes "[PROGRESS] " ++ message

-- What is left of the line before, which was wider.
abbrev pub padding : Log → ℕ → Bytes
padding log printed_width =
    if log.progress_active && ltb printed_width log.progress_width
    then spaces (log.progress_width - printed_width)
    else []

abbrev pub with_padding : Log → Bytes → Bytes
with_padding log message =
    13 ∷ progress_text message ++ padding log (suc (length (progress_text message)))

unfoldable pub log_render_progress : Bytes → Bool → Log → Log
unfolding log_render_line log_is_enabled
log_render_progress message final_line log =
    if not (log_is_enabled (pos 3) log)
    then log
    else if not log.is_tty
    then record log { stderr = log.stderr ++ log_render_line (codes "PROGRESS") message }
    else if final_line
    then log_reset_progress_state
        (record log { stderr = log.stderr ++ (with_padding log message ++ 10 ∷ []) })
    else record log {
      stderr = log.stderr ++ with_padding log message;
      progress_active = true;
      progress_width = suc (length (progress_text message));
    }

abbrev pub blanked : ℕ → Bytes
blanked width = 13 ∷ spaces width ++ 13 ∷ []

unfoldable pub log_progress_clear : Log → Log
log_progress_clear log =
    if not log.progress_active || not log.is_tty
    then log_reset_progress_state log
    else log_reset_progress_state (record log { stderr = log.stderr ++ blanked log.progress_width })

-- To stderr, and to the log file if there is one.
abbrev pub write_line : ℤ → Bytes → Log → Log
write_line level message log = record log {
  stderr = log.stderr ++ log_render_line (log_level_str level) message;
  log_file = elim log.log_file [
    | none ↦ none
    | some text ↦ some (text ++ log_render_line (log_level_str level) message)
  ];
}

-- `vsnprintf` keeps 1023 characters.
unfoldable pub log_vwrite : ℤ → Bytes → Log → Log
unfolding log_is_enabled log_progress_clear log_level_str log_render_line
log_vwrite level message log =
    if not (log_is_enabled level log)
    then log
    else write_line level (take 1023 message)
        (if log.progress_active then log_progress_clear log else log)
