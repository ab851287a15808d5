-- ===== src/Log/Clean.antt =====
-- Sequences of calls of src/log.c keep the terminal clean.
use ota_fetch.Base.{
  ℕ, zero, suc, ◌-◌, ◌≡◌, refl, sym, ap, ◌∙◌, Bytes, codes, length, drop, take, ℤ, pos, Bool, true,
  false, not, ◌||◌, Option, [], ◌∷◌, ◌++◌, if◌then◌else◌, arith,
}
use ota_fetch.Log.Defs.{
  Log, log_is_enabled, log_render_line, spaces, progress_text, with_padding, log_render_progress,
  blanked, log_progress_clear, write_line, log_vwrite, log_set_level, log_level_str,
}
use ota_fetch.Log.Screen.{
  Screen, blank, feed, seen, is_plain, all_blank, feed-append, feed-newline, feed-return,
  spaces-plain, spaces-blank, length-spaces, blank-append, drop-blank_more, drop-append,
}
use ota_fetch.Log.Shown.{screen, IsClean, Shows, with_padding-Shows}

-- A log on a terminal: opened, and then any calls, but that the message of a progress line that stays
-- has neither a carriage return nor a newline.
pub data Logs : Log → Type 0 where
  opened :
      (level : ℕ) (log_file : Option Bytes)
      → Logs (record {
        log_level = level;
        is_tty = true;
        progress_active = false;
        progress_width = 0;
        stderr = [];
        log_file = log_file;
      })
  levelled : (log : Log) (level : ℤ) → Logs log → Logs (log_set_level level log)
  written :
      (log : Log) (level : ℤ) (message : Bytes) → Logs log → Logs (log_vwrite level message log)
  updated :
      (log : Log) (message : Bytes)
      → is_plain message ≡ true
      → Logs log
      → Logs (log_render_progress message false log)
  finished : (log : Log) (message : Bytes) → Logs log → Logs (log_render_progress message true log)
  cleared : (log : Log) → Logs log → Logs (log_progress_clear log)

-- Whichever branch is taken.
if_cases :
    (Q : Log → Type 0) (b : Bool) (x y : Log)
    → (b ≡ true → Q x)
    → (b ≡ false → Q y)
    → Q (if b then x else y)
if_cases Q true x y h k = h refl
if_cases Q false x y h k = k refl

drop-nil : (n : ℕ) → drop {A = ℕ} n [] ≡ []
drop-nil zero = refl
drop-nil (suc n) = refl

-- A line that has ended.
ended-IsClean :
    (log : Log)
    → log.is_tty ≡ true
    → screen log ≡ blank
    → (log.progress_active ≡ false → log.progress_width ≡ 0)
    → IsClean log
ended-IsClean log tty at_start idle = record {
  on_tty = tty;
  rest_blank = rw at_start (rw (drop-nil (log.progress_width - 1)) refl);
  idle_width = idle;
  idle_start = λ _. rw at_start refl;
}

ended-screen : (text x : Bytes) → feed blank (text ++ (x ++ 10 ∷ [])) ≡ blank
ended-screen text x = feed-append blank text (x ++ 10 ∷ []) ∙ feed-newline (feed blank text) x

cleared-screen :
    (log : Log)
    → IsClean log
    → (scr : Screen) × (feed blank (log.stderr ++ blanked log.progress_width) ≡ scr)
      × (scr.before ≡ [])
      × (all_blank (seen scr) ≡ true)
cleared-screen log h =
    let w = log.progress_width in
    let wiped = spaces w ++ drop (length (spaces w)) (seen (screen log)) in
    (
      record { before = []; beyond = wiped },
      feed-append blank log.stderr (13 ∷ spaces w ++ 13 ∷ [])
          ∙ feed-append (screen log) (13 ∷ spaces w) (13 ∷ [])
          ∙ ap (λ scr. feed scr (13 ∷ [])) (feed-return (screen log) (spaces w) (spaces-plain w)),
      refl,
      blank-append (spaces w) _ (spaces-blank w) (
          drop-blank_more (w - 1) _ (seen (screen log)) (omega (arith, length-spaces w))
            h.rest_blank),
    )

idle_on_tty : (active tty : Bool) → tty ≡ true → (not active || not tty) ≡ true → active ≡ false
idle_on_tty active tty h k = ground arith

log_progress_clear-IsClean : (log : Log) → IsClean log → IsClean (log_progress_clear log)
unfolding log_progress_clear
log_progress_clear-IsClean log h =
    if_cases IsClean (not log.progress_active || not log.is_tty) _ _
      (λ nothing.
        let idle : log.progress_active ≡ false =
          idle_on_tty log.progress_active log.is_tty h.on_tty nothing in
        record {
          on_tty = h.on_tty;
          rest_blank = rw (h.idle_width idle) at h.rest_blank;
          idle_width = λ _. refl;
          idle_start = λ _. h.idle_start idle;
        })
      (λ shown.
        let (scr, is_scr, start, is_blank) = cleared-screen log h in
        record {
          on_tty = h.on_tty;
          rest_blank = rw is_scr is_blank;
          idle_width = λ _. refl;
          idle_start = λ _. rw is_scr start;
        })

log_progress_clear-idle : (log : Log) → (log_progress_clear log).progress_active ≡ false
unfolding log_progress_clear
log_progress_clear-idle log =
    if_cases (λ l. l.progress_active ≡ false) (not log.progress_active || not log.is_tty) _ _
      (λ _. refl) (λ _. refl)

-- The log behind the clearing of the progress line.
abbrev ready : Log → Log
ready log = if log.progress_active then log_progress_clear log else log

ready-IsClean : (log : Log) → IsClean log → IsClean (ready log)
ready-IsClean log h =
    if_cases IsClean log.progress_active _ _ (λ _. log_progress_clear-IsClean log h) (λ _. h)

ready-idle : (log : Log) → (ready log).progress_active ≡ false
ready-idle log =
    if_cases (λ l. l.progress_active ≡ false) log.progress_active _ _
      (λ _. log_progress_clear-idle log) (λ idle. idle)

write_line-IsClean :
    (level : ℤ) (message : Bytes) (log : Log) → IsClean log → IsClean (write_line level message log)
unfolding log_render_line
write_line-IsClean level message log h =
    ended-IsClean _ h.on_tty
      (ended-screen log.stderr (b'[' ∷ log_level_str level ++ codes "] " ++ message)) h.idle_width

log_vwrite-IsClean :
    (level : ℤ) (message : Bytes) (log : Log) → IsClean log → IsClean (log_vwrite level message log)
unfolding log_vwrite
log_vwrite-IsClean level message log h =
    if_cases IsClean (not (log_is_enabled level log)) _ _ (λ _. h)
      (λ _. write_line-IsClean level (take 1023 message) (ready log) (ready-IsClean log h))

shown-IsClean :
    (log log' : Log) (message : Bytes)
    → log'.is_tty ≡ true
    → log'.progress_active ≡ true
    → log'.progress_width ≡ suc (length (progress_text message))
    → Shows (progress_text message) (screen log')
    → IsClean log'
shown-IsClean log log' message tty active width shows = record {
  on_tty = tty;
  rest_blank =
      let columns : log'.progress_width - 1 ≡ length (progress_text message) =
        omega (arith, width) in
      rw (columns, shows.is_line)
        (rw (drop-append (progress_text message) shows.rest) shows.is_rest_blank);
  idle_width = λ idle. let clash : true ≡ false = sym active ∙ idle in absurd (cc);
  idle_start = λ idle. let clash : true ≡ false = sym active ∙ idle in absurd (cc);
}

-- The message of a line that stays is plain; that of one which is finished may be anything.
log_render_progress-IsClean :
    (message : Bytes) (final_line : Bool) (log : Log)
    → (final_line ≡ false → is_plain message ≡ true)
    → IsClean log
    → IsClean (log_render_progress message final_line log)
unfolding log_render_progress
log_render_progress-IsClean message final_line log plain h =
    if_cases IsClean (not (log_is_enabled (pos 3) log)) _ _ (λ _. h)
      λ _.
        if_cases IsClean (not log.is_tty) _ _
          (λ off. let tty : log.is_tty ≡ true = h.on_tty in absurd (ground arith))
          λ _.
            if_cases IsClean final_line _ _
              (λ _.
                ended-IsClean _ h.on_tty (ended-screen log.stderr (with_padding log message))
                  (λ _. refl))
              (λ stays.
                shown-IsClean log _ message h.on_tty refl refl
                  (with_padding-Shows log message h (plain stays)))

Logs-IsClean : (log : Log) → Logs log → IsClean log
unfolding log_set_level
Logs-IsClean _ (opened level log_file) = record {
  on_tty = refl;
  rest_blank = refl;
  idle_width = λ _. refl;
  idle_start = λ _. refl;
}
Logs-IsClean _ (levelled log level earlier) =
    let h = Logs-IsClean log earlier in
    record {
      on_tty = h.on_tty;
      rest_blank = h.rest_blank;
      idle_width = h.idle_width;
      idle_start = h.idle_start;
    }
Logs-IsClean _ (written log level message earlier) =
    log_vwrite-IsClean level message log (Logs-IsClean log earlier)
Logs-IsClean _ (updated log message plain earlier) =
    log_render_progress-IsClean message false log (λ _. plain) (Logs-IsClean log earlier)
Logs-IsClean _ (finished log message earlier) =
    log_render_progress-IsClean message true log (λ e. absurd (cc)) (Logs-IsClean log earlier)
Logs-IsClean _ (cleared log earlier) = log_progress_clear-IsClean log (Logs-IsClean log earlier)

-- The cursor stands at the start of a line in which nothing is to be seen.
pub record IsAtStart (scr : Screen) : Type 0 where
  pub at_start : scr.before ≡ []
  pub nothing_seen : all_blank (seen scr) ≡ true

-- On a terminal, after calls of the logger in which no progress line that stays had a carriage return or
-- a newline in its message, a log line at an enabled level is written at the start of a line in which
-- nothing is to be seen, however long a progress line stood there, and it is the last that is written.
pub log_vwrite-IsAtStart :
    (log : Log) (level : ℤ) (message : Bytes)
    → Logs log
    → log_is_enabled level log ≡ true
    → (text : Bytes) × ((log_vwrite level message log).stderr
        ≡ text ++ log_render_line (log_level_str level) (take 1023 message))
      × IsAtStart (feed blank text)
unfolding log_vwrite
log_vwrite-IsAtStart log level message run enabled =
    let h = ready-IsClean log (Logs-IsClean log run) in
    let idle = ready-idle log in
    (
      (ready log).stderr,
      if_cases
          (λ l.
            l.stderr
            ≡ (ready log).stderr ++ log_render_line (log_level_str level) (take 1023 message))
          (not (log_is_enabled level log)) _ _ (λ off. absurd (ground arith)) (λ _. refl),
      record {
        at_start = h.idle_start idle;
        nothing_seen = rw (h.idle_width idle) at h.rest_blank;
      },
    )
