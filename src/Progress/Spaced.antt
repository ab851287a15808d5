-- ===== src/Progress/Spaced.antt =====
-- How `download_progress_callback` of src/ota_fetch.c spaces its lines on a terminal.
use ota_fetch.Base.{
  ℕ, ◌+◌, ◌≤◌, ◌≡◌, refl, ℤ, pos_part, Bool, true, false, not, List, [], ◌∷◌, ◌&&◌, ◌||◌, ltb, leb,
  leb→le, ◌==◌, Option, none, some, arith, inl, inr, Bool-cases,
}
use ota_fetch.Progress.Defs.{
  DownloadProgress, download_progress_init, same_int, is_set, elapsed, download_progress_percent,
  log_progress_should_emit, tty_progress, download_progress_callback,
}

log_progress_should_emit-spaced :
    (now_ms last : ℕ) (previous current : Option ℕ)
    → log_progress_should_emit now_ms (some last) previous current false ≡ true
    → last + 200 ≤ now_ms
unfolding log_progress_should_emit
log_progress_should_emit-spaced now_ms last previous current h =
    elim (Bool-cases (elapsed 500 last now_ms)) [
      | inl long ↦ ground arith
      | inr short ↦ elim (Bool-cases (elapsed 200 last now_ms)) [
        | inl enough ↦ leb→le _ _ enough
        | inr not_enough ↦
            let never : (is_set current && not (same_int current previous) && false) ≡ true =
              rw (short, not_enough) at h in
            absurd (ground arith)
      ]
    ]

-- When a line was rendered last.
abbrev latest : List ℕ → Option ℕ
latest [] = none
latest (now_ms ∷ times) = some now_ms

-- Each time is 200 ms or more after the one before it; the list begins with the last.
abbrev pub AreSpaced : List ℕ → Type 0
AreSpaced [] = Unit {0}
AreSpaced (now_ms ∷ []) = Unit {0}
AreSpaced (now_ms ∷ last ∷ times) = (last + 200 ≤ now_ms) × AreSpaced (last ∷ times)

-- Calls of the callback on a terminal, and the times at which they rendered a line.
pub data Renders : DownloadProgress → List ℕ → Type 0 where
  begun : (now_ms : ℕ) → Renders (download_progress_init now_ms) []
  silent :
      (p : DownloadProgress) (times : List ℕ) (enabled : Bool) (now_ms : ℕ) (dltotal dlnow : ℤ)
      (p' : DownloadProgress)
      → Renders p times
      → download_progress_callback enabled true now_ms dltotal dlnow p ≡ (p', false)
      → Renders p' times
  rendered :
      (p : DownloadProgress) (times : List ℕ) (enabled : Bool) (now_ms : ℕ) (dltotal dlnow : ℤ)
      (p' : DownloadProgress)
      → Renders p times
      → download_progress_callback enabled true now_ms dltotal dlnow p ≡ (p', true)
      → Renders p' (now_ms ∷ times)

-- The time of the last line is kept.
record IsKept (p : DownloadProgress) (times : List ℕ) : Type 0 where
  is_last : p.last_emit_ms ≡ latest times
  spaced : AreSpaced times

-- What one report does to the times.
abbrev after : Bool → ℕ → List ℕ → List ℕ
after true now_ms times = now_ms ∷ times
after false now_ms times = times

AreSpaced-next :
    (now_ms : ℕ) (times : List ℕ) (previous current : Option ℕ)
    → log_progress_should_emit now_ms (latest times) previous current false ≡ true
    → AreSpaced times
    → AreSpaced (now_ms ∷ times)
AreSpaced-next now_ms [] previous current due h = tt
AreSpaced-next now_ms (last ∷ times) previous current due h =
    (log_progress_should_emit-spaced now_ms last previous current due, h)

tty_progress-IsKept :
    (now_ms : ℕ) (times : List ℕ) (p : DownloadProgress)
    → IsKept p times
    → IsKept (tty_progress now_ms p).0 (after (tty_progress now_ms p).1 now_ms times)
unfolding tty_progress
tty_progress-IsKept now_ms times p h =
    let current = download_progress_percent p.transferred p.total in
    elim (Bool-cases
      (log_progress_should_emit now_ms p.last_emit_ms p.last_percent current false)) [
        | inl due ↦ rw due (record {
          is_last = refl;
          spaced =
              AreSpaced-next now_ms times p.last_percent current (rw h.is_last at due) h.spaced;
        })
        | inr early ↦ rw early h
      ]

callback-IsKept :
    (enabled : Bool) (now_ms : ℕ) (dltotal dlnow : ℤ) (times : List ℕ) (p : DownloadProgress)
    → IsKept p times
    → IsKept
        (download_progress_callback enabled true now_ms dltotal dlnow p).0
        (after (download_progress_callback enabled true now_ms dltotal dlnow p).1 now_ms times)
unfolding download_progress_callback
callback-IsKept enabled now_ms dltotal dlnow times p h =
    let later : IsKept (record p { total = pos_part dltotal; transferred = pos_part dlnow }) times =
      record { is_last = h.is_last; spaced = h.spaced } in
    elim (Bool-cases (
      not enabled
      || pos_part dlnow == 0
      || (ltb 0 (pos_part dltotal) && leb (pos_part dltotal) (pos_part dlnow)))) [
        | inl nothing ↦ rw nothing later
        | inr heard ↦ rw heard (tty_progress-IsKept now_ms times _ later)
      ]

Renders-IsKept : (p : DownloadProgress) (times : List ℕ) → Renders p times → IsKept p times
Renders-IsKept _ _ (begun now_ms) = record { is_last = refl; spaced = tt }
Renders-IsKept _ _ (silent p times enabled now_ms dltotal dlnow p' earlier e) =
    (rw e at
      (callback-IsKept enabled now_ms dltotal dlnow times p (Renders-IsKept p times earlier)))
Renders-IsKept _ _ (rendered p times enabled now_ms dltotal dlnow p' earlier e) =
    (rw e at
      (callback-IsKept enabled now_ms dltotal dlnow times p (Renders-IsKept p times earlier)))

-- However often libcurl reports a download on a terminal, and whatever it reports, each line that the
-- callback renders comes 200 ms or more after the one before it.
pub Renders-AreSpaced : (p : DownloadProgress) (times : List ℕ) → Renders p times → AreSpaced times
Renders-AreSpaced p times run = (Renders-IsKept p times run).spaced
