-- ===== src/Progress/Lines.antt =====
-- How often `download_progress_callback` of src/ota_fetch.c renders a line.
use native.Mathlib.Nat.{lt_of_mul-lt-mul_right, mul-le-mul_right}
use ota_fetch.Base.{
  ℕ, suc, ◌+◌, ◌*◌, ◌^◌, ◌≤◌, ◌<◌, ◌≡◌, refl, pos, Bool, true, false, ◌&&◌, ◌||◌, ltb, leb, ◌==◌,
  Option, none, some, arith, inl, inr, ◌⊎◌, Bool-cases,
}
use ota_fetch.Progress.Defs.{
  DownloadProgress, download_progress_init, same_int, on_percent_milestone, non_tty_progress,
  download_progress_callback,
}
use ota_fetch.Progress.Percent.{
  IsPercent, download_progress_percent-IsPercent, IsMilestone, not_yet, tens,
  log_progress_percent_milestone-IsMilestone,
}

abbrev rendered : Bool → ℕ → ℕ
rendered true n = suc n
rendered false n = n

-- A download of `total` bytes whose output is no terminal, as libcurl reports it: the progress so far,
-- and the number of lines that were rendered.
pub data Reports (total : ℕ) : DownloadProgress → ℕ → Type 0 where
  begun : (now_ms : ℕ) → Reports total (download_progress_init now_ms) 0
  reported :
      (p : DownloadProgress) (n now_ms dlnow : ℕ) (p' : DownloadProgress) (line : Bool)
      → Reports total p n
      → p.transferred ≤ dlnow
      → download_progress_callback true false now_ms (pos total) (pos dlnow) p ≡ (p', line)
      → Reports total p' (rendered line n)

-- The last milestone is the `k`-th ten, if there was one, and the download has reached it; there were no
-- more lines than that.
record IsPaced (total : ℕ) (p : DownloadProgress) (n : ℕ) : Type 0 where
  k : ℕ
  is_last :
      ((p.last_non_tty_percent_milestone ≡ none) × (k ≡ 0))
      ⊎ (p.last_non_tty_percent_milestone ≡ some (10 * k))
  counted : n ≤ k
  reached : 10 * k * total ≤ p.transferred * 100
  below : k ≤ 9

-- A report that renders nothing keeps the pace.
later-IsPaced :
    (total : ℕ) (p : DownloadProgress) (n dlnow : ℕ)
    → IsPaced total p n
    → p.transferred ≤ dlnow
    → IsPaced total (record p { total = total; transferred = dlnow }) n
later-IsPaced total p n dlnow h rising = record {
  k = h.k;
  is_last = h.is_last;
  counted = h.counted;
  reached = omega (arith, h.reached, rising);
  below = h.below;
}

-- The milestone that is reached is not below the last.
rising-tens :
    (total t q j k : ℕ)
    → 10 * k * total ≤ t * 100
    → t * 100 < q * total + total
    → q < 10 * j + 10
    → k ≤ j
rising-tens total t q j k last next q_below =
    let strict : 10 * k < q + 1 = lt_of_mul-lt-mul_right total (omega (arith, last, next)) in
    omega (arith, strict, q_below)

-- Another milestone is a later ten.
fresh-tens :
    (last : Option ℕ) (j k : ℕ)
    → ((last ≡ none) × (k ≡ 0)) ⊎ (last ≡ some (10 * k))
    → same_int (some (10 * j)) last ≡ false
    → 0 < j
    → k ≤ j
    → k < j
fresh-tens last j k (inl (_, nothing)) new positive h = omega (arith, nothing, positive)
fresh-tens last j k (inr same) new positive h =
    let apart : (10 * j == 10 * k) ≡ false = rw same at new in ground arith

milestone-IsPaced :
    (total : ℕ) (p : DownloadProgress) (n q : ℕ) (m : Option ℕ)
    → IsPaced total p n
    → IsPercent p.transferred total q
    → IsMilestone q m
    → IsPaced total (on_percent_milestone p m).0 (rendered (on_percent_milestone p m).1 n)
milestone-IsPaced total p n q m h is_percent (not_yet early) = h
milestone-IsPaced total p n q m h is_percent (tens j positive low high) =
    elim (Bool-cases (same_int (some (10 * j)) p.last_non_tty_percent_milestone)) [
      | inl same ↦ rw same h
      | inr new ↦ rw new (record {
        k = j;
        is_last = inr refl;
        counted = omega (
          arith,
          h.counted,
          fresh-tens _ j h.k h.is_last new positive
              (rising-tens total p.transferred q j h.k h.reached is_percent.not_next high),
        );
        reached = omega (arith, is_percent.reached, mul-le-mul_right total low);
        below = omega (arith, is_percent.below, low);
      })
    ]

non_tty_progress-IsPaced :
    (p : DownloadProgress) (n : ℕ)
    → p.transferred < p.total
    → p.total * 100 < 2 ^ 64
    → IsPaced p.total p n
    → IsPaced p.total (non_tty_progress p).0 (rendered (non_tty_progress p).1 n)
unfolding non_tty_progress
non_tty_progress-IsPaced p n before small h =
    let (q, is_q, is_percent) =
      download_progress_percent-IsPercent p.transferred p.total before small in
    let sized : ltb 0 p.total ≡ true = ground arith in
    rw sized (
      rw is_q (
        milestone-IsPaced p.total p n q _ h is_percent
          (log_progress_percent_milestone-IsMilestone q is_percent.below)))

callback-IsPaced :
    (total : ℕ) (p : DownloadProgress) (n now_ms dlnow : ℕ)
    → total * 100 < 2 ^ 64
    → 0 < total
    → IsPaced total p n
    → p.transferred ≤ dlnow
    → IsPaced total
        (download_progress_callback true false now_ms (pos total) (pos dlnow) p).0
        (rendered (download_progress_callback true false now_ms (pos total) (pos dlnow) p).1 n)
unfolding download_progress_callback
callback-IsPaced total p n now_ms dlnow small sized h rising =
    let later = later-IsPaced total p n dlnow h rising in
    elim (Bool-cases (dlnow == 0 || (ltb 0 total && leb total dlnow))) [
      | inl silent ↦ rw silent later
      | inr heard ↦
          let before : dlnow < total = ground arith in
          rw heard (non_tty_progress-IsPaced _ n before small later)
    ]

Reports-IsPaced :
    (total : ℕ) (p : DownloadProgress) (n : ℕ)
    → total * 100 < 2 ^ 64
    → 0 < total
    → Reports total p n
    → IsPaced total p n
Reports-IsPaced total _ _ small sized (begun now_ms) = record {
  k = 0;
  is_last = inl (refl, refl);
  counted = omega arith;
  reached = omega arith;
  below = omega arith;
}
Reports-IsPaced total _ _ small sized (reported p n now_ms dlnow p' line earlier rising e) =
    (rw e at (
      callback-IsPaced total p n now_ms dlnow small sized
        (Reports-IsPaced total p n small sized earlier) rising))

-- However often libcurl reports a download of known size, less than 2^64 / 100 bytes, whose progress
-- does not go back, at most nine lines are rendered where the output is no terminal.
pub Reports-at_most :
    (total : ℕ) (p : DownloadProgress) (n : ℕ)
    → total * 100 < 2 ^ 64
    → 0 < total
    → Reports total p n
    → n ≤ 9
Reports-at_most total p n small sized run =
    let h = Reports-IsPaced total p n small sized run in omega (arith, h.counted, h.below)
