-- ===== src/Progress/Percent.antt =====
-- The percentage and its milestones.
use native.Mathlib.Nat.{div-mul-le_self, lt-div-mul-add, lt_of_mul-lt-mul_right, mod-eq_of_lt}
use ota_fetch.Base.{
  ℕ, zero, suc, ◌+◌, ◌*◌, ◌/◌, ◌%◌, ◌^◌, ◌≤◌, ◌<◌, ◌≡◌, ap, ◌∙◌, false, ltb, leb, Option, none,
  some, arith, inl, inr, Bool-cases, ltb→lt,
}
use ota_fetch.Progress.Defs.{at_most_100, download_progress_percent, log_progress_percent_milestone}

-- The whole percents that are reached.
pub record IsPercent (transferred total percent : ℕ) : Type 0 where
  pub reached : percent * total ≤ transferred * 100
  pub not_next : transferred * 100 < percent * total + total
  pub below : percent < 100

quotient-below : (t total q : ℕ) → t < total → q * total ≤ t * 100 → q < 100
quotient-below t total q h k = lt_of_mul-lt-mul_right total (omega (arith, h, k))

quotient-IsPercent : (t total : ℕ) → t < total → IsPercent t total (t * 100 / total)
quotient-IsPercent t total h =
    let reached : t * 100 / total * total ≤ t * 100 = div-mul-le_self (t * 100) total in
    record {
      reached = reached;
      not_next = lt-div-mul-add (omega (arith, h));
      below = quotient-below t total (t * 100 / total) h reached;
    }

at_most_100-id : (n : ℕ) → n < 100 → at_most_100 n ≡ n
at_most_100-id n h = ground arith

-- Before the end of a download of less than 2^64 / 100 bytes, the percentage is the quotient rounded
-- down: so many percent of the total are reached, one more is not, and it is less than 100.
pub download_progress_percent-IsPercent :
    (transferred total : ℕ)
    → transferred < total
    → total * 100 < 2 ^ 64
    → (percent : ℕ) × (download_progress_percent transferred total ≡ some percent)
      × IsPercent transferred total percent
unfolding download_progress_percent
download_progress_percent-IsPercent t zero h small = elim h [ ]
download_progress_percent-IsPercent t (suc n) h small =
    let whole : t * 100 % 2 ^ 64 ≡ t * 100 = mod-eq_of_lt (omega (arith, h, small)) in
    let is_percent = quotient-IsPercent t (suc n) h in
    (
      t * 100 / suc n,
      ap some (ap (λ x. at_most_100 (x / suc n)) whole ∙ at_most_100-id _ is_percent.below),
      is_percent,
    )

-- The milestone of a percentage below 100: none, or a number of tens.
pub data IsMilestone (percent : ℕ) : Option ℕ → Type 0 where
  not_yet : percent < 10 → IsMilestone percent none
  tens :
      (k : ℕ)
      → 0 < k
      → 10 * k ≤ percent
      → percent < 10 * k + 10
      → IsMilestone percent (some (10 * k))

pub log_progress_percent_milestone-IsMilestone :
    (percent : ℕ)
    → percent < 100
    → IsMilestone percent (log_progress_percent_milestone (some percent))
unfolding log_progress_percent_milestone
log_progress_percent_milestone-IsMilestone percent below = elim (Bool-cases (ltb percent 10)) [
  | inl early ↦ rw early (not_yet (ltb→lt percent 10 early))
  | inr later ↦
      let big : 10 ≤ percent = ground arith in
      let not_full : leb 100 percent ≡ false = ground arith in
      let whole : percent / 10 * 10 ≡ 10 * (percent / 10) = omega arith in
      rw later (
        rw not_full
          (rw whole (tens (percent / 10) (omega (arith, big)) (omega arith) (omega arith))))
]
