-- ===== src/Fetch/Daemon.antt =====
-- The daemon loop of `ota_fetch_run` of src/ota_fetch.c as a transition system: one step is a check, a
-- pause and a look at `g_terminate`.
use ota_fetch.Base.{
  ℕ, zero, suc, ◌≤◌, ◌≡◌, refl, sym, ap, ◌∙◌, pos, ℤ, true, false, Bool-cases, inl, inr, Option,
  none, some, if◌then◌else◌, ok, pure, try, ◌>>=◌, arith,
}
use ota_fetch.Platform.{Platform, State, ask, act, event, slept, Crypto, Cjson}
use ota_fetch.Platform.Inversion.{asked, acted, pure-ok}
use ota_fetch.Config.{Config}
use ota_fetch.Fetch.Run.{fetch_interval_sec, update_check, pause, run_loop, ota_fetch_run}

module _ (P : Platform) (C : Crypto P) (J : Cjson P) (cfg : Config) where
  -- The state behind the check of a round, and behind the pause that follows it.
  abbrev checked : State P → State P
  checked s = (update_check P C J cfg s).1

  abbrev noted : State P → State P
  noted s = (event P {E = ℤ} (slept (fetch_interval_sec cfg)) (checked s)).1

  abbrev pub rested : State P → State P
  rested s = acted P (P.sleep (fetch_interval_sec cfg)) (noted s)

  -- Rounds that find `g_terminate` unset, and a last one that finds it set.
  pub data Serves : ℕ → State P → State P → Type 0 where
    stops :
        (s : State P)
        → (P.g_terminate (rested s).oracle).0 ≡ true
        → Serves 1 s (asked P (λ w. P.g_terminate) (rested s))
    goes_on :
        (n : ℕ) (s t : State P)
        → (P.g_terminate (rested s).oracle).0 ≡ false
        → Serves n (asked P (λ w. P.g_terminate) (rested s)) t
        → Serves (suc n) s t

  abbrev code_of : Option ℤ → ℤ
  code_of none = pos 0
  code_of (some rc) = rc

  -- One round of the loop.
  round-eq :
      (fuel : ℕ) (s : State P)
      → run_loop P C J (suc fuel) true cfg 0 s
        ≡ (if (P.g_terminate (rested s).oracle).0
              then pure (some (pos 0))
              else run_loop P C J fuel true cfg 0)
            (asked P (λ w. P.g_terminate) (rested s))
  unfolding run_loop try ◌>>=◌ pause event act ask
  round-eq fuel s = refl

  -- A daemon that is told to stop after some rounds returns 0 after that round, in the state that
  -- these rounds lead to, if the fuel is enough for them.
  pub ota_fetch_run-Serves :
      (fuel n : ℕ) (s t : State P)
      → Serves n s t
      → n ≤ fuel
      → ota_fetch_run P C J fuel true cfg s ≡ (ok (some (pos 0)), t)
  unfolding ota_fetch_run pure
  ota_fetch_run-Serves zero _ _ _ (stops s told) enough = absurd (omega (arith, enough))
  ota_fetch_run-Serves (suc fuel) _ _ _ (stops s told) enough = round-eq fuel s ∙ rw told refl
  ota_fetch_run-Serves zero _ _ _ (goes_on n s t untold rest) enough =
      absurd (omega (arith, enough))
  ota_fetch_run-Serves (suc fuel) _ _ _ (goes_on n s t untold rest) enough =
      round-eq fuel s ∙ rw untold (ota_fetch_run-Serves fuel n _ t rest (omega (arith, enough)))

  -- A daemon that returns has been told to stop: some rounds within the fuel found `g_terminate` unset
  -- and the last found it set, whatever the checks returned; the code is 0 and the state is the one that
  -- these rounds lead to.
  pub ota_fetch_run-Serves_of_return :
      (fuel : ℕ) (s t : State P) (rc : ℤ)
      → ota_fetch_run P C J fuel true cfg s ≡ (ok (some rc), t)
      → (rc ≡ pos 0) × ((n : ℕ) × (n ≤ fuel) × Serves n s t)
  unfolding ota_fetch_run run_loop pure
  ota_fetch_run-Serves_of_return zero s t rc h = absurd (cc)
  ota_fetch_run-Serves_of_return (suc fuel) s t rc h =
      elim (Bool-cases (P.g_terminate (rested s).oracle).0) [
        | inl told ↦ pure-ok _ _ (rw told at (sym (round-eq fuel s) ∙ h)) λ code same.
            (ap (λ o. code_of o) (sym code), (1, omega arith, rw (← same) (stops s told)))
        | inr untold ↦
            let (code, (n, within, rest)) =
              ota_fetch_run-Serves_of_return fuel _ t rc
                (rw untold at (sym (round-eq fuel s) ∙ h)) in
            (code, (suc n, omega (arith, within), goes_on n s t untold rest))
      ]
