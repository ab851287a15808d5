-- ===== src/Fetch/Rounds.antt =====
-- How long `ota_fetch_run` runs.
use ota_fetch.Base.{
  ℕ, zero, suc, ◌+◌, ◌<◌, ◌≤◌, ◌≡◌, refl, arith, ltb→lt, Option, some, Bool, true, false,
  if◌then◌else◌, Exec, Result, ok, err, pure, try, ◌>>=◌, ◌>>◌, ℤ, pos, negsuc, pos_part, lt_int,
  Bool-cases, inl, inr,
}
use ota_fetch.Platform.{Platform, State, Crypto, Cjson, ask, act, event}
use ota_fetch.Config.{Config}
use ota_fetch.Fetch.Run.{
  retry_delay, pause, unless_terminated, oneshot_end, run_loop, ota_fetch_run,
}

module _ (P : Platform) (C : Crypto P) (J : Cjson P) where
  -- `rc` is what the program returns.
  abbrev pub Returns : Exec (State P) ℤ (Option ℤ) → State P → Type 0
  Returns m s = (rc : ℤ) × ((m s).0 ≡ ok (some rc))

  unless_terminated-Returns :
      (next : Exec (State P) ℤ (Option ℤ)) (s : State P)
      → ((t : State P) → Returns next t)
      → Returns (unless_terminated P C J next) s
  unfolding ask pure ◌>>=◌
  unless_terminated-Returns next s h = go (P.g_terminate s.oracle).0 _
    where
      go : (b : Bool) (t : State P) → Returns (if b then pure (some (pos 0)) else next) t
      go true t = (pos 0, refl)
      go false t = h t

  pause-Returns :
      (n : ℕ) (next : Exec (State P) ℤ (Option ℤ)) (s : State P)
      → ((t : State P) → Returns next t)
      → Returns (pause P C J n >> next) s
  unfolding pause event act ◌>>=◌
  pause-Returns n next s h = h _

  lt_int-lt : (n : ℕ) (z : ℤ) → lt_int n z ≡ true → n < pos_part z
  lt_int-lt n (pos m) h = ltb→lt n m h
  lt_int-lt n (negsuc m) h = absurd (cc)

  oneshot_end-Returns :
      (cfg : Config) (attempt : ℕ) (x : Result ℤ (Unit {0})) (next : Exec (State P) ℤ (Option ℤ))
      (s : State P)
      → (attempt < pos_part cfg.retry_attempts → (t : State P) → Returns next t)
      → Returns (oneshot_end P C J cfg attempt x next) s
  unfolding pure
  oneshot_end-Returns cfg attempt (ok u) next s h = (pos 0, refl)
  oneshot_end-Returns cfg attempt (err rc) next s h =
      elim (Bool-cases (lt_int attempt cfg.retry_attempts)) [
        | inl more ↦ rw more (
            pause-Returns retry_delay (unless_terminated P C J next) s (λ t.
              unless_terminated-Returns next t (h (lt_int-lt attempt cfg.retry_attempts more))))
        | inr over ↦ rw over (rc, refl)
      ]

  -- `fuel` rounds are enough if they reach the number of attempts.
  run_loop-Returns :
      (fuel : ℕ) (cfg : Config) (attempt : ℕ) (s : State P)
      → 0 < fuel
      → pos_part cfg.retry_attempts ≤ attempt + fuel
      → Returns (run_loop P C J fuel false cfg attempt) s
  unfolding run_loop try ◌>>=◌
  run_loop-Returns zero cfg attempt s h k = absurd (omega arith)
  run_loop-Returns (suc zero) cfg attempt s h k =
      oneshot_end-Returns cfg (attempt + 1) _ _ _ (λ more. absurd (omega arith))
  run_loop-Returns (suc (suc fuel)) cfg attempt s h k =
      oneshot_end-Returns cfg (attempt + 1) _ _ _
        (λ more t. run_loop-Returns (suc fuel) cfg (attempt + 1) t (omega arith) (omega arith))

  -- A one-shot run returns, whatever the server, the file system and the signals do, within
  -- `retry_attempts` rounds, and within one if that is not positive.
  pub ota_fetch_run-Returns :
      (cfg : Config) (fuel : ℕ) (s : State P)
      → 0 < fuel
      → pos_part cfg.retry_attempts ≤ fuel
      → Returns (ota_fetch_run P C J fuel false cfg) s
  unfolding ota_fetch_run
  ota_fetch_run-Returns cfg fuel s h k = run_loop-Returns fuel cfg 0 s h (omega arith)
