-- ===== src/Fetch/Run.antt =====
-- `ota_fetch_run` of src/ota_fetch.c. A check of the server is `update_check`; the loop round it runs
-- on fuel, and `none` says that the fuel ran out with the program still running.
use ota_fetch.Base.{
  ℕ, zero, suc, ◌+◌, Option, none, some, Bool, true, false, if◌then◌else◌, pos, pos_part,
  is_positive, lt_int, Exec, Result, ok, err, pure, raise, try, ◌>>=◌, ◌>>◌, ℤ, minus_one,
}
use ota_fetch.Platform.{Platform, State, ask, act, event, slept, Crypto, Cjson}
use ota_fetch.Config.{Config}
use ota_fetch.Manifest.{Manifest}
use ota_fetch.Manifest.Load.{NoManifest, manifest_load}
use ota_fetch.Fetch.Context.{Context, ota_ctx_init, ota_inbox_cleanup}
use ota_fetch.Fetch.Stages.{
  FilesEqual, files_eq, files_neq, files_err, fetch_new_manifest, validate_new_manifest,
  compare_manifests, fetch_release, validate_release,
}
use ota_fetch.Fetch.Apply.{apply_release}

abbrev pub retry_delay : ℕ
retry_delay = 5

-- FETCH_INTERVAL_SEC, unless the configuration says otherwise.
unfoldable pub fetch_interval_sec : Config → ℕ
fetch_interval_sec cfg =
    if is_positive cfg.update_interval_sec then pos_part cfg.update_interval_sec else 3600

module _ (P : Platform) (C : Crypto P) (J : Cjson P) where
  abbrev pub or_no_manifest : Result NoManifest Manifest → Exec (State P) ℤ Manifest
  or_no_manifest (ok m) = pure m
  or_no_manifest (err e) = raise minus_one

  -- From `manifest_load` to the validated payload.
  unfoldable pub prepare : Context → Exec (State P) ℤ Context
  unfolding fetch_release validate_release
  prepare ctx = do
    loaded ← try (manifest_load P J ctx.inbox_manifest_path)
    m ← or_no_manifest loaded
    ctx' ← fetch_release P (record ctx { inbox_manifest = some m })
    validate_release P C ctx'
    pure ctx'

  abbrev pub update_if : Context → FilesEqual → Exec (State P) ℤ (Unit {0})
  update_if ctx files_eq = pure tt
  update_if ctx files_err = raise minus_one
  update_if ctx files_neq = do ctx' ← prepare ctx; apply_release P ctx'

  -- One round of the loop up to `attempt_end`; an error is the `rc` found there.
  unfoldable pub update_check : Config → Exec (State P) ℤ (Unit {0})
  unfolding ota_ctx_init ota_inbox_cleanup fetch_new_manifest validate_new_manifest
      compare_manifests prepare apply_release
  update_check cfg = do
    ctx ← ota_ctx_init P cfg
    ota_inbox_cleanup P ctx
    fetch_new_manifest P ctx
    validate_new_manifest P C ctx
    cmp_rc ← compare_manifests P C ctx
    update_if ctx cmp_rc

  unfoldable pub pause : ℕ → Exec (State P) ℤ (Unit {0})
  pause n = do event P (slept n); act P (P.sleep n)

  abbrev pub rc_of : Result ℤ (Unit {0}) → ℤ
  rc_of (ok _) = pos 0
  rc_of (err rc) = rc

  -- `if (g_terminate) return 0;` at the end of a round.
  abbrev pub unless_terminated : Exec (State P) ℤ (Option ℤ) → Exec (State P) ℤ (Option ℤ)
  unless_terminated next = do
    stop ← ask P (λ w. P.g_terminate)
    if stop then pure (some (pos 0)) else next

  abbrev pub daemon_end : Config → Exec (State P) ℤ (Option ℤ) → Exec (State P) ℤ (Option ℤ)
  daemon_end cfg next = do pause (fetch_interval_sec cfg); unless_terminated next

  -- `attempt` counts this round already.
  abbrev pub oneshot_end :
      Config → ℕ → Result ℤ (Unit {0}) → Exec (State P) ℤ (Option ℤ) → Exec (State P) ℤ (Option ℤ)
  oneshot_end cfg attempt (ok _) next = pure (some (pos 0))
  oneshot_end cfg attempt (err rc) next =
      if lt_int attempt cfg.retry_attempts
      then (do pause retry_delay; unless_terminated next)
      else pure (some rc)

  -- `while (1)`, with `attempt` rounds behind it in one-shot mode.
  unfoldable pub run_loop : ℕ → Bool → Config → ℕ → Exec (State P) ℤ (Option ℤ)
  unfolding update_check pause fetch_interval_sec
  run_loop zero daemon_mode cfg attempt = pure none
  run_loop (suc fuel) true cfg attempt = do
    try {F = ℤ} (update_check cfg)
    daemon_end cfg (run_loop fuel true cfg attempt)
  run_loop (suc fuel) false cfg attempt = do
    outcome ← try (update_check cfg)
    oneshot_end cfg (attempt + 1) outcome (run_loop fuel false cfg (attempt + 1))

  unfoldable pub ota_fetch_run : ℕ → Bool → Config → Exec (State P) ℤ (Option ℤ)
  unfolding run_loop
  ota_fetch_run fuel daemon_mode cfg = run_loop fuel daemon_mode cfg 0
