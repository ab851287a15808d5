-- ===== src/Fetch/Traces.antt =====
-- What `apply_release` installs, and when it reboots.
use ota_fetch.Base.{
  ◌≡◌, refl, sym, ◌∙◌, ap, Bytes, bytes_eq, Bool-cases, Option, some, none, [], ◌∷◌, ◌++◌, Result,
  ok, err, pure, raise, try, ◌>>=◌, ◌>>◌, ℤ, zero, suc, Exec, pos, minus_one, inl, inr, ◌⊎◌,
}
use ota_fetch.Platform.{
  Platform, State, Child, fork_failed, wait_failed, lost, exited, signaled, act, event, installing,
  rebooted,
}
use ota_fetch.Platform.Steps.{
  Steps, Steps-bind, Steps-try, Steps-after, Steps-raise, Steps-pure, quiet, quiet_rules,
}
use ota_fetch.Platform.Footprint.{quiet-Tolerates}
use ota_fetch.Fetch.Context.{Context, remove, text_of}
use ota_fetch.Fetch.FilesTouched.{mkdir_p-Steps}
use ota_fetch.Fetch.Apply.{
  child_rc, install_bundle, make_new_manifest_current, or_return, apply_type, apply_or_fail,
  apply_release, release_type, rauc_bundle, rauc_bundle_test,
}

-- What an application of `ctx` from `s` to `t`, with the outcome `x`, has added to the trace: nothing;
-- the start of an installation; or an installation and a reboot, after a success of `rauc install`.
pub data Applied (P : Platform) (ctx : Context) (s : State P) (x : Result ℤ (Unit {0}))
    (t : State P) : Type 0 where
  nothing : t.trace ≡ s.trace → Applied P ctx s x t
  started :
      (e : ℤ)
      → x ≡ err e
      → t.trace ≡ s.trace ++ installing (text_of ctx.payload_path) ∷ []
      → Applied P ctx s x t
  completed :
      x ≡ ok tt
      → (P.rauc_install (text_of ctx.payload_path) s.world s.oracle).0 ≡ exited 0
      → t.trace ≡ (s.trace ++ installing (text_of ctx.payload_path) ∷ []) ++ rebooted ∷ []
      → Applied P ctx s x t

module _ (P : Platform) where
  make_new_manifest_current-quiet :
      (ctx : Context) → Steps (quiet P) (make_new_manifest_current P ctx)
  unfolding make_new_manifest_current remove
  make_new_manifest_current-quiet ctx =
      Steps-bind _ _
        (Steps-try _
          (mkdir_p-Steps (quiet-Tolerates P).mkdir_ok ctx.config.current_manifest_dir 0o755))
        λ _. search quiet_rules depth 20

  -- What is left after the installation.
  abbrev finish : Context → Exec (State P) ℤ (Unit {0})
  finish ctx = do
    made ← try (make_new_manifest_current P ctx)
    or_return P (pos 1) made
    event P rebooted
    act P P.reboot

  finish-trace :
      (ctx : Context) (s : State P) {x : Result ℤ (Unit {0})} {t : State P}
      → finish ctx s ≡ (x, t)
      → ((e : ℤ) × (x ≡ err e) × (t.trace ≡ s.trace))
        ⊎ ((x ≡ ok tt) × (t.trace ≡ s.trace ++ rebooted ∷ []))
  unfolding try ◌>>=◌ event act raise pure
  finish-trace ctx s {x} {t} h = go (make_new_manifest_current P ctx s) refl h
    where
      go :
          (p : Result ℤ (Unit {0}) × State P)
          → make_new_manifest_current P ctx s ≡ p
          → (or_return P (pos 1) p.0 >> (event P rebooted >> act P P.reboot)) p.1 ≡ (x, t)
          → ((e : ℤ) × (x ≡ err e) × (t.trace ≡ s.trace))
            ⊎ ((x ≡ ok tt) × (t.trace ≡ s.trace ++ rebooted ∷ []))
      go (ok u, v) e k =
          let same = Steps-after (quiet P) _ (make_new_manifest_current-quiet ctx) e in
          inr
            (sym (ap (λ q. q.0) k), sym (ap (λ q. q.1.trace) k) ∙ ap (λ l. l ++ rebooted ∷ []) same)
      go (err rc, v) e k =
          let same = Steps-after (quiet P) _ (make_new_manifest_current-quiet ctx) e in
          inl (pos 1, sym (ap (λ q. q.0) k), sym (ap (λ q. q.1.trace) k) ∙ same)

  -- `install_bundle` records its start whatever happens, and succeeds only if the child exited with 0.
  install_bundle-trace :
      (path : Bytes) (s : State P) {x : Result ℤ (Unit {0})} {t : State P}
      → install_bundle P path s ≡ (x, t)
      → (t.trace ≡ s.trace ++ installing path ∷ [])
        × (((e : ℤ) × (x ≡ err e))
            ⊎ ((x ≡ ok tt) × ((P.rauc_install path s.world s.oracle).0 ≡ exited 0)))
  unfolding install_bundle event ◌>>=◌ act pure raise
  install_bundle-trace path s {x} {t} h = go (P.rauc_install path s.world s.oracle).0 refl h
    where
      go :
          (c : Child)
          → (P.rauc_install path s.world s.oracle).0 ≡ c
          → child_rc P c (record s {
            world = (P.rauc_install path s.world s.oracle).1;
            oracle = (P.rauc_install path s.world s.oracle).2;
            trace = s.trace ++ installing path ∷ [];
          })
            ≡ (x, t)
          → (t.trace ≡ s.trace ++ installing path ∷ [])
            × (((e : ℤ) × (x ≡ err e))
                ⊎ ((x ≡ ok tt) × ((P.rauc_install path s.world s.oracle).0 ≡ exited 0)))
      go (exited zero) e k = (sym (ap (λ q. q.1.trace) k), inr (sym (ap (λ q. q.0) k), e))
      go (exited (suc n)) e k =
          (sym (ap (λ q. q.1.trace) k), inl (minus_one, sym (ap (λ q. q.0) k)))
      go (signaled n) e k = (sym (ap (λ q. q.1.trace) k), inl (minus_one, sym (ap (λ q. q.0) k)))
      go fork_failed e k = (sym (ap (λ q. q.1.trace) k), inl (minus_one, sym (ap (λ q. q.0) k)))
      go wait_failed e k = (sym (ap (λ q. q.1.trace) k), inl (minus_one, sym (ap (λ q. q.0) k)))
      go lost e k = (sym (ap (λ q. q.1.trace) k), inl (minus_one, sym (ap (λ q. q.0) k)))

  bundle-Applied :
      (ctx : Context) (s : State P) {x : Result ℤ (Unit {0})} {t : State P}
      → (install_bundle P (text_of ctx.payload_path) >> finish ctx) s ≡ (x, t)
      → Applied P ctx s x t
  unfolding ◌>>=◌
  bundle-Applied ctx s {x} {t} h = go (install_bundle P (text_of ctx.payload_path) s) refl h
    where
      done :
          (v : State P)
          → v.trace ≡ s.trace ++ installing (text_of ctx.payload_path) ∷ []
          → (P.rauc_install (text_of ctx.payload_path) s.world s.oracle).0 ≡ exited 0
          → finish ctx v ≡ (x, t)
          → Applied P ctx s x t
      done v began exit k = elim (finish-trace ctx v k) [
        | inl (e, failed, same) ↦ started e failed (same ∙ began)
        | inr (fine, more) ↦ completed fine exit (more ∙ ap (λ l. l ++ rebooted ∷ []) began)
      ]

      go :
          (p : Result ℤ (Unit {0}) × State P)
          → install_bundle P (text_of ctx.payload_path) s ≡ p
          → (install_bundle P (text_of ctx.payload_path) >> finish ctx) s ≡ (x, t)
          → Applied P ctx s x t
      go (err rc, v) e k =
          let (began, _) = install_bundle-trace (text_of ctx.payload_path) s e in
          let same : (err rc, v) ≡ (x, t) = rw e at k in
          started rc (sym (ap (λ q. q.0) same)) (sym (ap (λ q. q.1.trace) same) ∙ began)
      go (ok u, v) e k =
          let (began, outcome) = install_bundle-trace (text_of ctx.payload_path) s e in
          elim outcome [
            | inl (rc, failed) ↦ absurd (cc)
            | inr (fine, exit) ↦ done v began exit (rw e at k)
          ]

  test_bundle-quiet :
      (ctx : Context) (rc : ℤ)
      → Steps (quiet P) (try (make_new_manifest_current P ctx) >>= or_return P rc)
  test_bundle-quiet ctx rc = Steps-bind _ _ (Steps-try _ (make_new_manifest_current-quiet ctx)) go
    where
      go : (y : Result ℤ (Unit {0})) → Steps (quiet P) (or_return P rc y)
      go (ok u) = Steps-pure tt
      go (err e) = Steps-raise rc

  apply_type-Applied :
      (ctx : Context) (ty : Bytes) (s : State P) {x : Result ℤ (Unit {0})} {t : State P}
      → apply_type P ty ctx s ≡ (x, t)
      → Applied P ctx s x t
  unfolding apply_type
  apply_type-Applied ctx ty s h = elim (Bool-cases (bytes_eq ty rauc_bundle_test)) [
    | inl test ↦ nothing (Steps-after (quiet P) _ (test_bundle-quiet ctx minus_one) (rw test at h))
    | inr other ↦ elim (Bool-cases (bytes_eq ty rauc_bundle)) [
      | inl bundle ↦ bundle-Applied ctx s (rw bundle at (rw other at h))
      | inr unknown ↦
          nothing (Steps-after (quiet P) _ (Steps-raise (pos 1)) (rw unknown at (rw other at h)))
    ]
  ]

  apply_or_fail-Applied :
      (ctx : Context) (ty : Option Bytes) (s : State P) {x : Result ℤ (Unit {0})} {t : State P}
      → apply_or_fail P ctx ty s ≡ (x, t)
      → Applied P ctx s x t
  apply_or_fail-Applied ctx none s h = nothing (Steps-after (quiet P) _ (Steps-raise minus_one) h)
  apply_or_fail-Applied ctx (some ty) s h = apply_type-Applied ctx ty s h

  -- An application adds one of three things to the trace: nothing; the start of one installation of the
  -- payload, and then it fails; or that installation and one reboot after it, and then `rauc install`
  -- has exited with status 0 and the application succeeds.
  pub apply_release-Applied :
      (ctx : Context) (s : State P) {x : Result ℤ (Unit {0})} {t : State P}
      → apply_release P ctx s ≡ (x, t)
      → Applied P ctx s x t
  unfolding apply_release
  apply_release-Applied ctx s h = apply_or_fail-Applied ctx (release_type ctx.release) s h
