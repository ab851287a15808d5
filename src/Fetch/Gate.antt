-- ===== src/Fetch/Gate.antt =====
-- What an update check must have passed before it does more than fetch: a round that breaks a
-- relation which its stages up to `compare_manifests` keep has had its manifest verified.
use ota_fetch.Base.{◌≡◌, refl, ◌∙◌, ap, Bytes, some, true, Result, ok, ok->>=, ℤ}
use ota_fetch.Platform.{Platform, IsLawful, State, Crypto, IsSound, Cjson, is_name}
use ota_fetch.Platform.Steps.{Preorder, broken-bind}
use ota_fetch.Platform.Footprint.{Tolerates}
use ota_fetch.Config.{Config}
use ota_fetch.Fetch.Paths.{join}
use ota_fetch.Fetch.Download.{tmp_of}
use ota_fetch.Fetch.Context.{manifest_json, manifest_json_sig, signer_crt}
use ota_fetch.Fetch.Stages.{FilesEqual, validate_new_manifest, compare_manifests}
use ota_fetch.Fetch.StagesTouched.{
  ota_ctx_init-Steps, ota_inbox_cleanup-Steps, AllowsFetch, fetch_new_manifest-Steps,
  validate_new_manifest-Steps, compare_manifests-Steps,
}
use ota_fetch.Fetch.Run.{update_if, update_check}
use ota_fetch.Fetch.Verified.{
  context_at, arrive, IsVerified, ota_ctx_init-context_at, validate_new_manifest-IsVerified,
  tmp_of-join, pure-eq,
}

-- What the relation must tolerate of a check of `cfg`.
pub record AllowsCheck (cfg : Config) (Allowed : Bytes → Type 0) : Type 0 where
  pub inbox_entry :
      (inbox name : Bytes)
      → cfg.inbox_manifest_dir ≡ some inbox
      → is_name name ≡ true
      → Allowed (join inbox name)

module _ (P : Platform) (L : IsLawful P) (C : Crypto P) (D : IsSound C) (J : Cjson P) (cfg : Config)
    (r : Preorder (State P)) {Allowed : Bytes → Type 0} (T : Tolerates P r Allowed)
    (a : AllowsCheck cfg Allowed) where
  context_at-AllowsFetch :
      (current inbox : Bytes)
      → cfg.inbox_manifest_dir ≡ some inbox
      → AllowsFetch T (context_at cfg current inbox)
  unfolding manifest_json manifest_json_sig signer_crt tmp_of
  context_at-AllowsFetch current inbox is_inbox = record {
    manifest = a.inbox_entry inbox manifest_json is_inbox refl;
    sig = a.inbox_entry inbox manifest_json_sig is_inbox refl;
    cert = a.inbox_entry inbox signer_crt is_inbox refl;
    manifest_tmp =
        rw (tmp_of-join inbox manifest_json)
          (a.inbox_entry inbox (tmp_of manifest_json) is_inbox refl);
    sig_tmp =
        rw (tmp_of-join inbox manifest_json_sig)
          (a.inbox_entry inbox (tmp_of manifest_json_sig) is_inbox refl);
    cert_tmp =
        rw (tmp_of-join inbox signer_crt) (a.inbox_entry inbox (tmp_of signer_crt) is_inbox refl);
  }

  -- A check that breaks the relation got to `update_if`, with its manifest verified.
  pub update_check-IsVerified :
      {R : Type 0} (s : State P) {x : Result ℤ (Unit {0})} {s' : State P}
      → update_check P C J cfg s ≡ (x, s')
      → ¬ (r.rel s s')
      → ((current inbox : Bytes) (v t : State P) (u : Unit {0}) (v' : State P) (cmp_rc : FilesEqual)
          → cfg.current_manifest_dir ≡ some current
          → arrive P cfg s ≡ (ok (context_at cfg current inbox), v)
          → IsVerified P C cfg inbox v.world
          → validate_new_manifest P C (context_at cfg current inbox) v ≡ (ok u, v')
          → compare_manifests P C (context_at cfg current inbox) v' ≡ (ok cmp_rc, t)
          → update_if P C J (context_at cfg current inbox) cmp_rc t ≡ (x, s')
          → ¬ (r.rel t s')
          → R)
      → R
  unfolding update_check
  update_check-IsVerified s h bad k =
      broken-bind r _ _ (ota_ctx_init-Steps T cfg) h bad λ ctx s₁ e₁ h₁ bad₁.
        let (current, inbox, is_current, is_inbox, is_ctx) = ota_ctx_init-context_at P cfg s e₁ in
        let h₁' = rw is_ctx at h₁ in
        let f = context_at-AllowsFetch current inbox is_inbox in
        broken-bind r _ _
          (ota_inbox_cleanup-Steps T L (context_at cfg current inbox) f.manifest f.sig f.cert
            a.inbox_entry)
          h₁' bad₁
          λ _ s₂ e₂ h₂ bad₂.
            broken-bind r _ _ (fetch_new_manifest-Steps T (context_at cfg current inbox) f) h₂ bad₂
              λ _ s₃ e₃ h₃ bad₃.
                broken-bind r _ _ (validate_new_manifest-Steps C T (context_at cfg current inbox))
                  h₃ bad₃
                  λ u s₄ e₄ h₄ bad₄.
                    broken-bind r _ _ (compare_manifests-Steps C T (context_at cfg current inbox))
                      h₄ bad₄
                      λ cmp_rc s₅ e₅ h₅ bad₅.
                        k current inbox s₃ s₅ u s₄ cmp_rc is_current
                          (ok->>= _ _ s (e₁ ∙ ap (λ c. (ok c, s₁)) is_ctx) (
                            ok->>= _ _ s₁ e₂
                              (ok->>= _ _ s₂ e₃ (pure-eq (context_at cfg current inbox) s₃))))
                          (validate_new_manifest-IsVerified P L C D cfg current inbox s₃ is_inbox
                            e₄)
                          e₄ e₅ h₅ bad₅
