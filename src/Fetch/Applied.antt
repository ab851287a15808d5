-- ===== src/Fetch/Applied.antt =====
-- What `make_new_manifest_current` of src/ota_fetch.c moves, and what a failure of it keeps.
use ota_fetch.Base.{◌≡◌, sym, ◌∙◌, ap, false, ok}
use ota_fetch.Platform.{Platform, IsLawful, State}
use ota_fetch.Platform.Steps.{Steps-after, keeps_file}
use ota_fetch.Platform.Footprint.{keeps_file-Tolerates}
use ota_fetch.Platform.Inversion.{pure-ok, act-ok, check_last-ok, bind-ok, try-ok}
use ota_fetch.Fetch.Context.{Context, remove}
use ota_fetch.Fetch.FilesTouched.{mkdir_p-Steps}
use ota_fetch.Fetch.Apply.{make_new_manifest_current}

module _ (P : Platform) (L : IsLawful P) where
  -- A new manifest that has become current is the manifest that was in the inbox, if the two paths
  -- name different files; the directory above may or may not have been made.
  pub make_new_manifest_current-moves :
      (ctx : Context) (s : State P) {u : Unit {0}} {t : State P}
      → P.same ctx.inbox_manifest_path ctx.current_manifest_path ≡ false
      → make_new_manifest_current P ctx s ≡ (ok u, t)
      → P.file t.world ctx.current_manifest_path ≡ P.file s.world ctx.inbox_manifest_path
  unfolding make_new_manifest_current remove
  make_new_manifest_current-moves ctx s away h = try-ok _ _ _ h λ x s₁ e₁ h₁.
      bind-ok _ _ _ h₁ λ _ s₂ e₂ h₂. act-ok P _ _ _ h₂ λ h₃. check_last-ok _ _ _ h₃ λ moved at_end.
        let made =
          Steps-after (keeps_file P ctx.inbox_manifest_path) _
            (mkdir_p-Steps (keeps_file-Tolerates P L ctx.inbox_manifest_path).mkdir_ok
              ctx.config.current_manifest_dir 0o755)
            e₁ in
        act-ok P _ _ _ e₂ λ e₃. pure-ok _ _ e₃ λ _ cleared. rw (← at_end) (
          L.rename_moves ctx.inbox_manifest_path ctx.current_manifest_path s₂.world s₂.oracle moved
          ∙ ap (λ v. P.file v.world ctx.inbox_manifest_path) (sym cleared)
          ∙ L.unlink_file ctx.current_manifest_path s₁.world s₁.oracle ctx.inbox_manifest_path away
          ∙ made)
