-- ===== src/Fetch/Apply.antt =====
-- `make_new_manifest_current` and `apply_release` of src/ota_fetch.c.
use ota_fetch.Base.{
  zero, suc, Bytes, codes, bytes_eq, Option, none, some, List, [], ◌∷◌, if◌then◌else◌, pos, Exec,
  Result, ok, err, pure, raise, check, try, ◌>>=◌, ◌>>◌, ℤ, minus_one,
}
use ota_fetch.Platform.{
  Platform, State, act, event, Child, fork_failed, wait_failed, lost, exited, signaled, installing,
  rebooted,
}
use ota_fetch.Manifest.{ManifestRelease, ManifestFile}
use ota_fetch.Fetch.Paths.{mkdir_p}
use ota_fetch.Fetch.Context.{Context, remove, text_of}

unfoldable pub rauc_bundle : Bytes
rauc_bundle = codes "rauc_bundle"

unfoldable pub rauc_bundle_test : Bytes
rauc_bundle_test = codes "rauc_bundle_test"

abbrev pub first_type : List ManifestFile → Option Bytes
first_type [] = none
first_type (f ∷ fs) = f.file_type

abbrev pub release_type : Option ManifestRelease → Option Bytes
release_type none = none
release_type (some r) = first_type r.files

module _ (P : Platform) where
  -- A `mkdir_p` or `unlink` that fails does not stop the move.
  unfoldable pub make_new_manifest_current : Context → Exec (State P) ℤ (Unit {0})
  unfolding mkdir_p remove
  make_new_manifest_current ctx = do
    try {F = ℤ} (mkdir_p P ctx.config.current_manifest_dir 0o755)
    remove P ctx.current_manifest_path
    moved ← act P (P.rename ctx.inbox_manifest_path ctx.current_manifest_path)
    check moved minus_one

  -- Only a child that exits with status 0 counts as an installation.
  abbrev pub child_rc : Child → Exec (State P) ℤ (Unit {0})
  child_rc (exited zero) = pure tt
  child_rc (exited (suc n)) = raise minus_one
  child_rc (signaled n) = raise minus_one
  child_rc fork_failed = raise minus_one
  child_rc wait_failed = raise minus_one
  child_rc lost = raise minus_one

  unfoldable pub install_bundle : Bytes → Exec (State P) ℤ (Unit {0})
  install_bundle bundle_path = do
    event P (installing bundle_path)
    child ← act P (P.rauc_install bundle_path)
    child_rc child

  abbrev pub or_return : ℤ → Result ℤ (Unit {0}) → Exec (State P) ℤ (Unit {0})
  or_return rc (ok _) = pure tt
  or_return rc (err e) = raise rc

  unfoldable pub apply_type : Bytes → Context → Exec (State P) ℤ (Unit {0})
  unfolding make_new_manifest_current install_bundle rauc_bundle rauc_bundle_test bytes_eq
  apply_type file_type ctx =
      if bytes_eq file_type rauc_bundle_test
      then (do made ← try (make_new_manifest_current ctx); or_return minus_one made)
      else if bytes_eq file_type rauc_bundle
      then (do
        install_bundle (text_of ctx.payload_path)
        made ← try (make_new_manifest_current ctx)
        or_return (pos 1) made
        event P rebooted
        act P P.reboot)
      else raise (pos 1)

  abbrev pub apply_or_fail : Context → Option Bytes → Exec (State P) ℤ (Unit {0})
  apply_or_fail ctx none = raise minus_one
  apply_or_fail ctx (some file_type) = apply_type file_type ctx

  unfoldable pub apply_release : Context → Exec (State P) ℤ (Unit {0})
  unfolding apply_type
  apply_release ctx = apply_or_fail ctx (release_type ctx.release)
