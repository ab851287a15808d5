-- ===== src/Fetch/Stages.antt =====
-- The stages of an update check in src/ota_fetch.c: fetching and checking the manifest, fetching and
-- checking the payload.
use ota_fetch.Base.{
  Bytes, bytes_eq, Option, none, some, Bool, true, false, List, [], ◌∷◌, if◌then◌else◌, pos, Exec,
  Result, ok, err, pure, raise, check, try, ◌>>=◌, ◌>>◌, ℤ, minus_one,
}
use ota_fetch.Platform.{Platform, State, ask, Crypto}
use ota_fetch.Manifest.{ManifestRelease, ManifestFile}
use ota_fetch.Manifest.Select.{manifest_select_release}
use ota_fetch.Hash.Hex.{HexResult, encoded, failed, hex_encode}
use ota_fetch.Hash.Digest.{HashError, sha256sum_file}
use ota_fetch.Verify.Defs.{VerifyError}
use ota_fetch.Verify.Pipeline.{verify_signature_with_cert}
use ota_fetch.Fetch.Paths.{build_path}
use ota_fetch.Fetch.Download.{fetch_file}
use ota_fetch.Fetch.Context.{Context, manifest_json, manifest_json_sig, signer_crt}

-- `files_equal_result_t`.
pub data FilesEqual : Type 0 where
  files_eq files_neq files_err : FilesEqual

-- The fields of a file entry that the updater needs; `none` if one is missing.
pub record Payload : Type 0 where
  pub file_type : Bytes
  pub filename : Bytes
  pub path : Bytes
  pub sha256 : Bytes

abbrev pub payload_of : Option Bytes → Option Bytes → Option Bytes → Option Bytes → Option Payload
payload_of (some file_type) (some filename) (some path) (some sha256) =
    some (record { file_type = file_type; filename = filename; path = path; sha256 = sha256 })
payload_of _ _ _ _ = none

abbrev pub first_file : List ManifestFile → Option Payload
first_file [] = none
first_file (f ∷ fs) = payload_of f.file_type f.filename f.path f.sha256

-- `files[0]` of the selected release, if the release is there, has files, and the first is whole.
unfoldable pub payload_entry : Option ManifestRelease → Option Payload
payload_entry none = none
payload_entry (some r) = first_file r.files

abbrev pub is_set : Option Bytes → Bool
is_set none = false
is_set (some s) = true

module _ (P : Platform) where
  abbrev pub Stage : Type 0 → Type 0
  Stage A = Exec (State P) ℤ A

  -- `rc1 || rc2 || rc3`
  abbrev pub all_fetched :
      Result ℤ (Unit {0}) → Result ℤ (Unit {0}) → Result ℤ (Unit {0}) → Stage (Unit {0})
  all_fetched (ok _) (ok _) (ok _) = pure tt
  all_fetched _ _ _ = raise (pos 1)

  -- The three downloads; each is tried whether or not the others succeed.
  abbrev pub fetch_three : Context → Option Bytes → Option Bytes → Option Bytes → Stage (Unit {0})
  fetch_three ctx (some manifest_url) (some sig_url) (some cert_url) = do
    rc1 ← try (fetch_file P manifest_url ctx.inbox_manifest_path ctx.config false)
    rc2 ← try (fetch_file P sig_url ctx.inbox_sig_path ctx.config false)
    rc3 ← try (fetch_file P cert_url ctx.inbox_cert_path ctx.config false)
    all_fetched rc1 rc2 rc3
  fetch_three ctx _ _ _ = raise minus_one

  unfoldable pub fetch_new_manifest : Context → Stage (Unit {0})
  unfolding build_path fetch_file manifest_json manifest_json_sig signer_crt
  fetch_new_manifest ctx = do
    manifest_url ← build_path P ctx.config.server_url (some manifest_json)
    sig_url ← build_path P ctx.config.server_url (some manifest_json_sig)
    cert_url ← build_path P ctx.config.server_url (some signer_crt)
    fetch_three ctx manifest_url sig_url cert_url

  -- The fields of the payload that the download leaves in the context.
  abbrev pub with_payload : Context → Option ManifestRelease → Bytes → Context
  with_payload ctx release payload_path = record ctx {
    release = release;
    payload_path = some payload_path;
  }

  abbrev pub fetch_payload :
      Context → Option ManifestRelease → Option Bytes → Option Bytes → Stage Context
  fetch_payload ctx release (some payload_path) (some payload_url) = do
    fetch_file P payload_url payload_path ctx.config true
    pure (with_payload ctx release payload_path)
  fetch_payload ctx release _ _ = raise minus_one

  abbrev pub fetch_entry : Context → Option ManifestRelease → Option Payload → Stage Context
  fetch_entry ctx release none = raise minus_one
  fetch_entry ctx release (some file) = do
    payload_path ← build_path P ctx.config.inbox_manifest_dir (some file.filename)
    check (is_set payload_path) minus_one
    payload_url ← build_path P ctx.config.server_url (some file.path)
    fetch_payload ctx release payload_path payload_url

  unfoldable pub fetch_release : Context → Stage Context
  unfolding build_path fetch_file manifest_select_release payload_entry
  fetch_release ctx =
      let release = manifest_select_release ctx.inbox_manifest ctx.config.device_id in
      fetch_entry ctx release (payload_entry release)

module _ (P : Platform) (C : Crypto P) where
  abbrev pub verified : Result VerifyError (Unit {0}) → Stage P (Unit {0})
  verified (ok _) = pure tt
  verified (err e) = raise minus_one

  unfoldable pub validate_new_manifest : Context → Stage P (Unit {0})
  unfolding verify_signature_with_cert
  validate_new_manifest ctx = do
    vres ← try (
        verify_signature_with_cert P C (some ctx.inbox_manifest_path) (some ctx.inbox_sig_path)
          (some ctx.inbox_cert_path) ctx.config.manifest_ca_cert)
    verified vres

  abbrev pub same_digest : Result HashError Bytes → Result HashError Bytes → FilesEqual
  same_digest (ok hash1) (ok hash2) = if bytes_eq hash1 hash2 then files_eq else files_neq
  same_digest _ _ = files_err

  unfoldable pub files_equal : Option Bytes → Option Bytes → Stage P FilesEqual
  unfolding sha256sum_file bytes_eq
  files_equal none path2 = pure files_err
  files_equal (some path1) none = pure files_err
  files_equal (some path1) (some path2) = do
    hash1 ← try (sha256sum_file P C (some path1))
    hash2 ← try (sha256sum_file P C (some path2))
    pure (same_digest hash1 hash2)

  abbrev pub is_found : Option Bool → Bool
  is_found none = false
  is_found (some directory) = true

  unfoldable pub file_exists : Bytes → Stage P Bool
  file_exists path = do st ← ask P (P.stat path); pure (is_found st)

  unfoldable pub compare_manifests : Context → Stage P FilesEqual
  unfolding files_equal file_exists
  compare_manifests ctx = do
    current ← file_exists ctx.current_manifest_path
    if current
        then (do
          inbox ← file_exists ctx.inbox_manifest_path
          if inbox
              then files_equal (some ctx.current_manifest_path) (some ctx.inbox_manifest_path)
              else pure files_err)
        else pure files_neq

  abbrev pub check_hex : Bytes → HexResult → Stage P (Unit {0})
  check_hex expected (failed e) = raise minus_one
  check_hex expected (encoded hash_string) = check (bytes_eq hash_string expected) minus_one

  abbrev pub check_hash : Bytes → Result HashError Bytes → Stage P (Unit {0})
  check_hash expected (err e) = raise minus_one
  check_hash expected (ok hash) = check_hex expected (hex_encode (some 65) (some hash))

  abbrev pub validate_against : Context → Option Bytes → Stage P (Unit {0})
  validate_against ctx none = raise minus_one
  validate_against ctx (some expected) = do
    hash ← try (sha256sum_file P C ctx.payload_path)
    check_hash expected hash

  abbrev pub first_sha256 : List ManifestFile → Option Bytes
  first_sha256 [] = none
  first_sha256 (f ∷ fs) = f.sha256

  abbrev pub release_sha256 : Option ManifestRelease → Option Bytes
  release_sha256 none = none
  release_sha256 (some r) = first_sha256 r.files

  unfoldable pub validate_release : Context → Stage P (Unit {0})
  unfolding sha256sum_file hex_encode bytes_eq
  validate_release ctx = validate_against ctx (release_sha256 ctx.release)
