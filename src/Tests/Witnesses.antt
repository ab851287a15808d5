-- ===== src/Tests/Witnesses.antt =====
-- The theorems at concrete data.
use ota_fetch.Manifest.Chosen.{SelectsFile, manifest_release_select_file-SelectsFile}
use ota_fetch.Manifest.Select.{manifest_release_select_file}
use ota_fetch.Tests.Runs.{entry, site_release}
use ota_fetch.Config.Complete.{IsComplete, config_load-IsComplete}
use ota_fetch.Fetch.Compared.{Compares, files_equal-Compares}
use ota_fetch.Fetch.Traces.{Applied, apply_release-Applied}
use ota_fetch.Fetch.Stages.{files_neq}
use ota_fetch.Tests.Runs.{ini, configured, configures, differs, payload_context, applied, applies}
use ota_fetch.Base.{
  ◌+◌, ◌*◌, ◌≡◌, refl, Bytes, bytes_eq, codes, some, true, false, [], ◌∷◌, ok, length, arith,
  if◌then◌else◌, ltb,
}
use ota_fetch.Platform.{State, exited, is_name}
use ota_fetch.Platform.Totality.{Never}
use ota_fetch.Verify.Soundness.{IsAuthentic}
use ota_fetch.Verify.Authentic.{verify_signature_with_cert-IsAuthentic}
use ota_fetch.Verify.Ends.{is_out_of_fuel as is_out, verify_signature_with_cert-Never}
use ota_fetch.Verify.Pipeline.{verify_signature_with_cert}
use ota_fetch.Hash.Digest.{sha256sum_file}
use ota_fetch.Hash.Ends.{is_out_of_fuel, sha256sum_file-Never}
use ota_fetch.Hash.Hex.{hex_text, hex_encode, encoded, failed, too_small}
use ota_fetch.Hash.Laws.{sha256sum_file-sha256}
use ota_fetch.Hash.Roundtrip.{hex_decode, hex_encode-hex_decode}
use ota_fetch.Manifest.Select.{manifest_select_release}
use ota_fetch.Manifest.Loaded.{IsLoaded, manifest_load-IsLoaded}
use ota_fetch.Manifest.Chosen.{Selects, manifest_select_release-Selects}
use ota_fetch.Fetch.Paths.{join}
use ota_fetch.Fetch.Context.{manifest_json}
use ota_fetch.Fetch.Download.{tmp_of, request_of}
use ota_fetch.Fetch.Delivered.{IsDelivered, fetch_file-keeps_dest, fetch_file-IsDelivered}
use ota_fetch.Fetch.Applied.{make_new_manifest_current-moves}
use ota_fetch.Fetch.Rounds.{Returns, ota_fetch_run-Returns}
use ota_fetch.Fetch.Run.{ota_fetch_run}
use ota_fetch.Fetch.Verified.{IsVerified, context_at, arrive}
use ota_fetch.Fetch.Safety.{IsCleared, update_check-IsCleared, update_check-IsVerified_of_change}
use ota_fetch.Tests.Machine.{Files, lookup}
use ota_fetch.Tests.Lawful.{machine-IsLawful}
use ota_fetch.Tests.Keys.{keys-IsSound, toy_sha256}
use ota_fetch.Tests.Site.{site, device, libcrypto, cjson, config, boot}
use ota_fetch.Tests.Runs.{
  fresh, filled, updated, finished, installs, accepts, hashes, misses, fetches, moves,
  site_manifest, loads,
}

acted : ¬ (finished.trace ≡ [])
acted e = cc

update_check-IsCleared_example :
    IsCleared device libcrypto cjson config (boot fresh) (ok tt) finished
update_check-IsCleared_example =
    update_check-IsCleared device (machine-IsLawful site (exited 0)) libcrypto
      (keys-IsSound site (exited 0)) cjson config (boot fresh) installs acted

-- The current manifest is no entry of the inbox.
current_apart :
    (inbox name : Bytes)
    → config.inbox_manifest_dir ≡ some inbox
    → is_name name ≡ true
    → bytes_eq (codes "c/manifest.json") (join inbox name) ≡ false
unfolding bytes_eq join
current_apart inbox name e h = let same : codes "i" ≡ inbox = cc in rw (← same) refl

current_changed :
    ¬ (lookup (codes "c/manifest.json") updated ≡ lookup (codes "c/manifest.json") fresh)
unfolding lookup bytes_eq
current_changed e = cc

update_check-IsVerified_of_change_example :
    (current inbox : Bytes) × (v : State device) × (arrive device config (boot fresh)
      ≡ (ok (context_at config current inbox), v))
    × IsVerified device libcrypto config inbox v.world
update_check-IsVerified_of_change_example =
    update_check-IsVerified_of_change device (machine-IsLawful site (exited 0)) libcrypto
      (keys-IsSound site (exited 0)) cjson config (codes "c/manifest.json") current_apart
      (boot fresh) installs current_changed

verify_signature_with_cert-IsAuthentic_example :
    IsAuthentic device libcrypto filled
      (codes "i/manifest.json")
      (codes "i/manifest.json.sig")
      (codes "i/signer.crt")
      (codes "ca")
verify_signature_with_cert-IsAuthentic_example =
    verify_signature_with_cert-IsAuthentic device (machine-IsLawful site (exited 0)) libcrypto
      (keys-IsSound site (exited 0)) _ _ _ _ (boot filled) accepts

verify_signature_with_cert-Never_example : Never is_out (
    verify_signature_with_cert device libcrypto
      (some (codes "i/manifest.json"))
      (some (codes "i/manifest.json.sig"))
      (some (codes "i/signer.crt"))
      (some (codes "ca")))
verify_signature_with_cert-Never_example =
    verify_signature_with_cert-Never device libcrypto (keys-IsSound site (exited 0)) _ _ _ _

sha256sum_file-Never_example :
    Never is_out_of_fuel (sha256sum_file device libcrypto (some (codes "ca")))
sha256sum_file-Never_example =
    sha256sum_file-Never device (machine-IsLawful site (exited 0)) libcrypto (some (codes "ca"))

sha256sum_file-sha256_example :
    (contents : Bytes) × (lookup (codes "ca") fresh ≡ some contents)
    × (toy_sha256 (codes "pem") ≡ toy_sha256 contents)
    × (length (toy_sha256 (codes "pem")) ≡ 32)
sha256sum_file-sha256_example =
    sha256sum_file-sha256 device (machine-IsLawful site (exited 0)) libcrypto
      (keys-IsSound site (exited 0)) (codes "ca") (boot fresh) hashes

ca_tmp_apart : bytes_eq (codes "ca") (tmp_of (codes "ca")) ≡ false
unfolding bytes_eq tmp_of
ca_tmp_apart = refl

fetch_file-keeps_dest_example : lookup (codes "ca") fresh ≡ lookup (codes "ca") fresh
fetch_file-keeps_dest_example =
    fetch_file-keeps_dest device (machine-IsLawful site (exited 0)) (codes "u/none") (codes "ca")
      config false (boot fresh) ca_tmp_apart misses

fetch_file-IsDelivered_example :
    IsDelivered device
      (request_of (codes "u/p") config false)
      (codes "ca")
      (boot fresh)
      (boot ((codes "ca", codes "x") ∷ []))
fetch_file-IsDelivered_example =
    fetch_file-IsDelivered device (machine-IsLawful site (exited 0)) (codes "u/p") (codes "ca")
      config false (boot fresh) fetches

manifests_apart : bytes_eq (join (codes "i") manifest_json) (join (codes "c") manifest_json) ≡ false
unfolding bytes_eq join
manifests_apart = refl

moved : Files
moved =
    (codes "c/manifest.json", codes "m")
    ∷ (codes "i/signer.crt", codes "ca")
    ∷ (codes "i/manifest.json.sig", codes "cam")
    ∷ fresh

make_new_manifest_current-moves_example :
    lookup (join (codes "c") manifest_json) moved ≡ lookup (join (codes "i") manifest_json) filled
unfolding moved
make_new_manifest_current-moves_example =
    make_new_manifest_current-moves device (machine-IsLawful site (exited 0))
      (context_at config (codes "c") (codes "i")) (boot filled) manifests_apart moves

ota_fetch_run-Returns_example :
    Returns device libcrypto cjson
      (ota_fetch_run device libcrypto cjson 2 false config)
      (boot fresh)
ota_fetch_run-Returns_example =
    ota_fetch_run-Returns device libcrypto cjson config 2 (boot fresh) (omega arith) (omega arith)

manifest_select_release-Selects_example :
    Selects site_manifest.releases
      (some (codes "d"))
      (manifest_select_release (some site_manifest) (some (codes "d")))
manifest_select_release-Selects_example =
    manifest_select_release-Selects site_manifest (some (codes "d"))

manifest_load-IsLoaded_example :
    (contents : Bytes) × (lookup (codes "i/manifest.json") filled ≡ some contents)
    × IsLoaded device cjson contents site_manifest
manifest_load-IsLoaded_example =
    manifest_load-IsLoaded device cjson (machine-IsLawful site (exited 0)) (codes "i/manifest.json")
      (boot filled) loads

hex_encode-hex_decode_example :
    (hex_encode (some 65) (some (codes "pem")) ≡ (
      if ltb 65 (length (codes "pem") * 2 + 1)
      then failed too_small
      else encoded (hex_text (codes "pem"))))
    × (length (hex_text (codes "pem")) ≡ length (codes "pem") * 2)
    × (hex_decode (hex_text (codes "pem")) ≡ codes "pem")
hex_encode-hex_decode_example =
    hex_encode-hex_decode 65 (codes "pem") (omega arith, (omega arith, (omega arith, tt)))
      (omega arith)

config_load-IsComplete_example : IsComplete configured
config_load-IsComplete_example =
    config_load-IsComplete device ini (codes "f") (boot fresh) configures

files_equal-Compares_example :
    Compares device
      (machine-IsLawful site (exited 0))
      libcrypto
      (keys-IsSound site (exited 0))
      filled
      (codes "ca")
      (codes "i/signer.crt")
      files_neq
files_equal-Compares_example =
    files_equal-Compares device (machine-IsLawful site (exited 0)) libcrypto
      (keys-IsSound site (exited 0)) (codes "ca") (codes "i/signer.crt") (boot filled) differs

apply_release-Applied_example : Applied device payload_context (boot filled) (ok tt) applied
apply_release-Applied_example = apply_release-Applied device payload_context (boot filled) applies

manifest_release_select_file-SelectsFile_example :
    SelectsFile
      (entry ∷ [])
      (some (codes "rauc_bundle"))
      (manifest_release_select_file (some site_release) (some (codes "rauc_bundle")))
manifest_release_select_file-SelectsFile_example =
    manifest_release_select_file-SelectsFile site_release (some (codes "rauc_bundle"))
