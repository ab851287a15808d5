-- ===== src/Tests/Runs.antt =====
-- Runs on the test device.
use ota_fetch.Manifest.Defs.{ManifestRelease}
use ota_fetch.Config.{Config, zeroed}
use ota_fetch.Config.Load.{Ini, config_load}
use ota_fetch.Fetch.Context.{Context}
use ota_fetch.Fetch.Stages.{files_equal, files_neq}
use ota_fetch.Fetch.Apply.{apply_release}
use ota_fetch.Manifest.Select.{manifest_select_release}
use ota_fetch.Base.{pos}
use ota_fetch.Base.{
  ◌≡◌, refl, bytes_eq, codes, none, some, false, [], ◌∷◌, ok, err, pure, raise, try, check, ◌>>=◌,
  minus_one,
}
use ota_fetch.Platform.{State, installing, rebooted, slept, ask, act, event}
use ota_fetch.Tests.Machine.{Files, lookup, erase}
use ota_fetch.Tests.Site.{device, libcrypto, cjson, config, boot}
use ota_fetch.Fetch.Run.{update_check, ota_fetch_run}
use ota_fetch.Fetch.Download.{fetch_file}
use ota_fetch.Fetch.Apply.{make_new_manifest_current}
use ota_fetch.Fetch.Paths.{join}
use ota_fetch.Fetch.Context.{manifest_json}
use ota_fetch.Fetch.Verified.{context_at}
use ota_fetch.Hash.Hex.{hex_text, hex_digit}
use ota_fetch.Hash.Digest.{sha256sum_file}
use ota_fetch.Manifest.Defs.{Manifest, ManifestFile}
use ota_fetch.Manifest.Load.{manifest_load}
use ota_fetch.Verify.Defs.{read_signature_file}
use ota_fetch.Verify.Pipeline.{verify_signature_with_cert}
use ota_fetch.Tests.Keys.{toy_sha256}

-- A device without a current manifest.
abbrev pub fresh : Files
fresh = (codes "ca", codes "pem") ∷ []

-- The inbox after a fetch.
abbrev pub filled : Files
filled =
    (codes "i/signer.crt", codes "ca")
    ∷ (codes "i/manifest.json.sig", codes "cam")
    ∷ (codes "i/manifest.json", codes "m")
    ∷ fresh

-- The device after an update.
abbrev pub updated : Files
updated =
    (codes "c/manifest.json", codes "m")
    ∷ (codes "i/b", codes "x")
    ∷ (codes "i/signer.crt", codes "ca")
    ∷ (codes "i/manifest.json.sig", codes "cam")
    ∷ fresh

abbrev pub finished : State device
finished = record { world = updated; oracle = []; trace = installing (codes "i/b") ∷ rebooted ∷ [] }

pub installs : update_check device libcrypto cjson config (boot fresh) ≡ (ok tt, finished)
unfolding update_check bytes_eq lookup erase pure raise try check ◌>>=◌ ask act event hex_text
    hex_digit read_signature_file manifest_load
installs = refl

-- Without the authority, nothing is installed, and the one-shot run tries twice.
retries :
    ota_fetch_run device libcrypto cjson 2 false config (record (boot []) { oracle = false ∷ [] })
    ≡ (
      ok (some minus_one),
      record (boot (
          (codes "i/signer.crt", codes "ca")
          ∷ (codes "i/manifest.json.sig", codes "cam")
          ∷ (codes "i/manifest.json", codes "m")
          ∷ [])) { trace = slept 5 ∷ [] },
    )
unfolding ota_fetch_run bytes_eq lookup erase pure raise try check ◌>>=◌ ask act event hex_text
    hex_digit read_signature_file manifest_load
retries = refl

pub accepts :
    verify_signature_with_cert device libcrypto
      (some (codes "i/manifest.json"))
      (some (codes "i/manifest.json.sig"))
      (some (codes "i/signer.crt"))
      (some (codes "ca"))
      (boot filled)
    ≡ (ok tt, boot filled)
unfolding verify_signature_with_cert bytes_eq lookup pure raise try check ◌>>=◌ ask
    read_signature_file
accepts = refl

pub hashes :
    sha256sum_file device libcrypto (some (codes "ca")) (boot fresh)
    ≡ (ok (toy_sha256 (codes "pem")), boot fresh)
unfolding sha256sum_file bytes_eq lookup pure raise try check ◌>>=◌ ask
hashes = refl

pub misses :
    fetch_file device (codes "u/none") (codes "ca") config false (boot fresh)
    ≡ (err minus_one, boot fresh)
unfolding fetch_file bytes_eq lookup erase pure raise try check ◌>>=◌ ask act
misses = refl

pub fetches :
    fetch_file device (codes "u/p") (codes "ca") config false (boot fresh)
    ≡ (ok tt, boot ((codes "ca", codes "x") ∷ []))
unfolding fetch_file bytes_eq lookup erase pure raise try check ◌>>=◌ ask act
fetches = refl

pub moves :
    make_new_manifest_current device (context_at config (codes "c") (codes "i")) (boot filled) ≡ (
      ok tt,
      boot (
          (codes "c/manifest.json", codes "m")
          ∷ (codes "i/signer.crt", codes "ca")
          ∷ (codes "i/manifest.json.sig", codes "cam")
          ∷ fresh),
    )
unfolding make_new_manifest_current bytes_eq lookup erase pure raise try check ◌>>=◌ ask act join
    manifest_json
moves = refl

abbrev pub entry : ManifestFile
entry = record {
  file_type = some (codes "rauc_bundle");
  filename = some (codes "b");
  size = 0;
  sha256 = some (hex_text (toy_sha256 (codes "x")));
  path = some (codes "p");
}

abbrev pub site_manifest : Manifest
site_manifest = record {
  manifest_version = none;
  created = none;
  releases =
      record {
        device_id = some (codes "default");
        release_name = none;
        release_version = none;
        created = none;
        files = [];
      }
      ∷ record {
        device_id = some (codes "d");
        release_name = none;
        release_version = none;
        created = none;
        files = entry ∷ [];
      }
      ∷ [];
}

pub loads :
    manifest_load device cjson (codes "i/manifest.json") (boot filled)
    ≡ (ok site_manifest, boot filled)
unfolding manifest_load bytes_eq lookup pure raise try check ◌>>=◌ ask hex_text
loads = refl

-- A configuration file that gives all that is required.
abbrev pub ini : Ini device
ini = record {
  ini_parse = λ p w o. (
    (
      record { section = codes "network"; name = codes "server_url"; value = codes "u" }
          ∷ record { section = codes "network"; name = codes "tls_ca_cert"; value = codes "t" }
          ∷ record { section = codes "network"; name = codes "tls_client_cert"; value = codes "t" }
          ∷ record { section = codes "network"; name = codes "tls_client_key"; value = codes "t" }
          ∷ record {
            section = codes "system";
            name = codes "inbox_manifest_dir";
            value = codes "i";
          }
          ∷ record {
            section = codes "system";
            name = codes "current_manifest_dir";
            value = codes "c";
          }
          ∷ record { section = codes "network"; name = codes "device_id"; value = codes "ignored" }
          ∷ record { section = codes "system"; name = codes "manifest_ca_cert"; value = codes "ca" }
          ∷ [],
      pos 0,
    ),
    o,
  );
  atoi = λ s. pos 0;
}

abbrev pub configured : Config
configured = record zeroed {
  server_url = some (codes "u");
  tls_ca_cert = some (codes "t");
  tls_client_cert = some (codes "t");
  tls_client_key = some (codes "t");
  inbox_manifest_dir = some (codes "i");
  current_manifest_dir = some (codes "c");
  manifest_ca_cert = some (codes "ca");
}

pub configures : config_load device ini (codes "f") (boot fresh) ≡ (ok configured, boot fresh)
unfolding config_load bytes_eq pure raise try check ◌>>=◌ ask
configures = refl

pub differs :
    files_equal device libcrypto (some (codes "ca")) (some (codes "i/signer.crt")) (boot filled)
    ≡ (ok files_neq, boot filled)
unfolding files_equal bytes_eq lookup pure raise try check ◌>>=◌ ask
differs = refl

-- The context in which the bundle of the site is applied.
abbrev pub payload_context : Context
payload_context = record (context_at config (codes "c") (codes "i")) {
  payload_path = some (codes "i/b");
  release = manifest_select_release (some site_manifest) (some (codes "d"));
}

abbrev pub applied : State device
applied = record {
  world =
      (codes "c/manifest.json", codes "m")
      ∷ (codes "i/signer.crt", codes "ca")
      ∷ (codes "i/manifest.json.sig", codes "cam")
      ∷ fresh;
  oracle = [];
  trace = installing (codes "i/b") ∷ rebooted ∷ [];
}

pub applies : apply_release device payload_context (boot filled) ≡ (ok tt, applied)
unfolding apply_release bytes_eq lookup erase pure raise try check ◌>>=◌ ask act event join
    manifest_json manifest_select_release
applies = refl

abbrev pub outdated : Files
outdated = (codes "c/manifest.json", codes "old") ∷ []

-- There is nothing to move, and the current manifest is lost.
pub loses :
    make_new_manifest_current device (context_at config (codes "c") (codes "i")) (boot outdated)
    ≡ (err minus_one, boot [])
unfolding make_new_manifest_current bytes_eq lookup erase pure raise try check ◌>>=◌ ask act join
    manifest_json
loses = refl

abbrev pub site_release : ManifestRelease
site_release = record {
  device_id = some (codes "d");
  release_name = none;
  release_version = none;
  created = none;
  files = entry ∷ [];
}
