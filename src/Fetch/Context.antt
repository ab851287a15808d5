-- ===== src/Fetch/Context.antt =====
-- `ota_ctx_t`, `ota_ctx_init` and `ota_inbox_cleanup` of src/ota_fetch.c. A context whose
-- initialisation failed is freed at once, so the four paths of a context are never NULL.
use ota_fetch.Base.{
  ◌-◌, Bytes, codes, bytes_eq, length, drop, leb, Option, none, some, Bool, ◌&&◌, List, [], ◌∷◌,
  if◌then◌else◌, Exec, pure, raise, ◌>>=◌, ◌>>◌, ℤ, minus_one,
}
use ota_fetch.Platform.{Platform, State, ask, act}
use ota_fetch.Config.{Config}
use ota_fetch.Manifest.{Manifest, ManifestRelease}
use ota_fetch.Fetch.Paths.{build_path}

pub record Context : Type 0 where
  pub config : Config
  pub current_manifest_path : Bytes
  pub inbox_manifest_path : Bytes
  pub inbox_sig_path : Bytes
  pub inbox_cert_path : Bytes
  pub inbox_manifest : Option Manifest
  pub payload_path : Option Bytes
  pub release : Option ManifestRelease

unfoldable pub manifest_json : Bytes
manifest_json = codes "manifest.json"

unfoldable pub manifest_json_sig : Bytes
manifest_json_sig = codes "manifest.json.sig"

unfoldable pub signer_crt : Bytes
signer_crt = codes "signer.crt"

-- `name_len >= 4 && strcmp(d_name + name_len - 4, ".tmp") == 0`
unfoldable pub is_tmp_name : Bytes → Bool
unfolding bytes_eq
is_tmp_name name = leb 4 (length name) && bytes_eq (drop (length name - 4) name) (codes ".tmp")

-- A directory that `ota_ctx_init` has found to be set.
abbrev pub text_of : Option Bytes → Bytes
text_of none = []
text_of (some s) = s

module _ (P : Platform) where
  abbrev pub context_of :
      Config → Option Bytes → Option Bytes → Option Bytes → Option Bytes → Exec (State P) ℤ Context
  context_of cfg (some current) (some inbox) (some sig) (some cert) = pure (record {
    config = cfg;
    current_manifest_path = current;
    inbox_manifest_path = inbox;
    inbox_sig_path = sig;
    inbox_cert_path = cert;
    inbox_manifest = none;
    payload_path = none;
    release = none;
  })
  context_of cfg _ _ _ _ = raise minus_one

  unfoldable pub ota_ctx_init : Config → Exec (State P) ℤ Context
  unfolding build_path manifest_json manifest_json_sig signer_crt
  ota_ctx_init cfg = do
    current ← build_path P cfg.current_manifest_dir (some manifest_json)
    inbox ← build_path P cfg.inbox_manifest_dir (some manifest_json)
    sig ← build_path P cfg.inbox_manifest_dir (some manifest_json_sig)
    cert ← build_path P cfg.inbox_manifest_dir (some signer_crt)
    context_of cfg current inbox sig cert

  module _ {E : Type 0} where
    -- A failed `unlink` is only logged.
    unfoldable pub remove : Bytes → Exec (State P) E (Unit {0})
    remove path = do act P (P.unlink path); pure tt

    abbrev pub remove_built : Option Bytes → Exec (State P) E (Unit {0})
    remove_built none = pure tt
    remove_built (some tmp_path) = remove tmp_path

    -- The loop over the entries of the inbox.
    unfoldable pub remove_tmp : Option Bytes → List Bytes → Exec (State P) E (Unit {0})
    unfolding remove is_tmp_name build_path
    remove_tmp dir [] = pure tt
    remove_tmp dir (name ∷ names) = do
      if is_tmp_name name
          then (do tmp_path ← build_path P dir (some name); remove_built tmp_path)
          else pure tt
      remove_tmp dir names

    abbrev pub remove_listed : Option Bytes → Option (List Bytes) → Exec (State P) E (Unit {0})
    remove_listed dir none = pure tt
    remove_listed dir (some names) = remove_tmp dir names

    unfoldable pub ota_inbox_cleanup : Context → Exec (State P) E (Unit {0})
    unfolding remove_tmp
    ota_inbox_cleanup ctx = do
      remove ctx.inbox_manifest_path
      remove ctx.inbox_sig_path
      remove ctx.inbox_cert_path
      names ← ask P (P.readdir (text_of ctx.config.inbox_manifest_dir))
      remove_listed ctx.config.inbox_manifest_dir names
