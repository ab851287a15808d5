-- ===== src/Config/Complete.antt =====
-- What a configuration has that `config_load` accepts.
use ota_fetch.Base.{◌≡◌, ◌≢◌, refl, Bytes, Option, none, some, [], ◌∷◌, ok, raise}
use ota_fetch.Platform.{Platform, State}
use ota_fetch.Platform.Inversion.{pure-ok, bind-ok}
use ota_fetch.Config.Defs.{Config}
use ota_fetch.Config.Load.{Ini, validate_required_string, config_load}

-- A text that is there and not empty.
abbrev pub IsGiven : Option Bytes → Type 0
IsGiven o = (s : Bytes) × (o ≡ some s) × (s ≢ [])

-- Every value that an update check needs is given.
pub record IsComplete (cfg : Config) : Type 0 where
  pub server_url : IsGiven cfg.server_url
  pub tls_ca_cert : IsGiven cfg.tls_ca_cert
  pub tls_client_cert : IsGiven cfg.tls_client_cert
  pub tls_client_key : IsGiven cfg.tls_client_key
  pub inbox_manifest_dir : IsGiven cfg.inbox_manifest_dir
  pub current_manifest_dir : IsGiven cfg.current_manifest_dir
  pub manifest_ca_cert : IsGiven cfg.manifest_ca_cert

module _ (P : Platform) (I : Ini P) where
  validate_required_string-IsGiven :
      (o : Option Bytes) (s : State P) {u : Unit {0}} {t : State P}
      → validate_required_string P I o s ≡ (ok u, t)
      → IsGiven o
  unfolding validate_required_string raise
  validate_required_string-IsGiven none s h = absurd (cc)
  validate_required_string-IsGiven (some []) s h = absurd (cc)
  validate_required_string-IsGiven (some (c ∷ v)) s h = (c ∷ v, refl, λ e. cc)

  -- A configuration that `config_load` accepts has a server, the three TLS files, both manifest
  -- directories and the manifest authorities, none of them empty.
  pub config_load-IsComplete :
      (filename : Bytes) (s : State P) {cfg : Config} {t : State P}
      → config_load P I filename s ≡ (ok cfg, t)
      → IsComplete cfg
  unfolding config_load
  config_load-IsComplete filename s h = bind-ok _ _ _ h λ _ _ _ h₁. bind-ok _ _ _ h₁ λ c _ _ h₂.
      bind-ok _ _ _ h₂ λ _ _ _ h₃. bind-ok _ _ _ h₃ λ _ _ e₁ h₄. bind-ok _ _ _ h₄ λ _ _ e₂ h₅.
        bind-ok _ _ _ h₅ λ _ _ e₃ h₆. bind-ok _ _ _ h₆ λ _ _ e₄ h₇. bind-ok _ _ _ h₇ λ _ _ e₅ h₈.
          bind-ok _ _ _ h₈ λ _ _ e₆ h₉. bind-ok _ _ _ h₉ λ _ _ e₇ h₁₀. pure-ok _ _ h₁₀ λ same _.
            rw (← same) (record {
              server_url = validate_required_string-IsGiven c.server_url _ e₁;
              tls_ca_cert = validate_required_string-IsGiven c.tls_ca_cert _ e₂;
              tls_client_cert = validate_required_string-IsGiven c.tls_client_cert _ e₃;
              tls_client_key = validate_required_string-IsGiven c.tls_client_key _ e₄;
              inbox_manifest_dir = validate_required_string-IsGiven c.inbox_manifest_dir _ e₅;
              current_manifest_dir = validate_required_string-IsGiven c.current_manifest_dir _ e₆;
              manifest_ca_cert = validate_required_string-IsGiven c.manifest_ca_cert _ e₇;
            })
