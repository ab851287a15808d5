-- ===== src/Enroll/Run.antt =====
-- `ota_fetch_enroll` of src/enroll.c. The fuel bounds the calls of `write` for each file.
use ota_fetch.Base.{
  ℕ, Bytes, Option, none, some, Bool, true, false, pure, raise, check, not, ◌>>=◌, ◌>>◌,
}
use ota_fetch.Platform.{Platform, act, Unlink, removed, missing, stuck, or_raise, Cjson}
use ota_fetch.Platform.Posix.{Posix}
use ota_fetch.Platform.Keygen.{Keygen}
use ota_fetch.Platform.Http.{Http, CjsonPrint}
use ota_fetch.Config.{Config}
use ota_fetch.Manifest.Load.{c_string}
use ota_fetch.Enroll.Paths.{failed, Enrolling, path_exists}
use ota_fetch.Enroll.Write.{write_file_atomic}
use ota_fetch.Enroll.Token.{read_token_file}
use ota_fetch.Enroll.Keys.{KeyAndCsr, generate_key_and_csr}
use ota_fetch.Enroll.Request.{
  if_given, derive_enroll_url, build_enroll_request_json, post_enroll_request,
  parse_enroll_response,
}

module _ (P : Platform) where
  abbrev pub refuse_if : Bool → Enrolling P (Unit {0})
  refuse_if there = check (not there) failed

  -- `!force && (file_exists(key) || file_exists(cert))`
  unfoldable pub check_identity : Bool → Bytes → Bytes → Enrolling P (Unit {0})
  unfolding path_exists
  check_identity true key cert = pure tt
  check_identity false key cert = do
    has_key ← path_exists P key
    refuse_if has_key
    has_cert ← path_exists P cert
    refuse_if has_cert

  abbrev pub url_or_derived : Option Bytes → Option Bytes → Enrolling P (Option Bytes)
  url_or_derived (some url) server_url = pure (some url)
  url_or_derived none server_url = derive_enroll_url P server_url

  abbrev pub token_rc : Unlink → Enrolling P (Unit {0})
  token_rc removed = pure tt
  token_rc missing = pure tt
  token_rc stuck = raise failed

  module _ (X : Posix P) (K : Keygen P) (N : Http P) (J : Cjson P) (W : CjsonPrint P J) where
    -- What is known before the first write: the new key, and the certificate that was issued for it.
    unfoldable pub obtain : Config → Bytes → Enrolling P (KeyAndCsr × Bytes)
    unfolding read_token_file derive_enroll_url generate_key_and_csr build_enroll_request_json
        post_enroll_request parse_enroll_response c_string
    obtain cfg token_file = do
      token ← read_token_file P X token_file
      url ← url_or_derived (if_given cfg.enroll_url) cfg.server_url
      enroll_url ← or_raise failed url
      keys ← generate_key_and_csr P K cfg.device_id
      request_json ← build_enroll_request_json P J W (c_string keys.csr_pem) cfg.device_id
      response_json ← post_enroll_request P N enroll_url cfg token request_json
      cert_pem ← parse_enroll_response P J response_json
      pure (keys, cert_pem)

    -- The two files, the key first, and then the token.
    unfoldable pub install_identity :
        ℕ → Bytes → Bytes → Bytes → KeyAndCsr × Bytes → Enrolling P (Unit {0})
    unfolding write_file_atomic c_string
    install_identity fuel key cert token_file issued = do
      write_file_atomic P X fuel key (c_string issued.0.key_pem) 0o600
      write_file_atomic P X fuel cert issued.1 0o644
      gone ← act P (P.unlink token_file)
      token_rc gone

    abbrev pub enroll_at :
        ℕ → Config → Bytes → Bool → Option Bytes → Option Bytes → Enrolling P (Unit {0})
    enroll_at fuel cfg token_file force (some key) (some cert) = do
      check_identity force key cert
      issued ← obtain cfg token_file
      install_identity fuel key cert token_file issued
    enroll_at fuel cfg token_file force _ _ = raise failed

    unfoldable pub ota_fetch_enroll : ℕ → Config → Option Bytes → Bool → Enrolling P (Unit {0})
    unfolding check_identity obtain install_identity
    ota_fetch_enroll fuel cfg none force = raise failed
    ota_fetch_enroll fuel cfg (some token_file) force =
        enroll_at fuel cfg token_file force cfg.tls_client_key cfg.tls_client_cert
