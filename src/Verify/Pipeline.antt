-- ===== src/Verify/Pipeline.antt =====
-- `verify_signature_with_cert` of src/verify_libcrypto.c and the functions that it calls.
use ota_fetch.Base.{
  ℕ, zero, suc, ◌+◌, Bytes, length, Option, none, some, true, false, [], ◌∷◌, ◌==◌, Exec, Result,
  ok, err, pure, raise, check, try, ◌>>=◌, ◌>>◌,
}
use ota_fetch.Platform.{
  Platform, State, ask, Crypto, KeyType, ed25519, ec, rsa, other_key, Verdict, accepted, rejected,
  broken, or_raise,
}
use ota_fetch.Verify.Defs.{
  VerifyError, err_open_file, err_load_cert, err_load_ca, err_cert_verify, err_load_pubkey, err_mem,
  err_sig_verify, err_hash, err_read_data, err_unknown, out_of_fuel, ReadFileError, read_file_open,
  read_file_read, read_file_mem, read_file_too_large, sig_ed25519_len, read_file_all,
  read_signature_file,
}

module _ (P : Platform) (C : Crypto P) where
  abbrev pub Verifying : Type 0 → Type 0
  Verifying A = Exec (State P) VerifyError A

  unfoldable pub load_signer_cert : Bytes → Verifying C.Cert
  load_signer_cert cert_path = do
    opened ← ask P (P.fopen_rb cert_path)
    fp ← or_raise err_open_file opened
    cert ← ask P (λ w. C.pem_read_x509 fp)
    or_raise err_load_cert cert

  unfoldable pub load_ca_store : Bytes → Verifying C.Store
  load_ca_store ca_path = do
    created ← ask P (λ w. C.x509_store_new)
    check created err_mem
    found ← ask P (P.stat ca_path)
    directory ← or_raise err_load_ca found
    loaded ← ask P (C.load_locations directory ca_path)
    or_raise err_load_ca loaded

  unfoldable pub verify_signer_cert : C.Store → C.Cert → Verifying (Unit {0})
  verify_signer_cert store cert = do
    ctx ← ask P (λ w. C.store_ctx_new)
    check ctx err_mem
    ready ← ask P (λ w. C.store_ctx_init store cert)
    check ready err_cert_verify
    verified ← ask P (λ w. C.x509_verify_cert store cert)
    check verified err_cert_verify

  unfoldable pub load_public_key : C.Cert → Verifying C.Key
  load_public_key cert = do
    pubkey ← ask P (λ w. C.x509_get_pubkey cert)
    or_raise err_load_pubkey pubkey

  abbrev pub conclude : Verdict → Verifying (Unit {0})
  conclude accepted = pure tt
  conclude rejected = raise err_sig_verify
  conclude broken = raise err_sig_verify

  -- How `read_file_all` is reported.
  abbrev pub read_data_error : ReadFileError → VerifyError
  read_data_error read_file_open = err_open_file
  read_data_error read_file_mem = err_mem
  read_data_error read_file_too_large = err_read_data
  read_data_error read_file_read = err_read_data

  abbrev pub or_report : Result ReadFileError Bytes → Verifying Bytes
  or_report (ok contents) = pure contents
  or_report (err e) = raise (read_data_error e)

  unfoldable pub verify_ed25519_signature : Bytes → C.Key → Bytes → Verifying (Unit {0})
  verify_ed25519_signature data_path pubkey sig = do
    check (length sig == sig_ed25519_len) err_sig_verify
    outcome ← try (read_file_all P data_path)
    contents ← or_report outcome
    mdctx ← ask P (λ w. C.md_ctx_new)
    check mdctx err_mem
    started ← ask P (λ w. C.digest_verify_init false pubkey)
    ctx ← or_raise err_sig_verify started
    verdict ← ask P (λ w. C.digest_verify ctx sig contents)
    conclude verdict

  -- while ((readlen = BIO_read(data_bio, buf, sizeof(buf))) > 0) EVP_DigestVerifyUpdate(...)
  abbrev pub verify_chunk :
      (P.Stream → C.Ctx → Verifying C.Ctx) → C.Ctx → Option Bytes × P.Stream → Verifying C.Ctx
  verify_chunk rest ctx (none, bio) = raise err_hash
  verify_chunk rest ctx (some [], bio) = pure ctx
  verify_chunk rest ctx (some (c ∷ buf), bio) = do
    updated ← ask P (λ w. C.digest_verify_update (c ∷ buf) ctx)
    ctx' ← or_raise err_hash updated
    rest bio ctx'

  unfoldable pub verify_loop : ℕ → P.Stream → C.Ctx → Verifying C.Ctx
  verify_loop zero bio ctx = raise out_of_fuel
  verify_loop (suc fuel) bio ctx = verify_chunk (verify_loop fuel) ctx (C.bio_read 4096 bio)

  unfoldable pub verify_rsa_ecdsa_signature : Bytes → C.Key → Bytes → Verifying (Unit {0})
  unfolding verify_loop
  verify_rsa_ecdsa_signature data_path pubkey sig = do
    opened ← ask P (C.bio_new_file data_path)
    bio ← or_raise err_open_file opened
    mdctx ← ask P (λ w. C.md_ctx_new)
    check mdctx err_mem
    started ← ask P (λ w. C.digest_verify_init true pubkey)
    ctx ← or_raise err_sig_verify started
    ctx' ← verify_loop (length (P.unread bio) + 1) bio ctx
    verdict ← ask P (λ w. C.digest_verify_final ctx' sig)
    conclude verdict

  -- The dispatch on the key type.
  unfoldable pub verify_by_type : KeyType → Bytes → C.Key → Bytes → Verifying (Unit {0})
  unfolding verify_ed25519_signature verify_rsa_ecdsa_signature
  verify_by_type ed25519 data_path pubkey sig = verify_ed25519_signature data_path pubkey sig
  verify_by_type ec data_path pubkey sig = verify_rsa_ecdsa_signature data_path pubkey sig
  verify_by_type rsa data_path pubkey sig = verify_rsa_ecdsa_signature data_path pubkey sig
  verify_by_type other_key data_path pubkey sig = raise err_sig_verify

  unfoldable pub verify_paths : Bytes → Bytes → Bytes → Bytes → Verifying (Unit {0})
  unfolding load_signer_cert load_ca_store verify_signer_cert load_public_key verify_by_type
  verify_paths data_path sig_path cert_path ca_path = do
    signer_cert ← load_signer_cert cert_path
    store ← load_ca_store ca_path
    verify_signer_cert store signer_cert
    pubkey ← load_public_key signer_cert
    sig ← read_signature_file P sig_path
    verify_by_type (C.base_id pubkey) data_path pubkey sig

  -- `none` is a NULL path.
  unfoldable pub verify_signature_with_cert :
      Option Bytes → Option Bytes → Option Bytes → Option Bytes → Verifying (Unit {0})
  unfolding verify_paths
  verify_signature_with_cert (some data_path) (some sig_path) (some cert_path) (some ca_path) =
      verify_paths data_path sig_path cert_path ca_path
  verify_signature_with_cert _ _ _ _ = raise err_unknown
