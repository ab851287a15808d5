-- ===== src/Verify/Reads.antt =====
-- Verification changes nothing but the oracle.
use ota_fetch.Base.{ℕ, zero, suc, Bytes, Option, none, some, [], ◌∷◌, Exec, Result, ok, err}
use ota_fetch.Platform.{
  Platform, State, Crypto, KeyType, ed25519, ec, rsa, other_key, accepted, rejected, broken,
  Verdict,
}
use ota_fetch.Platform.Steps.{Steps, only_reads, read_rules}
use ota_fetch.Verify.Defs.{VerifyError, ReadFileError, read_file_all, read_signature_file}
use ota_fetch.Verify.Pipeline.{
  conclude, or_report, load_signer_cert, load_ca_store, verify_signer_cert, load_public_key,
  verify_chunk, verify_loop, verify_ed25519_signature, verify_rsa_ecdsa_signature, verify_by_type,
  verify_paths, verify_signature_with_cert,
}

module _ (P : Platform) where
  read_file_all-only_reads : (path : Bytes) → Steps (only_reads P) (read_file_all P path)
  unfolding read_file_all
  read_file_all-only_reads path = search read_rules depth 30

  pub read_signature_file-only_reads :
      (path : Bytes) → Steps (only_reads P) (read_signature_file P path)
  unfolding read_signature_file
  read_signature_file-only_reads path = search read_rules depth 30

module _ (P : Platform) (C : Crypto P) where
  conclude-only_reads : (v : Verdict) → Steps (only_reads P) (conclude P C v)
  conclude-only_reads accepted = search read_rules
  conclude-only_reads rejected = search read_rules
  conclude-only_reads broken = search read_rules

  or_report-only_reads : (r : Result ReadFileError Bytes) → Steps (only_reads P) (or_report P C r)
  or_report-only_reads (ok contents) = search read_rules
  or_report-only_reads (err e) = search read_rules

  pub load_signer_cert-only_reads :
      (path : Bytes) → Steps (only_reads P) (load_signer_cert P C path)
  unfolding load_signer_cert
  load_signer_cert-only_reads path = search read_rules depth 20

  pub load_ca_store-only_reads : (path : Bytes) → Steps (only_reads P) (load_ca_store P C path)
  unfolding load_ca_store
  load_ca_store-only_reads path = search read_rules depth 20

  pub verify_signer_cert-only_reads :
      (store : C.Store) (cert : C.Cert) → Steps (only_reads P) (verify_signer_cert P C store cert)
  unfolding verify_signer_cert
  verify_signer_cert-only_reads store cert = search read_rules depth 20

  pub load_public_key-only_reads : (cert : C.Cert) → Steps (only_reads P) (load_public_key P C cert)
  unfolding load_public_key
  load_public_key-only_reads cert = search read_rules depth 20

  verify_chunk-only_reads :
      (rest : P.Stream → C.Ctx → Exec (State P) VerifyError C.Ctx)
      → ((bio : P.Stream) (ctx : C.Ctx) → Steps (only_reads P) (rest bio ctx))
      → (ctx : C.Ctx) (q : Option Bytes × P.Stream)
      → Steps (only_reads P) (verify_chunk P C rest ctx q)
  verify_chunk-only_reads rest ih ctx (none, bio) = search read_rules
  verify_chunk-only_reads rest ih ctx (some [], bio) = search read_rules
  verify_chunk-only_reads rest ih ctx (some (c ∷ buf), bio) = search (read_rules, ih) depth 10

  verify_loop-only_reads :
      (fuel : ℕ) (bio : P.Stream) (ctx : C.Ctx)
      → Steps (only_reads P) (verify_loop P C fuel bio ctx)
  unfolding verify_loop
  verify_loop-only_reads zero bio ctx = search read_rules
  verify_loop-only_reads (suc fuel) bio ctx =
      verify_chunk-only_reads (verify_loop P C fuel) (verify_loop-only_reads fuel) ctx
        (C.bio_read 4096 bio)

  verify_ed25519_signature-only_reads :
      (path : Bytes) (key : C.Key) (sig : Bytes)
      → Steps (only_reads P) (verify_ed25519_signature P C path key sig)
  unfolding verify_ed25519_signature
  verify_ed25519_signature-only_reads path key sig =
      search (read_rules, read_file_all-only_reads, or_report-only_reads, conclude-only_reads) depth
        30

  verify_rsa_ecdsa_signature-only_reads :
      (path : Bytes) (key : C.Key) (sig : Bytes)
      → Steps (only_reads P) (verify_rsa_ecdsa_signature P C path key sig)
  unfolding verify_rsa_ecdsa_signature
  verify_rsa_ecdsa_signature-only_reads path key sig =
      search (read_rules, verify_loop-only_reads, conclude-only_reads) depth 30

  verify_by_type-only_reads :
      (ty : KeyType) (path : Bytes) (key : C.Key) (sig : Bytes)
      → Steps (only_reads P) (verify_by_type P C ty path key sig)
  unfolding verify_by_type
  verify_by_type-only_reads ed25519 path key sig = verify_ed25519_signature-only_reads path key sig
  verify_by_type-only_reads ec path key sig = verify_rsa_ecdsa_signature-only_reads path key sig
  verify_by_type-only_reads rsa path key sig = verify_rsa_ecdsa_signature-only_reads path key sig
  verify_by_type-only_reads other_key path key sig = search read_rules

  pub verify_signature_with_cert-only_reads :
      (data_path sig_path cert_path ca_path : Option Bytes)
      → Steps (only_reads P) (verify_signature_with_cert P C data_path sig_path cert_path ca_path)
  unfolding verify_signature_with_cert verify_paths
  verify_signature_with_cert-only_reads (some a) (some b) (some c) (some d) =
      search
        (
          read_rules, load_signer_cert-only_reads, load_ca_store-only_reads,
          verify_signer_cert-only_reads, load_public_key-only_reads, read_signature_file-only_reads,
          verify_by_type-only_reads,
        )
        depth 30
  verify_signature_with_cert-only_reads _ _ _ _ = search read_rules
