-- ===== src/Verify/Authentic.antt =====
-- `verify_signature_with_cert` accepts only what is authentic.
use ota_fetch.Base.{◌≡◌, ◌∙◌, Bytes, length, some, ok, true, raise}
use ota_fetch.Platform.{
  Platform, IsLawful, State, Crypto, IsSound, KeyType, ed25519, ec, rsa, other_key,
}
use ota_fetch.Platform.Steps.{Steps-after, only_reads}
use ota_fetch.Platform.Inversion.{
  bind-ok, or_raise_last-ok, check_last-ok, ask-ok, ask-check-ok, ask-or_raise-ok,
}
use ota_fetch.Verify.Pipeline.{
  load_signer_cert, load_ca_store, verify_signer_cert, load_public_key, verify_by_type,
  verify_paths, verify_signature_with_cert,
}
use ota_fetch.Verify.Reads.{
  load_signer_cert-only_reads, load_ca_store-only_reads, verify_signer_cert-only_reads,
  load_public_key-only_reads, read_signature_file-only_reads,
}
use ota_fetch.Verify.Soundness.{
  IsAuthentic, WithinLimits, SignedFile, read_signature_file-contents,
  verify_rsa_ecdsa_signature-Signed, verify_ed25519_signature-Signed,
}

module _ (P : Platform) (L : IsLawful P) (C : Crypto P) (D : IsSound C) where
  verify_by_type-Signed :
      (ty : KeyType) (path : Bytes) (key : C.Key) (sig : Bytes) (s : State P) {u : Unit {0}}
      {s' : State P}
      → verify_by_type P C ty path key sig s ≡ (ok u, s')
      → SignedFile P L C D s.world path key sig (WithinLimits ty (length sig))
  unfolding verify_by_type raise
  verify_by_type-Signed ed25519 path key sig s h =
      verify_ed25519_signature-Signed P L C D path key sig s h
  verify_by_type-Signed ec path key sig s h =
      verify_rsa_ecdsa_signature-Signed P L C D path key sig s h
  verify_by_type-Signed rsa path key sig s h =
      verify_rsa_ecdsa_signature-Signed P L C D path key sig s h
  verify_by_type-Signed other_key path key sig s h = absurd (cc)

  load_signer_cert-Encodes :
      (path : Bytes) (s : State P) {cert : C.Cert} {s' : State P}
      → load_signer_cert P C path s ≡ (ok cert, s')
      → (pem : Bytes) × (P.file s.world path ≡ some pem) × C.Encodes pem cert
  unfolding load_signer_cert
  load_signer_cert-Encodes path s h = ask-or_raise-ok P _ _ _ _ h λ fp opened h₁.
      ask-ok P _ _ _ h₁ λ h₂. or_raise_last-ok _ _ _ h₂ λ parsed _. (
        P.unread fp,
        L.fopen_rb_unread path s.world s.oracle fp opened,
        D.pem_read_x509_Encodes fp _ _ parsed,
      )

  -- A store that was loaded from a path trusts only what the authorities there vouch for.
  abbrev TrustsOnly : Bytes → C.Store → Type 0
  TrustsOnly ca_path store =
      (cert : C.Cert) (o : P.Oracle)
      → (C.x509_verify_cert store cert o).0 ≡ true
      → C.Trusted ca_path cert

  load_ca_store-TrustsOnly :
      (path : Bytes) (s : State P) {store : C.Store} {s' : State P}
      → load_ca_store P C path s ≡ (ok store, s')
      → TrustsOnly path store
  unfolding load_ca_store
  load_ca_store-TrustsOnly path s {store} h = ask-check-ok P _ _ _ _ h λ _ h₁.
      ask-or_raise-ok P _ _ _ _ h₁ λ directory _ h₂. ask-ok P _ _ _ h₂ λ h₃.
        or_raise_last-ok _ _ _ h₃ λ loaded _ cert o verified.
          D.x509_verify_cert_Trusted directory path _ _ store cert o loaded verified

  verify_signer_cert-Trusted :
      (path : Bytes) (store : C.Store) (cert : C.Cert) (s : State P) {u : Unit {0}} {s' : State P}
      → TrustsOnly path store
      → verify_signer_cert P C store cert s ≡ (ok u, s')
      → C.Trusted path cert
  unfolding verify_signer_cert
  verify_signer_cert-Trusted path store cert s trusts h = ask-check-ok P _ _ _ _ h λ _ h₁.
      ask-check-ok P _ _ _ _ h₁
        λ _ h₂. ask-ok P _ _ _ h₂ λ h₃. check_last-ok _ _ _ h₃ λ verified _. trusts cert _ verified

  load_public_key-KeyOf :
      (cert : C.Cert) (s : State P) {key : C.Key} {s' : State P}
      → load_public_key P C cert s ≡ (ok key, s')
      → C.KeyOf cert key
  unfolding load_public_key
  load_public_key-KeyOf cert s h =
      ask-ok P _ _ _ h
        λ h₁. or_raise_last-ok _ _ _ h₁ λ found _. D.x509_get_pubkey_KeyOf cert _ _ found

  verify_paths-IsAuthentic :
      (data_path sig_path cert_path ca_path : Bytes) (s : State P) {u : Unit {0}} {s' : State P}
      → verify_paths P C data_path sig_path cert_path ca_path s ≡ (ok u, s')
      → IsAuthentic P C s.world data_path sig_path cert_path ca_path
  unfolding verify_paths
  verify_paths-IsAuthentic data_path sig_path cert_path ca_path s h =
      bind-ok _ _ _ h λ cert s₁ e₁ h₁. bind-ok _ _ _ h₁ λ store s₂ e₂ h₂.
        bind-ok _ _ _ h₂ λ u₃ s₃ e₃ h₃. bind-ok _ _ _ h₃ λ key s₄ e₄ h₄.
          bind-ok _ _ _ h₄ λ sig s₅ e₅ h₅.
            let r = only_reads P in
            let w₁ = (Steps-after r _ (load_signer_cert-only_reads P C cert_path) e₁).0 in
            let w₂ = (Steps-after r _ (load_ca_store-only_reads P C ca_path) e₂).0 ∙ w₁ in
            let w₃ = (Steps-after r _ (verify_signer_cert-only_reads P C store cert) e₃).0 ∙ w₂ in
            let w₄ = (Steps-after r _ (load_public_key-only_reads P C cert) e₄).0 ∙ w₃ in
            let w₅ = (Steps-after r _ (read_signature_file-only_reads P sig_path) e₅).0 ∙ w₄ in
            let (pem, is_pem, encodes) = load_signer_cert-Encodes cert_path s e₁ in
            let trusted =
              verify_signer_cert-Trusted ca_path store cert s₂
                (load_ca_store-TrustsOnly ca_path s₁ e₂) e₃ in
            let (is_sig, sig_pos, sig_le) = read_signature_file-contents P L sig_path s₄ e₅ in
            let (contents, is_contents, signed, within) =
              verify_by_type-Signed (C.base_id key) data_path key sig s₅ h₅ in
            record {
              contents = contents;
              sig = sig;
              pem = pem;
              cert = cert;
              key = key;
              is_contents = rw w₅ at is_contents;
              is_sig = rw w₄ at is_sig;
              is_pem = is_pem;
              encodes = encodes;
              trusted = trusted;
              key_of = load_public_key-KeyOf cert s₃ e₄;
              signed = signed;
              sig_pos = sig_pos;
              sig_le = sig_le;
              within = within;
            }

  -- If `verify_signature_with_cert` accepts, the file at `data_path` carries a valid signature, read
  -- from the file at `sig_path`, under the key of the certificate at `cert_path`, which the authorities
  -- at `ca_path` vouch for, and the lengths are within the limits of the key type.
  pub verify_signature_with_cert-IsAuthentic :
      (data_path sig_path cert_path ca_path : Bytes) (s : State P) {u : Unit {0}} {s' : State P}
      → verify_signature_with_cert P C
          (some data_path)
          (some sig_path)
          (some cert_path)
          (some ca_path)
          s
        ≡ (ok u, s')
      → IsAuthentic P C s.world data_path sig_path cert_path ca_path
  unfolding verify_signature_with_cert
  verify_signature_with_cert-IsAuthentic = verify_paths-IsAuthentic
