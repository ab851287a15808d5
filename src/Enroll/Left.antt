-- ===== src/Enroll/Left.antt =====
-- What `ota_fetch_enroll` of src/enroll.c leaves behind when it fails.
use ota_fetch.Base.{
  ℕ, ◌≡◌, refl, ap, ◌∙◌, Bytes, ◌⊎◌, inl, inr, some, Bool, err, pure, raise, ◌>>=◌,
}
use ota_fetch.Platform.{Platform, IsLawful, State, act, Unlink, removed, missing, stuck, Cjson}
use ota_fetch.Platform.Steps.{Steps-after, keeps_file, only_reads}
use ota_fetch.Platform.Inversion.{acted, bind-cases}
use ota_fetch.Platform.Posix.{Posix, IsPosix}
use ota_fetch.Platform.Keygen.{Keygen}
use ota_fetch.Platform.Http.{Http, CjsonPrint}
use ota_fetch.Config.{Config}
use ota_fetch.Manifest.Load.{c_string}
use ota_fetch.Enroll.Paths.{EnrollError}
use ota_fetch.Enroll.Write.{write_file_atomic}
use ota_fetch.Enroll.Keys.{KeyAndCsr}
use ota_fetch.Enroll.Run.{token_rc, install_identity, ota_fetch_enroll}
use ota_fetch.Enroll.Atomic.{write_file_atomic-IsWritten}
use ota_fetch.Enroll.Settled.{OldOrNew, settles, write_file_atomic-settles}
use ota_fetch.Enroll.Kept.{write_file_atomic-keeps}
use ota_fetch.Enroll.Reads.{obtain-only_reads, check_identity-only_reads}
use ota_fetch.Enroll.Enrolled.{AreApart, Issued, obtain-Issued}

module _ (P : Platform) where
  -- Both files are the old ones; or the key is a new one; or both are new.
  pub data Replaced (key cert : Bytes) (new_key new_cert : Bytes) (s t : State P) : Type 0 where
    neither :
        P.file t.world key ≡ P.file s.world key
        → P.file t.world cert ≡ P.file s.world cert
        → Replaced key cert new_key new_cert s t
    key_only :
        P.file t.world key ≡ some new_key
        → P.file t.world cert ≡ P.file s.world cert
        → Replaced key cert new_key new_cert s t
    both :
        P.file t.world key ≡ some new_key
        → P.file t.world cert ≡ some new_cert
        → Replaced key cert new_key new_cert s t

module _ (P : Platform) (L : IsLawful P) (X : Posix P) (D : IsPosix X) where
  -- A failing `unlink` leaves every file.
  token_rc-err :
      (token_file q : Bytes) (s : State P) {e : EnrollError} {t : State P}
      → (act P (P.unlink token_file) >>= token_rc P) s ≡ (err e, t)
      → P.file t.world q ≡ P.file s.world q
  unfolding pure raise act ◌>>=◌
  token_rc-err token_file q s {e} {t} h = go _ refl h
    where
      go :
          (r : Unlink)
          → (P.unlink token_file s.world s.oracle).0 ≡ r
          → token_rc P r (acted P (P.unlink token_file) s) ≡ (err e, t)
          → P.file t.world q ≡ P.file s.world q
      go removed q₁ k = absurd (cc)
      go missing q₁ k = absurd (cc)
      go stuck q₁ k =
          let same : acted P (P.unlink token_file) s ≡ t = cc in
          rw (← same) (L.unlink_stuck _ _ _ q q₁)

  module _ (fuel : ℕ) (key cert token_file : Bytes) (apart : AreApart P key cert token_file) where
    -- The certificate and the token, once the key is in place.
    cert-left :
        (contents new_key : Bytes) (s s₁ : State P) {e : EnrollError} {t : State P}
        → P.file s₁.world key ≡ some new_key
        → P.file s₁.world cert ≡ P.file s.world cert
        → (write_file_atomic P X fuel cert contents 0o644 >>= λ _.
              act P (P.unlink token_file) >>= token_rc P)
            s₁
          ≡ (err e, t)
        → Replaced P key cert new_key contents s t
          × (P.file t.world token_file ≡ P.file s₁.world token_file)
    cert-left contents new_key s s₁ {e} {t} is_key old_cert h =
        let key_kept =
          write_file_atomic-keeps P L X D key cert apart.key_cert apart.key_cert_tmp fuel contents
            0o644 in
        let token_kept =
          write_file_atomic-keeps P L X D token_file cert apart.token_cert apart.token_cert_tmp fuel
            contents 0o644 in
        bind-cases _ _ _ h
          (λ _ s₂ e₂ h₂. (
            both
                (token_rc-err token_file key s₂ h₂
                  ∙ Steps-after (keeps_file P key) _ key_kept e₂
                  ∙ is_key)
                (token_rc-err token_file cert s₂ h₂
                  ∙ (write_file_atomic-IsWritten P L X D _ _ _ _ _ e₂).is_contents),
            token_rc-err token_file token_file s₂ h₂
                ∙ Steps-after (keeps_file P token_file) _ token_kept e₂,
          ))
          (λ _ e₂ _.
            let settled : OldOrNew P cert contents s₁ t =
              Steps-after (settles P cert contents) _
                (write_file_atomic-settles P L X D cert apart.cert_tmp fuel contents 0o644) e₂ in
            (
              elim settled [
                | inl old ↦
                    key_only (Steps-after (keeps_file P key) _ key_kept e₂ ∙ is_key)
                      (old ∙ old_cert)
                | inr new ↦ both (Steps-after (keeps_file P key) _ key_kept e₂ ∙ is_key) new
              ],
              Steps-after (keeps_file P token_file) _ token_kept e₂,
            ))

    install_identity-left :
        (K : Keygen P) (N : Http P) (J : Cjson P) (W : CjsonPrint P J) (issued : KeyAndCsr × Bytes)
        (s s₁ : State P) {e : EnrollError} {t : State P}
        → s₁.world ≡ s.world
        → install_identity P X K N J W fuel key cert token_file issued s₁ ≡ (err e, t)
        → Replaced P key cert (c_string issued.0.key_pem) issued.1 s t
          × (P.file t.world token_file ≡ P.file s.world token_file)
    unfolding install_identity
    install_identity-left K N J W issued s s₁ {e} {t} same h =
        let contents = c_string issued.0.key_pem in
        let cert_kept =
          write_file_atomic-keeps P L X D cert key apart.cert_key apart.cert_key_tmp fuel contents
            0o600 in
        let token_kept =
          write_file_atomic-keeps P L X D token_file key apart.token_key apart.token_key_tmp fuel
            contents 0o600 in
        let file_same : (q : Bytes) → P.file s₁.world q ≡ P.file s.world q =
          λ q. ap (λ w. P.file w q) same in
        bind-cases _ _ _ h
          (λ _ s₂ e₂ h₂.
            let (outcome, token) =
              cert-left issued.1 contents s s₂
                (write_file_atomic-IsWritten P L X D _ _ _ _ _ e₂).is_contents
                (Steps-after (keeps_file P cert) _ cert_kept e₂ ∙ file_same cert) h₂ in
            (
              outcome,
              token ∙ Steps-after (keeps_file P token_file) _ token_kept e₂ ∙ file_same token_file,
            ))
          (λ _ e₂ _.
            let old_cert = Steps-after (keeps_file P cert) _ cert_kept e₂ ∙ file_same cert in
            let settled : OldOrNew P key contents s₁ t =
              Steps-after (settles P key contents) _
                (write_file_atomic-settles P L X D key apart.key_tmp fuel contents 0o600) e₂ in
            (
              elim settled [
                | inl old ↦ neither (old ∙ file_same key) old_cert
                | inr new ↦ key_only new old_cert
              ],
              Steps-after (keeps_file P token_file) _ token_kept e₂ ∙ file_same token_file,
            ))

module _ (P : Platform) (X : Posix P) (K : Keygen P) (N : Http P) (J : Cjson P)
    (W : CjsonPrint P J) where
  -- The key and the certificate are as before, or what replaced them was issued in this run; and the
  -- token is still there.
  pub record IsLeft (cfg : Config) (token_file key cert : Bytes) (s t : State P) : Type 0 where
    pub outcome :
        ((P.file t.world key ≡ P.file s.world key) × (P.file t.world cert ≡ P.file s.world cert))
        ⊎ ((issued : KeyAndCsr × Bytes) × Issued P X K N J W cfg token_file s issued
            × Replaced P key cert (c_string issued.0.key_pem) issued.1 s t)
    pub token_left : P.file t.world token_file ≡ P.file s.world token_file

  unwritten-IsLeft :
      (cfg : Config) (token_file key cert : Bytes) (s t : State P)
      → t.world ≡ s.world
      → IsLeft cfg token_file key cert s t
  unwritten-IsLeft cfg token_file key cert s t same = record {
    outcome = inl (ap (λ w. P.file w key) same, ap (λ w. P.file w cert) same);
    token_left = ap (λ w. P.file w token_file) same;
  }

  -- If the paths of the key, the certificate, the token and the temporary files differ, an enrolment
  -- that fails, at whatever point, leaves the token file as it was, and it leaves the key and the
  -- certificate as they were, or the key replaced by one generated in this run and the certificate as
  -- it was, or the key and the certificate both replaced, the second by the one issued for the first.
  pub ota_fetch_enroll-IsLeft :
      (L : IsLawful P) (D : IsPosix X) (fuel : ℕ) (cfg : Config) (token_file key cert : Bytes)
      (force : Bool) (s t : State P) {e : EnrollError}
      → cfg.tls_client_key ≡ some key
      → cfg.tls_client_cert ≡ some cert
      → AreApart P key cert token_file
      → ota_fetch_enroll P X K N J W fuel cfg (some token_file) force s ≡ (err e, t)
      → IsLeft cfg token_file key cert s t
  unfolding ota_fetch_enroll
  ota_fetch_enroll-IsLeft L D fuel cfg token_file key cert force s t has_key has_cert apart h =
      let looked = check_identity-only_reads P X K N J W force key cert in
      let asked = obtain-only_reads P X K N J W cfg token_file in
      bind-cases _ _ _ (rw (has_key, has_cert) at h)
        (λ _ s₁ e₁ h₁.
          let first = (Steps-after (only_reads P) _ looked e₁).0 in
          bind-cases _ _ _ h₁
            (λ issued s₂ e₂ h₂.
              let second = (Steps-after (only_reads P) _ asked e₂).0 in
              let (outcome, token) =
                install_identity-left P L X D fuel key cert token_file apart K N J W issued s s₂
                  (second ∙ first) h₂ in
              record {
                outcome = inr (
                  issued,
                  obtain-Issued P X K N J W cfg token_file key cert force s s₁ s₂ issued e₁ e₂,
                  outcome,
                );
                token_left = token;
              })
            (λ _ e₂ _.
              unwritten-IsLeft cfg token_file key cert s t
                ((Steps-after (only_reads P) _ asked e₂).0 ∙ first)))
        (λ _ e₁ _.
          unwritten-IsLeft cfg token_file key cert s t (Steps-after (only_reads P) _ looked e₁).0)
