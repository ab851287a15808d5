-- ===== src/Enroll/Enrolled.antt =====
-- `ota_fetch_enroll` of src/enroll.c: what it needs before it writes, what a run that succeeds has
-- installed, and what one that fails leaves behind.
use ota_fetch.Base.{
  ℕ, ◌≡◌, refl, sym, ap, ◌∙◌, Bytes, not, Option, none, some, Bool, true, false, Result, ok, raise,
}
use ota_fetch.Platform.{Platform, IsLawful, State, Unlink, removed, missing, stuck, Cjson}
use ota_fetch.Platform.Steps.{Steps-after, keeps_file, only_reads, broken-bind}
use ota_fetch.Platform.Inversion.{acted, pure-ok, check-ok, check_last-ok, bind-ok, act-ok, ask-ok}
use ota_fetch.Platform.Posix.{Posix, IsPosix}
use ota_fetch.Platform.Keygen.{Keygen}
use ota_fetch.Platform.Http.{Http, CjsonPrint}
use ota_fetch.Config.{Config}
use ota_fetch.Manifest.Load.{c_string}
use ota_fetch.Fetch.Download.{tmp_of}
use ota_fetch.Enroll.Paths.{EnrollError, is_there, path_exists}
use ota_fetch.Enroll.Keys.{KeyAndCsr}
use ota_fetch.Enroll.Run.{check_identity, token_rc, obtain, install_identity, ota_fetch_enroll}
use ota_fetch.Enroll.Atomic.{write_file_atomic-IsWritten}
use ota_fetch.Enroll.Kept.{write_file_atomic-keeps, keeps_mode, write_file_atomic-keeps_mode}
use ota_fetch.Enroll.Reads.{obtain-only_reads, check_identity-only_reads}

-- The paths of the key, the certificate, the token and the temporary files differ.
pub record AreApart (P : Platform) (key cert token_file : Bytes) : Type 0 where
  pub key_tmp : P.same key (tmp_of key) ≡ false
  pub key_cert : P.same key cert ≡ false
  pub key_cert_tmp : P.same key (tmp_of cert) ≡ false
  pub key_token : P.same key token_file ≡ false
  pub cert_tmp : P.same cert (tmp_of cert) ≡ false
  pub cert_key : P.same cert key ≡ false
  pub cert_key_tmp : P.same cert (tmp_of key) ≡ false
  pub cert_token : P.same cert token_file ≡ false
  pub token_key : P.same token_file key ≡ false
  pub token_key_tmp : P.same token_file (tmp_of key) ≡ false
  pub token_cert : P.same token_file cert ≡ false
  pub token_cert_tmp : P.same token_file (tmp_of cert) ≡ false

module _ (P : Platform) where
  -- `stat` finds nothing at either path.
  pub record IsVacant (key cert : Bytes) (s : State P) : Type 0 where
    pub no_key : (o : P.Oracle) × ((P.stat key s.world o).0 ≡ none)
    pub no_cert : (o : P.Oracle) × ((P.stat cert s.world o).0 ≡ none)

  is_there-none : (st : Option Bool) → not (is_there P st) ≡ true → st ≡ none
  is_there-none none h = refl
  is_there-none (some d) h = absurd (cc)

  path_exists-absent :
      (path : Bytes) (s : State P) {b : Bool} {t : State P}
      → path_exists P path s ≡ (ok b, t)
      → not b ≡ true
      → (t.world ≡ s.world) × ((P.stat path s.world s.oracle).0 ≡ none)
  unfolding path_exists
  path_exists-absent path s h absent = ask-ok P _ _ _ h λ h₁.
      pure-ok _ _ h₁
        λ is_b same. (ap (λ u. u.world) (sym same), is_there-none _ (rw (← is_b) at absent))

  check_identity-IsVacant :
      (key cert : Bytes) (s : State P) {u : Unit {0}} {t : State P}
      → check_identity P false key cert s ≡ (ok u, t)
      → IsVacant key cert s
  unfolding check_identity
  check_identity-IsVacant key cert s h = bind-ok _ _ _ h λ has_key s₁ e₁ h₁.
      check-ok _ _ _ _ h₁ λ no_key h₂. bind-ok _ _ _ h₂ λ has_cert s₂ e₂ h₃.
        check_last-ok _ _ _ h₃ λ no_cert _.
          let (same, key_absent) = path_exists-absent key s e₁ no_key in
          let (_, cert_absent) = path_exists-absent cert s₁ e₂ no_cert in
          record { no_key = (s.oracle, key_absent); no_cert = (s₁.oracle, rw same at cert_absent) }

module _ (P : Platform) (X : Posix P) (K : Keygen P) (N : Http P) (J : Cjson P)
    (W : CjsonPrint P J) where
  -- Without `force`, a run that changes any file has found neither the key nor the certificate that the
  -- configuration names.
  pub ota_fetch_enroll-IsVacant_of_change :
      (fuel : ℕ) (cfg : Config) (token_file key cert : Bytes) (s t : State P)
      {x : Result EnrollError (Unit {0})}
      → cfg.tls_client_key ≡ some key
      → cfg.tls_client_cert ≡ some cert
      → ota_fetch_enroll P X K N J W fuel cfg (some token_file) false s ≡ (x, t)
      → ¬ (t.world ≡ s.world)
      → IsVacant P key cert s
  unfolding ota_fetch_enroll
  ota_fetch_enroll-IsVacant_of_change fuel cfg token_file key cert s t has_key has_cert h changed =
      broken-bind (only_reads P) _ _ (check_identity-only_reads P X K N J W false key cert)
        (rw (has_key, has_cert) at h) (λ kept. changed kept.0)
        λ u s₁ e₁ _ _. check_identity-IsVacant P key cert s e₁

  -- This was obtained, in a world like that of `s`.
  pub record Issued (cfg : Config) (token_file : Bytes) (s : State P) (issued : KeyAndCsr × Bytes)
      : Type 0 where
    pub from : State P
    pub upto : State P
    pub from_world : from.world ≡ s.world
    pub upto_world : upto.world ≡ s.world
    pub was_issued : obtain P X K N J W cfg token_file from ≡ (ok issued, upto)

  pub obtain-Issued :
      (cfg : Config) (token_file key cert : Bytes) (force : Bool) (s s₁ s₂ : State P) {u : Unit {0}}
      (issued : KeyAndCsr × Bytes)
      → check_identity P force key cert s ≡ (ok u, s₁)
      → obtain P X K N J W cfg token_file s₁ ≡ (ok issued, s₂)
      → Issued cfg token_file s issued
  obtain-Issued cfg token_file key cert force s s₁ s₂ issued e₁ e₂ =
      let first =
        (Steps-after (only_reads P) _ (check_identity-only_reads P X K N J W force key cert)
          e₁).0 in
      record {
        from = s₁;
        upto = s₂;
        from_world = first;
        upto_world =
            (Steps-after (only_reads P) _ (obtain-only_reads P X K N J W cfg token_file) e₂).0
            ∙ first;
        was_issued = e₂;
      }

  module _ (L : IsLawful P) (D : IsPosix X) where
    -- The key that was generated and the certificate that was issued for it are in place, with their
    -- modes, and the token is gone.
    pub record IsEnrolled (cfg : Config) (token_file key cert : Bytes) (s t : State P)
        : Type 0 where
      pub issued : KeyAndCsr × Bytes
      pub new : Issued cfg token_file s issued
      pub key_file : P.file t.world key ≡ some (c_string issued.0.key_pem)
      pub cert_file : P.file t.world cert ≡ some issued.1
      pub key_mode : X.mode t.world key ≡ some 0o600
      pub cert_mode : X.mode t.world cert ≡ some 0o644
      pub token_gone : P.file t.world token_file ≡ none

    unlink-gone :
        (token_file : Bytes) (s : State P) {u : Unit {0}} {t : State P}
        → token_rc P (P.unlink token_file s.world s.oracle).0 (acted P (P.unlink token_file) s)
          ≡ (ok u, t)
        → (acted P (P.unlink token_file) s ≡ t) × (P.file t.world token_file ≡ none)
    unfolding raise
    unlink-gone token_file s {u} {t} h = go _ refl h
      where
        go :
            (r : Unlink)
            → (P.unlink token_file s.world s.oracle).0 ≡ r
            → token_rc P r (acted P (P.unlink token_file) s) ≡ (ok u, t)
            → (acted P (P.unlink token_file) s ≡ t) × (P.file t.world token_file ≡ none)
        go removed e k = pure-ok _ _ k λ _ same. (same, rw (← same) (L.unlink_removed _ _ _ e))
        go missing e k = pure-ok _ _ k λ _ same. (same, rw (← same) (L.unlink_missing _ _ _ e))
        go stuck e k = absurd (cc)

    install_identity-ok :
        (fuel : ℕ) (key cert token_file : Bytes) (issued : KeyAndCsr × Bytes) (s : State P)
        {u : Unit {0}} {t : State P}
        → AreApart P key cert token_file
        → install_identity P X K N J W fuel key cert token_file issued s ≡ (ok u, t)
        → (P.file t.world key ≡ some (c_string issued.0.key_pem))
          × (P.file t.world cert ≡ some issued.1)
          × (X.mode t.world key ≡ some 0o600)
          × (X.mode t.world cert ≡ some 0o644)
          × (P.file t.world token_file ≡ none)
    unfolding install_identity
    install_identity-ok fuel key cert token_file issued s apart h = bind-ok _ _ _ h λ _ s₁ e₁ h₁.
        bind-ok _ _ _ h₁ λ _ s₂ e₂ h₂. act-ok P _ _ _ h₂ λ h₃.
          let (same, gone) = unlink-gone token_file s₂ h₃ in
          let key_kept =
            write_file_atomic-keeps P L X D key cert apart.key_cert apart.key_cert_tmp fuel issued.1
              0o644 in
          let key_mode_kept =
            write_file_atomic-keeps_mode P L X D key 0o600 cert apart.key_cert apart.key_cert_tmp
              fuel issued.1 0o644 in
          let key_written = write_file_atomic-IsWritten P L X D _ _ _ _ _ e₁ in
          let cert_written = write_file_atomic-IsWritten P L X D _ _ _ _ _ e₂ in
          (
            rw (← same) (
                L.unlink_file token_file _ _ key apart.key_token
                ∙ Steps-after (keeps_file P key) _ key_kept e₂
                ∙ key_written.is_contents),
            rw (← same)
                (L.unlink_file token_file _ _ cert apart.cert_token ∙ cert_written.is_contents),
            rw (← same) (
                D.unlink_mode token_file _ _ key apart.key_token
                ∙ Steps-after (keeps_mode P L X D key 0o600) _ key_mode_kept e₂
                    key_written.is_mode),
            rw (← same) (D.unlink_mode token_file _ _ cert apart.cert_token ∙ cert_written.is_mode),
            gone,
          )

    -- If the paths of the key, the certificate, the token and the temporary files differ, an enrolment
    -- that succeeds has obtained a new key and a certificate while the files were those of the start; it
    -- leaves the key's PEM text, with mode 0600, and the certificate, with mode 0644, at the paths that
    -- the configuration names, and no file at that of the token.
    pub ota_fetch_enroll-IsEnrolled :
        (fuel : ℕ) (cfg : Config) (token_file key cert : Bytes) (force : Bool) (s : State P)
        {u : Unit {0}} {t : State P}
        → cfg.tls_client_key ≡ some key
        → cfg.tls_client_cert ≡ some cert
        → AreApart P key cert token_file
        → ota_fetch_enroll P X K N J W fuel cfg (some token_file) force s ≡ (ok u, t)
        → IsEnrolled cfg token_file key cert s t
    unfolding ota_fetch_enroll
    ota_fetch_enroll-IsEnrolled fuel cfg token_file key cert force s has_key has_cert apart h =
        bind-ok _ _ _ (rw (has_key, has_cert) at h) λ _ s₁ e₁ h₁.
          bind-ok _ _ _ h₁ λ issued s₂ e₂ h₂.
            let (is_key, is_cert, is_key_mode, is_cert_mode, gone) =
              install_identity-ok fuel key cert token_file issued s₂ apart h₂ in
            record {
              issued = issued;
              new = obtain-Issued cfg token_file key cert force s s₁ s₂ issued e₁ e₂;
              key_file = is_key;
              cert_file = is_cert;
              key_mode = is_key_mode;
              cert_mode = is_cert_mode;
              token_gone = gone;
            }
