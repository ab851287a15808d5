-- ===== src/Fetch/Compared.antt =====
-- What `files_equal` says of two files.
use ota_fetch.Base.{
  ◌≡◌, ◌≢◌, sym, ◌∙◌, ap, Bytes, bytes_eq, bytes_eq→eq, bytes_eq_refl, Bool-cases, some, true,
  Result, ok, err, if◌then◌else◌, inl, inr,
}
use ota_fetch.Platform.{Platform, IsLawful, State, Crypto, IsSound}
use ota_fetch.Platform.Steps.{Steps-after, only_reads}
use ota_fetch.Platform.Inversion.{pure-ok, try-ok}
use ota_fetch.Hash.Digest.{HashError, sha256sum_file}
use ota_fetch.Hash.Laws.{sha256sum_file-sha256}
use ota_fetch.Hash.Reads.{sha256sum_file-only_reads}
use ota_fetch.Fetch.Stages.{FilesEqual, files_eq, files_neq, files_err, files_equal, same_digest}

module _ (P : Platform) (L : IsLawful P) (C : Crypto P) (D : IsSound C) where
  -- The files at two paths, if both are there, and what is said of their digests.
  abbrev pub Both : P.World → Bytes → Bytes → (Bytes → Bytes → Type 0) → Type 0
  Both w a b rel =
      (c : Bytes) × (d : Bytes) × (P.file w a ≡ some c)
      × (P.file w b ≡ some d)
      × rel (C.sha256 c) (C.sha256 d)

  abbrev pub Compares : P.World → Bytes → Bytes → FilesEqual → Type 0
  Compares w a b files_eq = Both w a b (λ x y. x ≡ y)
  Compares w a b files_neq = Both w a b (λ x y. x ≢ y)
  Compares w a b files_err = Unit {0}

  both-Compares :
      (w : P.World) (a b d e : Bytes)
      → (c : Bytes) × (P.file w a ≡ some c) × (d ≡ C.sha256 c)
      → (c : Bytes) × (P.file w b ≡ some c) × (e ≡ C.sha256 c)
      → Compares w a b (if bytes_eq d e then files_eq else files_neq)
  both-Compares w a b d e (x, is_x, hash_x) (y, is_y, hash_y) = elim (Bool-cases (bytes_eq d e)) [
    | inl at ↦ rw at (x, y, is_x, is_y, sym hash_x ∙ bytes_eq→eq d e at ∙ hash_y)
    | inr off ↦ rw off (
      x,
      y,
      is_x,
      is_y,
      λ q.
          let same : d ≡ e = hash_x ∙ q ∙ sym hash_y in
          let at : bytes_eq d e ≡ true = rw same (bytes_eq_refl e) in cc,
    )
  ]

  same_digest-Compares :
      (a b : Bytes) (s s₁ s₂ : State P) (x y : Result HashError Bytes)
      → sha256sum_file P C (some a) s ≡ (x, s₁)
      → sha256sum_file P C (some b) s₁ ≡ (y, s₂)
      → Compares s.world a b (same_digest P C x y)
  same_digest-Compares a b s s₁ s₂ (ok d) (ok e) h k =
      let (c, is_c, hash_c, _) = sha256sum_file-sha256 P L C D a s h in
      let (c', is_c', hash_c', _) = sha256sum_file-sha256 P L C D b s₁ k in
      let still =
        ap (λ w. P.file w b)
          (Steps-after (only_reads P) _ (sha256sum_file-only_reads P C (some a)) h).0 in
      both-Compares s.world a b d e (c, is_c, hash_c) (c', sym still ∙ is_c', hash_c')
  same_digest-Compares a b s s₁ s₂ (err x) y h k = tt
  same_digest-Compares a b s s₁ s₂ (ok d) (err y) h k = tt

  -- `files_equal` answers FILES_EQ only if both files are there and have one digest, and FILES_NEQ only
  -- if both are there and have different digests.
  pub files_equal-Compares :
      (a b : Bytes) (s : State P) {c : FilesEqual} {t : State P}
      → files_equal P C (some a) (some b) s ≡ (ok c, t)
      → Compares s.world a b c
  unfolding files_equal
  files_equal-Compares a b s h = try-ok _ _ _ h λ x s₁ e₁ h₁. try-ok _ _ _ h₁ λ y s₂ e₂ h₂.
      pure-ok _ _ h₂ λ same _. rw (← same) (same_digest-Compares a b s s₁ s₂ x y e₁ e₂)
