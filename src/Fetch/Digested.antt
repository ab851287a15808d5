-- ===== src/Fetch/Digested.antt =====
-- `validate_release` of src/ota_fetch.c: the digest of the payload that it accepts.
use ota_fetch.Base.{
  ◌≡◌, ap, Bytes, bytes_eq→eq, Option, some, List, [], ◌∷◌, arith, Result, ok, err, raise,
}
use ota_fetch.Platform.{Platform, IsLawful, State, Crypto, IsSound}
use ota_fetch.Platform.Inversion.{check_last-ok, try-ok}
use ota_fetch.Manifest.{ManifestRelease, ManifestFile}
use ota_fetch.Hash.Hex.{HexResult, encoded, failed, hex_text, hex_encode}
use ota_fetch.Hash.Digest.{HashError, sha256sum_file}
use ota_fetch.Hash.Laws.{sha256sum_file-sha256}
use ota_fetch.Fetch.Context.{Context}
use ota_fetch.Fetch.Stages.{
  Payload, payload_of, payload_entry, check_hex, check_hash, release_sha256, validate_release,
}

module _ (P : Platform) (L : IsLawful P) (C : Crypto P) (D : IsSound C) where
  -- The first file's hash, as `validate_release` finds it.
  pub release_sha256-entry :
      (release : ManifestRelease) (p : Payload)
      → payload_entry (some release) ≡ some p
      → release_sha256 P C (some release) ≡ some p.sha256
  unfolding payload_entry
  release_sha256-entry release p h = go release.files h
    where
      go :
          (fs : List ManifestFile)
          → payload_entry (some (record release { files = fs })) ≡ some p
          → release_sha256 P C (some (record release { files = fs })) ≡ some p.sha256
      go [] e = cc
      go (f ∷ fs) e = fields f.file_type f.filename f.path f.sha256 e
        where
          fields : (a b c d : Option Bytes) → payload_of a b c d ≡ some p → d ≡ some p.sha256
          fields (some a) (some b) (some c) (some d) q = ground arith
          fields _ _ _ _ q = cc

  check_hex-eq :
      (expected : Bytes) (x : HexResult) (s : State P) {u : Unit {0}} {t : State P}
      → check_hex P C expected x s ≡ (ok u, t)
      → x ≡ encoded expected
  unfolding raise
  check_hex-eq expected (failed e) s h = absurd (cc)
  check_hex-eq expected (encoded text) s h =
      check_last-ok _ _ _ h λ same _. ap encoded (bytes_eq→eq text expected same)

  hex_encode-text :
      (hash expected : Bytes)
      → hex_encode (some 65) (some hash) ≡ encoded expected
      → hex_text hash ≡ expected
  unfolding hex_encode
  hex_encode-text hash expected h = ground arith

  -- The file at a path, if its digest is the expected one.
  unfoldable pub HasDigest : Bytes → Bytes → State P → Type 0
  HasDigest path expected s =
      (contents : Bytes) × (P.file s.world path ≡ some contents)
      × (hex_text (C.sha256 contents) ≡ expected)

  check_hash-HasDigest :
      (path expected : Bytes) (s s₁ : State P) (r : Result HashError Bytes) {u : Unit {0}}
      {t : State P}
      → sha256sum_file P C (some path) s ≡ (r, s₁)
      → check_hash P C expected r s₁ ≡ (ok u, t)
      → HasDigest path expected s
  unfolding raise HasDigest validate_release
  check_hash-HasDigest path expected s s₁ (err e) h k = absurd (cc)
  check_hash-HasDigest path expected s s₁ (ok d) h k =
      let (contents, is_file, digest, size) = sha256sum_file-sha256 P L C D path s h in
      (contents, is_file, rw (← digest) (hex_encode-text d expected (check_hex-eq expected _ s₁ k)))

  -- A payload that passes `validate_release` has the digest that the manifest names.
  pub validate_release-digest :
      (ctx : Context) (path expected : Bytes) (s : State P) {u : Unit {0}} {t : State P}
      → ctx.payload_path ≡ some path
      → release_sha256 P C ctx.release ≡ some expected
      → validate_release P C ctx s ≡ (ok u, t)
      → HasDigest path expected s
  unfolding validate_release
  validate_release-digest ctx path expected s is_path named h =
      try-ok _ _ _ (rw named at h)
        λ r s₁ e h₁. check_hash-HasDigest path expected s s₁ r (rw is_path at e) h₁
