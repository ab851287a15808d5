-- ===== src/Manifest/Parsed.antt =====
-- What `manifest_load` parses: the bytes that `fread` delivered, which are the whole file
-- or a first part up to an error.
use ota_fetch.Base.{
  ◌≡◌, refl, ap, ◌∙◌, ℕ, Bytes, Option, none, some, true, [], ◌∷◌, ◌++◌, ◌⊎◌, inl, inr, length,
  length-append, ok, raise, arith,
}
use ota_fetch.Platform.{Platform, IsLawful, State, Cjson}
use ota_fetch.Platform.Inversion.{ask-ok, ask-check-ok}
use ota_fetch.Manifest.Defs.{Manifest}
use ota_fetch.Manifest.Load.{read_sized, read_open, parse_manifest, manifest_load}

-- `m` is what the text describes that `contents` begins with, and that is all of it unless the stream
-- has an error.
pub record IsParsed (P : Platform) (J : Cjson P) (contents : Bytes) (m : Manifest) : Type 0 where
  pub text : Bytes
  pub after : P.Stream
  pub start : State P
  pub is_contents : text ++ P.unread after ≡ contents
  pub is_whole : (P.ferror after ≡ true) ⊎ (P.unread after ≡ [])
  pub parsed : (parse_manifest P J text start).0 ≡ ok m

module _ (P : Platform) (L : IsLawful P) (J : Cjson P) where
  -- A read of as many bytes as the file has leaves nothing behind, unless there was an error.
  pub read_whole :
      (fp : P.Stream) (n : ℕ)
      → P.file_size fp ≡ some n
      → (P.ferror (P.fread n fp).1 ≡ true) ⊎ (P.unread (P.fread n fp).1 ≡ [])
  read_whole fp n is_size = elim (L.fread_count n fp) [
    | inr short ↦ short
    | inl full ↦
        let parts = length-append (P.fread n fp).0 (P.unread (P.fread n fp).1) in
        let all = ap (λ l. length l) (L.fread_unread n fp) ∙ L.file_size_unread fp n is_size in
        inr (none_left _ (omega (arith, parts, all, full)))
  ]
    where
      none_left : (l : Bytes) → length l ≡ 0 → l ≡ []
      none_left [] h = refl
      none_left (c ∷ l) h = absurd (omega (arith, h))

  read_sized-IsParsed :
      (fp : P.Stream) (n : Option ℕ) (s : State P) {m : Manifest} {t : State P}
      → P.file_size fp ≡ n
      → read_sized P J fp n s ≡ (ok m, t)
      → IsParsed P J (P.unread fp) m
  unfolding raise
  read_sized-IsParsed fp none s is_size h = absurd (cc)
  read_sized-IsParsed fp (some n) s is_size h = ask-check-ok P _ _ _ _ h λ _ h₁. record {
    text = (P.fread n fp).0;
    after = (P.fread n fp).1;
    start = _;
    is_contents = L.fread_unread n fp;
    is_whole = read_whole fp n is_size;
    parsed = λ i. (h₁ i).0;
  }

  read_open-IsParsed :
      (path : Bytes) (fp : Option P.Stream) (w : P.World) (s : State P) {m : Manifest} {t : State P}
      → ((f : P.Stream) → fp ≡ some f → P.file w path ≡ some (P.unread f))
      → read_open P J fp s ≡ (ok m, t)
      → (contents : Bytes) × (P.file w path ≡ some contents) × IsParsed P J contents m
  unfolding raise
  read_open-IsParsed path none w s is_file h = absurd (cc)
  read_open-IsParsed path (some fp) w s is_file h =
      (P.unread fp, is_file fp refl, read_sized-IsParsed fp (P.file_size fp) s refl h)

  -- A manifest that is loaded is what `parse_manifest` makes of the file, or of a first part of it up to
  -- an error of the stream.
  pub manifest_load-IsParsed :
      (path : Bytes) (s : State P) {m : Manifest} {t : State P}
      → manifest_load P J path s ≡ (ok m, t)
      → (contents : Bytes) × (P.file s.world path ≡ some contents) × IsParsed P J contents m
  unfolding manifest_load
  manifest_load-IsParsed path s h = ask-ok P _ _ _ h λ h₁.
      read_open-IsParsed path _ s.world _ (λ f e. L.fopen_rb_unread path s.world s.oracle f e) h₁
