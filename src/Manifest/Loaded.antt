-- ===== src/Manifest/Loaded.antt =====
-- `manifest_load` of src/manifest.c loads what the JSON text describes.
use ota_fetch.Base.{
  ℕ, zero, suc, ◌+◌, ◌≡◌, refl, sym, ap, Bytes, length, true, Bool-cases, inl, inr, Option, none,
  some, List, [], ◌++◌, ◌⊎◌, ◌*◌, ok, raise, pure, check, ◌>>=◌, ◌>>◌, if◌then◌else◌, ◌==◌, ==_iff,
}
use ota_fetch.Platform.{Platform, IsLawful, State, ask, Cjson}
use ota_fetch.Platform.Inversion.{pure-ok, bind-ok, ask-ok, ask-check-ok}
use ota_fetch.Manifest.Defs.{Manifest, ManifestRelease, ManifestFile}
use ota_fetch.Manifest.Load.{
  Load, no_manifest, c_string, load_file, load_files, files_item, load_release, load_releases,
  releases_item, from_root, parse_manifest, manifest_load,
}
use ota_fetch.Manifest.Parsed.{IsParsed, manifest_load-IsParsed}
use ota_fetch.Manifest.Described.{
  AreAt, IsList, listed, no_array, IsFile, file_of, IsRelease, release_of, IsManifest,
  dup_json_string-IsText, json_u64-IsNumber,
}

-- The one value of an item that is there.
the_value : {A : Type 0} {a b : A} → some a ≡ some b → a ≡ b
the_value h = cc

module _ (P : Platform) (J : Cjson P) where
  -- A list is loaded from an array that is not empty, if there is memory for it.
  array-IsList :
      {A : Type 0} (One : Option J.Value → A → Type 0) (v : J.Value) (bytes : ℕ)
      (loads : Load P J (List A)) (s : State P) {l : List A} {t : State P}
      → ((r u : State P) (k : List A)
          → loads r ≡ (ok k, u)
          → (length k ≡ J.get_array_size v) × AreAt P J One v 0 k)
      → (if J.is_array v
            then (if J.get_array_size v == 0
                then pure []
                else (do got ← ask P (λ w. P.malloc bytes); check got no_manifest; loads))
            else pure [])
          s
        ≡ (ok l, t)
      → IsList P J One (some v) l
  array-IsList One v bytes loads s loaded h = elim (Bool-cases (J.is_array v)) [
    | inr other ↦
        pure-ok _ _ (rw other at h) λ same _. no_array (λ w e. rw (← the_value e) other) (sym same)
    | inl array ↦ elim (Bool-cases (J.get_array_size v == 0)) [
      | inl empty ↦
          pure-ok _ _ (rw empty at (rw array at h))
            λ same _. rw (← same) (listed v refl array (sym ((==_iff _ 0).0 empty)) tt)
      | inr more ↦
          ask-check-ok P _ _ _ _ (rw more at (rw array at h))
            λ _ h₁. let (count, at) = loaded _ _ _ h₁ in listed v refl array count at
    ]
  ]

  load_file-IsFile :
      (item : Option J.Value) (s : State P) {f : ManifestFile} {t : State P}
      → load_file P J item s ≡ (ok f, t)
      → IsFile P J item f
  load_file-IsFile none s h =
      pure-ok _ _ h λ same _. IsFile.left_blank (λ fj e. absurd (cc)) (sym same)
  load_file-IsFile (some fj) s h = elim (Bool-cases (J.is_object fj)) [
    | inr other ↦
        pure-ok _ _ (rw other at h)
          λ same _. IsFile.left_blank (λ v e. rw (← the_value e) other) (sym same)
    | inl object ↦ bind-ok _ _ _ (rw object at h) λ file_type s₁ e₁ h₁.
        bind-ok _ _ _ h₁ λ filename s₂ e₂ h₂. bind-ok _ _ _ h₂ λ sha256 s₃ e₃ h₃.
          bind-ok _ _ _ h₃ λ path s₄ e₄ h₄. pure-ok _ _ h₄ λ same _. rw (← same) (
            file_of fj refl object (record {
              file_type = dup_json_string-IsText P J fj _ _ e₁;
              filename = dup_json_string-IsText P J fj _ _ e₂;
              size = json_u64-IsNumber P J fj _;
              sha256 = dup_json_string-IsText P J fj _ _ e₃;
              path = dup_json_string-IsText P J fj _ _ e₄;
            }))
  ]

  load_files-AreAt :
      (files : J.Value) (i n : ℕ) (s : State P) {fs : List ManifestFile} {t : State P}
      → load_files P J files i n s ≡ (ok fs, t)
      → (length fs ≡ n) × AreAt P J (IsFile P J) files i fs
  unfolding load_files
  load_files-AreAt files i zero s h = pure-ok _ _ h λ same _. rw (← same) (refl, tt)
  load_files-AreAt files i (suc n) s h = bind-ok _ _ _ h λ f s₁ e₁ h₁.
      bind-ok _ _ _ h₁ λ fs s₂ e₂ h₂. pure-ok _ _ h₂ λ same _.
        let (count, rest) = load_files-AreAt files (i + 1) n s₁ e₂ in
        rw (← same) (ap (λ m. suc m) count, (load_file-IsFile _ s e₁, rest))

  files_item-IsList :
      (item : Option J.Value) (s : State P) {fs : List ManifestFile} {t : State P}
      → files_item P J item s ≡ (ok fs, t)
      → IsList P J (IsFile P J) item fs
  files_item-IsList none s h = pure-ok _ _ h λ same _. no_array (λ v e. absurd (cc)) (sym same)
  files_item-IsList (some v) s h =
      array-IsList (IsFile P J) v (J.get_array_size v * 40)
        (load_files P J v 0 (J.get_array_size v)) s
        (λ r u k e. load_files-AreAt v 0 (J.get_array_size v) r e) h

  load_release-IsRelease :
      (item : Option J.Value) (s : State P) {r : ManifestRelease} {t : State P}
      → load_release P J item s ≡ (ok r, t)
      → IsRelease P J item r
  load_release-IsRelease none s h =
      pure-ok _ _ h λ same _. IsRelease.left_blank (λ rj e. absurd (cc)) (sym same)
  load_release-IsRelease (some rj) s h = elim (Bool-cases (J.is_object rj)) [
    | inr other ↦
        pure-ok _ _ (rw other at h)
          λ same _. IsRelease.left_blank (λ v e. rw (← the_value e) other) (sym same)
    | inl object ↦ bind-ok _ _ _ (rw object at h) λ device_id s₁ e₁ h₁.
        bind-ok _ _ _ h₁ λ release_name s₂ e₂ h₂. bind-ok _ _ _ h₂ λ release_version s₃ e₃ h₃.
          bind-ok _ _ _ h₃ λ created s₄ e₄ h₄. bind-ok _ _ _ h₄ λ files s₅ e₅ h₅.
            pure-ok _ _ h₅ λ same _. rw (← same) (
              release_of rj refl object (record {
                device_id = dup_json_string-IsText P J rj _ _ e₁;
                release_name = dup_json_string-IsText P J rj _ _ e₂;
                release_version = dup_json_string-IsText P J rj _ _ e₃;
                created = dup_json_string-IsText P J rj _ _ e₄;
                files = files_item-IsList _ _ e₅;
              }))
  ]

  load_releases-AreAt :
      (releases : J.Value) (i n : ℕ) (s : State P) {rs : List ManifestRelease} {t : State P}
      → load_releases P J releases i n s ≡ (ok rs, t)
      → (length rs ≡ n) × AreAt P J (IsRelease P J) releases i rs
  unfolding load_releases
  load_releases-AreAt releases i zero s h = pure-ok _ _ h λ same _. rw (← same) (refl, tt)
  load_releases-AreAt releases i (suc n) s h = bind-ok _ _ _ h λ r s₁ e₁ h₁.
      bind-ok _ _ _ h₁ λ rs s₂ e₂ h₂. pure-ok _ _ h₂ λ same _.
        let (count, rest) = load_releases-AreAt releases (i + 1) n s₁ e₂ in
        rw (← same) (ap (λ m. suc m) count, (load_release-IsRelease _ s e₁, rest))

  releases_item-IsList :
      (item : Option J.Value) (s : State P) {rs : List ManifestRelease} {t : State P}
      → releases_item P J item s ≡ (ok rs, t)
      → IsList P J (IsRelease P J) item rs
  releases_item-IsList none s h = pure-ok _ _ h λ same _. no_array (λ v e. absurd (cc)) (sym same)
  releases_item-IsList (some v) s h =
      array-IsList (IsRelease P J) v (J.get_array_size v * 48)
        (load_releases P J v 0 (J.get_array_size v)) s
        (λ r u k e. load_releases-AreAt v 0 (J.get_array_size v) r e) h

  from_root-IsManifest :
      (parsed : Option J.Value) (s : State P) {m : Manifest} {t : State P}
      → from_root P J parsed s ≡ (ok m, t)
      → (root : J.Value) × (parsed ≡ some root) × IsManifest P J root m
  unfolding raise
  from_root-IsManifest none s h = absurd (cc)
  from_root-IsManifest (some root) s h = elim (Bool-cases (J.is_object root)) [
    | inr other ↦ let never = rw other at h in absurd (cc)
    | inl object ↦ ask-check-ok P _ _ _ _ (rw object at h) λ _ h₁.
        bind-ok _ _ _ h₁ λ manifest_version s₂ e₂ h₂. bind-ok _ _ _ h₂ λ created s₃ e₃ h₃.
          bind-ok _ _ _ h₃ λ releases s₄ e₄ h₄. pure-ok _ _ h₄ λ same _. (
            root,
            refl,
            rw (← same) (record {
              is_object = object;
              manifest_version = dup_json_string-IsText P J root _ _ e₂;
              created = dup_json_string-IsText P J root _ _ e₃;
              releases = releases_item-IsList _ _ e₄;
            }),
          )
  ]

  -- The manifest is what the JSON text describes that the file consists of, or that a first part of it
  -- holds up to an error of the stream.
  pub record IsLoaded (contents : Bytes) (m : Manifest) : Type 0 where
    pub text : Bytes
    pub after : P.Stream
    pub root : J.Value
    pub is_contents : text ++ P.unread after ≡ contents
    pub is_whole : (P.ferror after ≡ true) ⊎ (P.unread after ≡ [])
    pub is_json : (o : P.Oracle) × ((J.parse (c_string text) o).0 ≡ some root)
    pub is_manifest : IsManifest P J root m

  IsParsed-IsLoaded :
      (contents : Bytes) (m : Manifest) → IsParsed P J contents m → IsLoaded contents m
  unfolding parse_manifest
  IsParsed-IsLoaded contents m h =
      ask-ok P _ _ h.start (ap (λ x. (x, (parse_manifest P J h.text h.start).1)) h.parsed) λ h₁.
        let (root, is_root, is_manifest) = from_root-IsManifest _ _ h₁ in
        record {
          text = h.text;
          after = h.after;
          root = root;
          is_contents = h.is_contents;
          is_whole = h.is_whole;
          is_json = (h.start.oracle, is_root);
          is_manifest = is_manifest;
        }

  -- A manifest that is loaded is what a JSON object describes that cJSON reads from the file, or from a
  -- first part of it if the stream has an error. Each text is a copy of the string under its key, NULL
  -- if there is none or no memory for the copy; the size of a file is the number under its key, 0 if
  -- there is none or it is negative; and there is one release for each item of the array under
  -- "releases", in order, and in each one file for each item of the array under "files", where an
  -- item that is no object stays blank.
  pub manifest_load-IsLoaded :
      (L : IsLawful P) (path : Bytes) (s : State P) {m : Manifest} {t : State P}
      → manifest_load P J path s ≡ (ok m, t)
      → (contents : Bytes) × (P.file s.world path ≡ some contents) × IsLoaded contents m
  manifest_load-IsLoaded L path s h =
      let (contents, is_file, parsed) = manifest_load-IsParsed P L J path s h in
      (contents, is_file, IsParsed-IsLoaded contents _ parsed)
