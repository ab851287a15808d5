-- ===== src/Manifest/Described.antt =====
-- What a manifest that `manifest_load` of src/manifest.c returns has to do with the JSON text: each field
-- is compared with the item that its key names.
use ota_fetch.Base.{
  ℕ, ◌+◌, ◌≡◌, ◌≢◌, refl, sym, ◌∙◌, Bytes, codes, length, true, false, Bool-cases, inl, inr, Option,
  none, some, List, [], ◌∷◌, ok,
}
use ota_fetch.Platform.{Platform, State, Cjson}
use ota_fetch.Platform.Inversion.{pure-ok, ask-ok}
use ota_fetch.Manifest.Defs.{Manifest, ManifestRelease, ManifestFile, blank_file, blank_release}
use ota_fetch.Manifest.Load.{duplicate, string_item, dup_json_string, number_item, u64_of, json_u64}

module _ (P : Platform) (J : Cjson P) where
  -- The copy of the string in an item, or NULL if there is no string or no memory for the copy.
  pub data IsText (item : Option J.Value) : Option Bytes → Type 0 where
    copied :
        (it : J.Value) (s : Bytes) → item ≡ some it → J.string_of it ≡ some s → IsText item (some s)
    no_string :
        ((it : J.Value) (s : Bytes) → item ≡ some it → J.string_of it ≢ some s) → IsText item none
    no_memory :
        (it : J.Value) (s : Bytes) (o : P.Oracle)
        → item ≡ some it
        → J.string_of it ≡ some s
        → (P.malloc (length s + 1) o).0 ≡ false
        → IsText item none

  -- The number in an item, or 0 if it is negative or there is none.
  pub data IsNumber (item : Option J.Value) : ℕ → Type 0 where
    converted :
        (it : J.Value) (v : J.Double)
        → item ≡ some it
        → J.number_of it ≡ some v
        → J.is_negative v ≡ false
        → IsNumber item (J.to_u64 v)
    negative :
        (it : J.Value) (v : J.Double)
        → item ≡ some it
        → J.number_of it ≡ some v
        → J.is_negative v ≡ true
        → IsNumber item 0
    no_number :
        ((it : J.Value) (v : J.Double) → item ≡ some it → J.number_of it ≢ some v) → IsNumber item 0

  -- Each entry of the list goes with the item of the array at its index, from `i` on.
  abbrev pub AreAt :
      {A : Type 0} (One : Option J.Value → A → Type 0) → J.Value → ℕ → List A → Type 0
  AreAt One v i [] = Unit {0}
  AreAt One v i (x ∷ xs) = One (J.get_array_item v i) x × AreAt One v (i + 1) xs

  -- The list of the entries of an array, all of them; empty if the item is no array.
  pub data IsList {A : Type 0} (One : Option J.Value → A → Type 0) (item : Option J.Value)
      (l : List A) : Type 0 where
    listed :
        (v : J.Value)
        → item ≡ some v
        → J.is_array v ≡ true
        → length l ≡ J.get_array_size v
        → AreAt One v 0 l
        → IsList One item l
    no_array : ((v : J.Value) → item ≡ some v → J.is_array v ≡ false) → l ≡ [] → IsList One item l

  pub record HasFileFields (fj : J.Value) (f : ManifestFile) : Type 0 where
    pub file_type : IsText (J.get_object_item fj (codes "file_type")) f.file_type
    pub filename : IsText (J.get_object_item fj (codes "filename")) f.filename
    pub size : IsNumber (J.get_object_item fj (codes "size")) f.size
    pub sha256 : IsText (J.get_object_item fj (codes "sha256")) f.sha256
    pub path : IsText (J.get_object_item fj (codes "path")) f.path

  -- An entry that is no object stays as `calloc` left it.
  pub data IsFile (item : Option J.Value) (f : ManifestFile) : Type 0 where
    file_of :
        (fj : J.Value) → item ≡ some fj → J.is_object fj ≡ true → HasFileFields fj f → IsFile item f
    left_blank :
        ((fj : J.Value) → item ≡ some fj → J.is_object fj ≡ false) → f ≡ blank_file → IsFile item f

  pub record HasReleaseFields (rj : J.Value) (r : ManifestRelease) : Type 0 where
    pub device_id : IsText (J.get_object_item rj (codes "device_id")) r.device_id
    pub release_name : IsText (J.get_object_item rj (codes "release_name")) r.release_name
    pub release_version : IsText (J.get_object_item rj (codes "release_version")) r.release_version
    pub created : IsText (J.get_object_item rj (codes "created")) r.created
    pub files : IsList IsFile (J.get_object_item rj (codes "files")) r.files

  pub data IsRelease (item : Option J.Value) (r : ManifestRelease) : Type 0 where
    release_of :
        (rj : J.Value)
        → item ≡ some rj
        → J.is_object rj ≡ true
        → HasReleaseFields rj r
        → IsRelease item r
    left_blank :
        ((rj : J.Value) → item ≡ some rj → J.is_object rj ≡ false)
        → r ≡ blank_release
        → IsRelease item r

  pub record IsManifest (root : J.Value) (m : Manifest) : Type 0 where
    pub is_object : J.is_object root ≡ true
    pub manifest_version :
        IsText (J.get_object_item root (codes "manifest_version")) m.manifest_version
    pub created : IsText (J.get_object_item root (codes "created")) m.created
    pub releases : IsList IsRelease (J.get_object_item root (codes "releases")) m.releases

  duplicate-IsText :
      (it : J.Value) (text o : Option Bytes) (s : State P) {t : State P}
      → J.string_of it ≡ text
      → duplicate P J text s ≡ (ok o, t)
      → IsText (some it) o
  duplicate-IsText it none o s is_text h = pure-ok _ _ h λ same _. rw (← same) (
      no_string λ v text e k.
        let here : it ≡ v = cc in
        let clash : none ≡ some text = sym is_text ∙ (rw (← here) at k) in absurd (cc))
  duplicate-IsText it (some text) o s is_text h = ask-ok P _ _ _ h λ h₁.
      elim (Bool-cases (P.malloc (length text + 1) s.oracle).0) [
        | inl got ↦ pure-ok _ _ h₁ λ same _. rw (← same) (rw got (copied it text refl is_text))
        | inr not_got ↦
            pure-ok _ _ h₁
              λ same _. rw (← same) (rw not_got (no_memory it text s.oracle refl is_text not_got))
      ]

  pub dup_json_string-IsText :
      (obj : J.Value) (key : Bytes) (s : State P) {o : Option Bytes} {t : State P}
      → dup_json_string P J obj key s ≡ (ok o, t)
      → IsText (J.get_object_item obj key) o
  unfolding dup_json_string
  dup_json_string-IsText obj key s {o} {t} h = go (J.get_object_item obj key) h
    where
      go :
          (item : Option J.Value)
          → duplicate P J (string_item P J item) s ≡ (ok o, t)
          → IsText item o
      go none h' = pure-ok _ _ h' λ same _. rw (← same) (no_string λ v text e. absurd (cc))
      go (some it) h' = duplicate-IsText it (J.string_of it) o s refl h'

  u64_of-IsNumber :
      (it : J.Value) (d : Option J.Double) → J.number_of it ≡ d → IsNumber (some it) (u64_of P J d)
  u64_of-IsNumber it none is_d = no_number λ w v e k.
      let here : it ≡ w = cc in
      let clash : none ≡ some v = sym is_d ∙ (rw (← here) at k) in absurd (cc)
  u64_of-IsNumber it (some v) is_d = elim (Bool-cases (J.is_negative v)) [
    | inl below ↦ rw below (negative it v refl is_d below)
    | inr above ↦ rw above (converted it v refl is_d above)
  ]

  pub json_u64-IsNumber :
      (obj : J.Value) (key : Bytes) → IsNumber (J.get_object_item obj key) (json_u64 P J obj key)
  unfolding json_u64
  json_u64-IsNumber obj key = go (J.get_object_item obj key)
    where
      go : (item : Option J.Value) → IsNumber item (u64_of P J (number_item P J item))
      go none = no_number λ w v e. absurd (cc)
      go (some it) = u64_of-IsNumber it (J.number_of it) refl
