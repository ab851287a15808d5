-- ===== src/Manifest/Chosen.antt =====
-- Which release `manifest_select_release` picks, and which file `manifest_release_select_file`.
use ota_fetch.Base.{
  ℕ, ◌≡◌, ◌≢◌, refl, Bytes, bytes_eq, bytes_eq→eq, bytes_eq_refl, Option, none, some, true, false,
  List, [], ◌∷◌, ◌++◌, Bool-cases, inl, inr, ◌⊎◌,
}
use ota_fetch.Manifest.Defs.{Manifest, ManifestRelease, ManifestFile}
use ota_fetch.Manifest.Select.{
  equals, default_id, find_release, or_default, manifest_select_release, find_file, or_first,
  select_file, manifest_release_select_file,
}

-- No release of the list is for the device `id`.
abbrev pub NoneFor : Bytes → List ManifestRelease → Type 0
NoneFor id [] = Unit {0}
NoneFor id (r ∷ rs) = (r.device_id ≢ some id) × NoneFor id rs

-- `r` is the first release of the list for the device `id`.
pub record IsFirstFor (id : Bytes) (rs : List ManifestRelease) (r : ManifestRelease) : Type 0 where
  pub before : List ManifestRelease
  pub after : List ManifestRelease
  pub is_list : rs ≡ before ++ r ∷ after
  pub is_for : r.device_id ≡ some id
  pub skipped : NoneFor id before

-- What a search for a device must answer.
abbrev pub Answers : Bytes → List ManifestRelease → Option ManifestRelease → Type 0
Answers id rs none = NoneFor id rs
Answers id rs (some r) = IsFirstFor id rs r

equals-true : (o : Option Bytes) (id : Bytes) → equals o id ≡ true → o ≡ some id
unfolding equals
equals-true none id h = absurd (cc)
equals-true (some s) id h = rw (bytes_eq→eq s id h)

equals-false : (o : Option Bytes) (id : Bytes) → equals o id ≡ false → o ≢ some id
unfolding equals
equals-false none id h e = cc
equals-false (some s) id h e =
    let same : s ≡ id = cc in let yes : bytes_eq s id ≡ true = rw same (bytes_eq_refl id) in cc

Answers-skip :
    (id : Bytes) (r : ManifestRelease) (rs : List ManifestRelease) (o : Option ManifestRelease)
    → r.device_id ≢ some id
    → Answers id rs o
    → Answers id (r ∷ rs) o
Answers-skip id r rs none h a = (h, a)
Answers-skip id r rs (some q) h a = record {
  before = r ∷ a.before;
  after = a.after;
  is_list = rw a.is_list;
  is_for = a.is_for;
  skipped = (h, a.skipped);
}

find_release-Answers : (id : Bytes) (rs : List ManifestRelease) → Answers id rs (find_release id rs)
unfolding find_release
find_release-Answers id [] = tt
find_release-Answers id (r ∷ rs) = elim (Bool-cases (equals r.device_id id)) [
  | inl at ↦ rw at (record {
    before = [];
    after = rs;
    is_list = refl;
    is_for = equals-true r.device_id id at;
    skipped = tt;
  })
  | inr off ↦ rw off (
      Answers-skip id r rs (find_release id rs) (equals-false r.device_id id off)
        (find_release-Answers id rs))
]

-- What a selection must answer: for a device with an identifier the first release for it, if there
-- is one; otherwise the first release for `default`, or nothing if there is none.
abbrev pub Selects : List ManifestRelease → Option Bytes → Option ManifestRelease → Type 0
Selects rs none o = Answers default_id rs o
Selects rs (some []) o = Answers default_id rs o
Selects rs (some (c ∷ id)) o =
    ((r : ManifestRelease) × (o ≡ some r) × IsFirstFor (c ∷ id) rs r)
    ⊎ (NoneFor (c ∷ id) rs × Answers default_id rs o)

or_default-Selects :
    (c : ℕ) (id : Bytes) (rs : List ManifestRelease) (o : Option ManifestRelease)
    → Answers (c ∷ id) rs o
    → Selects rs (some (c ∷ id)) (or_default o rs)
or_default-Selects c id rs none a = inr (a, find_release-Answers default_id rs)
or_default-Selects c id rs (some r) a = inl (r, refl, a)

-- `manifest_select_release` picks the first release whose `device_id` is the device's; if the device
-- has no identifier, or no release names it, it picks the first release for `default`; and it returns
-- NULL only if there is none of these.
pub manifest_select_release-Selects :
    (m : Manifest) (device_id : Option Bytes)
    → Selects m.releases device_id (manifest_select_release (some m) device_id)
unfolding manifest_select_release
manifest_select_release-Selects m none = find_release-Answers default_id m.releases
manifest_select_release-Selects m (some []) = find_release-Answers default_id m.releases
manifest_select_release-Selects m (some (c ∷ id)) =
    or_default-Selects c id m.releases (find_release (c ∷ id) m.releases)
      (find_release-Answers (c ∷ id) m.releases)

-- No file of the list has the type.
abbrev pub NoneOf : Bytes → List ManifestFile → Type 0
NoneOf ty [] = Unit {0}
NoneOf ty (f ∷ fs) = (f.file_type ≢ some ty) × NoneOf ty fs

-- `f` is the first file of the list with the type.
pub record IsFirstOf (ty : Bytes) (fs : List ManifestFile) (f : ManifestFile) : Type 0 where
  pub before : List ManifestFile
  pub after : List ManifestFile
  pub is_list : fs ≡ before ++ f ∷ after
  pub is_of : f.file_type ≡ some ty
  pub skipped : NoneOf ty before

-- What a search for a type must answer.
abbrev pub Finds : Bytes → List ManifestFile → Option ManifestFile → Type 0
Finds ty fs none = NoneOf ty fs
Finds ty fs (some f) = IsFirstOf ty fs f

Finds-skip :
    (ty : Bytes) (f : ManifestFile) (fs : List ManifestFile) (o : Option ManifestFile)
    → f.file_type ≢ some ty
    → Finds ty fs o
    → Finds ty (f ∷ fs) o
Finds-skip ty f fs none h a = (h, a)
Finds-skip ty f fs (some q) h a = record {
  before = f ∷ a.before;
  after = a.after;
  is_list = rw a.is_list;
  is_of = a.is_of;
  skipped = (h, a.skipped);
}

find_file-Finds : (ty : Bytes) (fs : List ManifestFile) → Finds ty fs (find_file ty fs)
unfolding find_file
find_file-Finds ty [] = tt
find_file-Finds ty (f ∷ fs) = elim (Bool-cases (equals f.file_type ty)) [
  | inl at ↦ rw at (record {
    before = [];
    after = fs;
    is_list = refl;
    is_of = equals-true f.file_type ty at;
    skipped = tt;
  })
  | inr off ↦ rw off (
      Finds-skip ty f fs (find_file ty fs) (equals-false f.file_type ty off)
        (find_file-Finds ty fs))
]

-- What a selection of a file must answer.
abbrev pub SelectsFile : List ManifestFile → Option Bytes → Option ManifestFile → Type 0
SelectsFile [] ty o = o ≡ none
SelectsFile (f ∷ fs) none o = o ≡ some f
SelectsFile (f ∷ fs) (some []) o = o ≡ some f
SelectsFile (f ∷ fs) (some (c ∷ ty)) o =
    ((q : ManifestFile) × (o ≡ some q) × IsFirstOf (c ∷ ty) (f ∷ fs) q)
    ⊎ (NoneOf (c ∷ ty) (f ∷ fs) × (o ≡ some f))

or_first-SelectsFile :
    (c : ℕ) (ty : Bytes) (f : ManifestFile) (fs : List ManifestFile) (o : Option ManifestFile)
    → Finds (c ∷ ty) (f ∷ fs) o
    → SelectsFile (f ∷ fs) (some (c ∷ ty)) (or_first o f)
or_first-SelectsFile c ty f fs none a = inr (a, refl)
or_first-SelectsFile c ty f fs (some q) a = inl (q, refl, a)

select_file-SelectsFile :
    (fs : List ManifestFile) (ty : Option Bytes) → SelectsFile fs ty (select_file fs ty)
select_file-SelectsFile [] ty = refl
select_file-SelectsFile (f ∷ fs) none = refl
select_file-SelectsFile (f ∷ fs) (some []) = refl
select_file-SelectsFile (f ∷ fs) (some (c ∷ ty)) =
    or_first-SelectsFile c ty f fs (find_file (c ∷ ty) (f ∷ fs)) (find_file-Finds (c ∷ ty) (f ∷ fs))

-- `manifest_release_select_file` picks the first file of the wanted type; if no type or the empty type is
-- wanted, whatever types the files have, or if no file has the type, it picks the first file; and it
-- returns NULL only if the release has no files.
pub manifest_release_select_file-SelectsFile :
    (r : ManifestRelease) (ty : Option Bytes)
    → SelectsFile r.files ty (manifest_release_select_file (some r) ty)
unfolding manifest_release_select_file
manifest_release_select_file-SelectsFile r ty = select_file-SelectsFile r.files ty
