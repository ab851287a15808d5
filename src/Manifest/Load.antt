-- ===== src/Manifest/Load.antt =====
-- `manifest_load` of src/manifest.c and its helpers, over the cJSON interface. `calloc` is asked
-- for the sizes that the records have on a 64-bit target: 40, 48 and 32 bytes.
use ota_fetch.Base.{
  ℕ, zero, suc, ◌+◌, Bytes, codes, Option, none, some, length, ◌*◌, List, [], ◌∷◌, ◌==◌,
  if◌then◌else◌, Exec, pure, raise, check, ◌>>=◌, ◌>>◌,
}
use ota_fetch.Platform.{Platform, State, ask, Cjson}
use ota_fetch.Manifest.Defs.{Manifest, ManifestRelease, ManifestFile, blank_file, blank_release}

-- The C string that a buffer with a terminator behind its bytes holds.
unfoldable pub c_string : Bytes → Bytes
c_string [] = []
c_string (c ∷ s) = if c == 0 then [] else c ∷ c_string s

-- The only error of `manifest_load` is a NULL result.
pub data NoManifest : Type 0 where
  no_manifest : NoManifest

module _ (P : Platform) (J : Cjson P) where
  abbrev pub Load : Type 0 → Type 0
  Load A = Exec (State P) NoManifest A

  -- `strdup`
  abbrev pub duplicate : Option Bytes → Load (Option Bytes)
  duplicate none = pure none
  duplicate (some s) = do
    got ← ask P (λ w. P.malloc (length s + 1))
    pure (if got then some s else none)

  abbrev pub string_item : Option J.Value → Option Bytes
  string_item none = none
  string_item (some it) = J.string_of it

  unfoldable pub dup_json_string : J.Value → Bytes → Load (Option Bytes)
  dup_json_string obj key = duplicate (string_item (J.get_object_item obj key))

  abbrev pub u64_of : Option J.Double → ℕ
  u64_of none = 0
  u64_of (some v) = if J.is_negative v then 0 else J.to_u64 v

  abbrev pub number_item : Option J.Value → Option J.Double
  number_item none = none
  number_item (some it) = J.number_of it

  -- The flag `ok` is written by `json_u64` and read by no caller.
  unfoldable pub json_u64 : J.Value → Bytes → ℕ
  json_u64 obj key = u64_of (number_item (J.get_object_item obj key))

  -- One round of the loop over `files`: an entry that is no object stays as `calloc` left it.
  abbrev pub load_file : Option J.Value → Load ManifestFile
  load_file none = pure blank_file
  load_file (some fj) =
      if J.is_object fj
      then (do
        file_type ← dup_json_string fj (codes "file_type")
        filename ← dup_json_string fj (codes "filename")
        sha256 ← dup_json_string fj (codes "sha256")
        path ← dup_json_string fj (codes "path")
        pure (record {
          file_type = file_type;
          filename = filename;
          size = json_u64 fj (codes "size");
          sha256 = sha256;
          path = path;
        }))
      else pure blank_file

  -- `for (k = i; k < i + n; k++)`
  unfoldable pub load_files : J.Value → ℕ → ℕ → Load (List ManifestFile)
  unfolding dup_json_string json_u64
  load_files files i zero = pure []
  load_files files i (suc n) = do
    f ← load_file (J.get_array_item files i)
    fs ← load_files files (i + 1) n
    pure (f ∷ fs)

  -- `calloc` and the loop, if the item is an array that is not empty.
  abbrev pub files_item : Option J.Value → Load (List ManifestFile)
  files_item none = pure []
  files_item (some files) =
      if J.is_array files
      then (if J.get_array_size files == 0 then pure [] else (do
        got ← ask P (λ w. P.malloc (J.get_array_size files * 40))
        check got no_manifest
        load_files files 0 (J.get_array_size files)))
      else pure []

  abbrev pub load_release : Option J.Value → Load ManifestRelease
  load_release none = pure blank_release
  load_release (some rj) =
      if J.is_object rj
      then (do
        device_id ← dup_json_string rj (codes "device_id")
        release_name ← dup_json_string rj (codes "release_name")
        release_version ← dup_json_string rj (codes "release_version")
        created ← dup_json_string rj (codes "created")
        files ← files_item (J.get_object_item rj (codes "files"))
        pure (record {
          device_id = device_id;
          release_name = release_name;
          release_version = release_version;
          created = created;
          files = files;
        }))
      else pure blank_release

  unfoldable pub load_releases : J.Value → ℕ → ℕ → Load (List ManifestRelease)
  unfolding load_files
  load_releases releases i zero = pure []
  load_releases releases i (suc n) = do
    r ← load_release (J.get_array_item releases i)
    rs ← load_releases releases (i + 1) n
    pure (r ∷ rs)

  abbrev pub releases_item : Option J.Value → Load (List ManifestRelease)
  releases_item none = pure []
  releases_item (some releases) =
      if J.is_array releases
      then (if J.get_array_size releases == 0 then pure [] else (do
        got ← ask P (λ w. P.malloc (J.get_array_size releases * 48))
        check got no_manifest
        load_releases releases 0 (J.get_array_size releases)))
      else pure []

  abbrev pub from_root : Option J.Value → Load Manifest
  from_root none = raise no_manifest
  from_root (some root) =
      if J.is_object root
      then (do
        got ← ask P (λ w. P.malloc 32)
        check got no_manifest
        manifest_version ← dup_json_string root (codes "manifest_version")
        created ← dup_json_string root (codes "created")
        releases ← releases_item (J.get_object_item root (codes "releases"))
        pure (record {
          manifest_version = manifest_version;
          created = created;
          releases = releases;
        }))
      else raise no_manifest

  -- `cJSON_Parse` of the text, and the manifest that its root describes.
  unfoldable pub parse_manifest : Bytes → Load Manifest
  unfolding load_releases c_string
  parse_manifest text = do root ← ask P (λ w. J.parse (c_string text)); from_root root

  abbrev pub read_sized : P.Stream → Option ℕ → Load Manifest
  read_sized fp none = raise no_manifest
  read_sized fp (some len) = do
    got ← ask P (λ w. P.malloc (len + 1))
    check got no_manifest
    parse_manifest (P.fread len fp).0

  abbrev pub read_open : Option P.Stream → Load Manifest
  read_open none = raise no_manifest
  read_open (some fp) = read_sized fp (P.file_size fp)

  unfoldable pub manifest_load : Bytes → Load Manifest
  unfolding parse_manifest
  manifest_load path = do fp ← ask P (P.fopen_rb path); read_open fp
