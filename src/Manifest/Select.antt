-- ===== src/Manifest/Select.antt =====
-- `manifest_select_release` and `manifest_release_select_file` of src/manifest.c.
use ota_fetch.Base.{
  Bytes, codes, bytes_eq, is_blank, Option, none, some, Bool, false, List, [], ◌∷◌, if◌then◌else◌,
}
use ota_fetch.Manifest.Defs.{Manifest, ManifestRelease, ManifestFile}

-- `s && strcmp(s, text) == 0`
unfoldable pub equals : Option Bytes → Bytes → Bool
equals none text = false
equals (some s) text = bytes_eq s text

unfoldable pub default_id : Bytes
default_id = codes "default"

-- The loop over the releases: the first whose `device_id` is the text.
unfoldable pub find_release : Bytes → List ManifestRelease → Option ManifestRelease
find_release id [] = none
find_release id (r ∷ rs) = if equals r.device_id id then some r else find_release id rs

-- What the exact match found, or else the fallback.
abbrev pub or_default : Option ManifestRelease → List ManifestRelease → Option ManifestRelease
or_default (some r) rs = some r
or_default none rs = find_release default_id rs

abbrev pub select_from : List ManifestRelease → Option Bytes → Option ManifestRelease
select_from rs none = find_release default_id rs
select_from rs (some id) =
    if is_blank (some id) then find_release default_id rs else or_default (find_release id rs) rs

unfoldable pub manifest_select_release : Option Manifest → Option Bytes → Option ManifestRelease
unfolding find_release default_id equals
manifest_select_release none device_id = none
manifest_select_release (some m) device_id = select_from m.releases device_id

unfoldable pub find_file : Bytes → List ManifestFile → Option ManifestFile
find_file ty [] = none
find_file ty (f ∷ fs) = if equals f.file_type ty then some f else find_file ty fs

abbrev pub or_first : Option ManifestFile → ManifestFile → Option ManifestFile
or_first (some f) first = some f
or_first none first = some first

abbrev pub select_file : List ManifestFile → Option Bytes → Option ManifestFile
select_file [] ty = none
select_file (f ∷ fs) none = some f
select_file (f ∷ fs) (some ty) =
    if is_blank (some ty) then some f else or_first (find_file ty (f ∷ fs)) f

unfoldable pub manifest_release_select_file :
    Option ManifestRelease → Option Bytes → Option ManifestFile
unfolding find_file equals
manifest_release_select_file none ty = none
manifest_release_select_file (some r) ty = select_file r.files ty
