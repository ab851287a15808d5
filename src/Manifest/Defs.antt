-- ===== src/Manifest/Defs.antt =====
-- The records of src/manifest.h. An array that `calloc` left out is the empty list.
use ota_fetch.Base.{ℕ, Bytes, Option, none, List, []}

pub record ManifestFile : Type 0 where
  pub file_type : Option Bytes
  pub filename : Option Bytes
  pub size : ℕ
  pub sha256 : Option Bytes
  pub path : Option Bytes

pub record ManifestRelease : Type 0 where
  pub device_id : Option Bytes
  pub release_name : Option Bytes
  pub release_version : Option Bytes
  pub created : Option Bytes
  pub files : List ManifestFile

pub record Manifest : Type 0 where
  pub manifest_version : Option Bytes
  pub created : Option Bytes
  pub releases : List ManifestRelease

-- Entries as `calloc` leaves them.
abbrev pub blank_file : ManifestFile
blank_file = record { file_type = none; filename = none; size = 0; sha256 = none; path = none }

abbrev pub blank_release : ManifestRelease
blank_release = record {
  device_id = none;
  release_name = none;
  release_version = none;
  created = none;
  files = [];
}
