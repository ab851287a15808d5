-- ===== src/Manifest/Reads.antt =====
-- Loading a manifest changes nothing but the oracle.
use ota_fetch.Base.{ℕ, zero, suc, ◌+◌, Bytes, Option, none, some, ◌∷◌}
use ota_fetch.Platform.{Platform, Cjson}
use ota_fetch.Platform.Steps.{Steps, Steps-bind, Steps-pure, only_reads, read_rules}
use ota_fetch.Manifest.Load.{
  duplicate, dup_json_string, load_file, load_files, files_item, load_release, load_releases,
  releases_item, from_root, parse_manifest, read_sized, read_open, manifest_load,
}

module _ (P : Platform) (J : Cjson P) where
  duplicate-only_reads : (s : Option Bytes) → Steps (only_reads P) (duplicate P J s)
  duplicate-only_reads none = search read_rules
  duplicate-only_reads (some s) = search read_rules depth 10

  dup_json_string-only_reads :
      (obj : J.Value) (key : Bytes) → Steps (only_reads P) (dup_json_string P J obj key)
  unfolding dup_json_string
  dup_json_string-only_reads obj key = duplicate-only_reads _

  load_file-only_reads : (fj : Option J.Value) → Steps (only_reads P) (load_file P J fj)
  load_file-only_reads none = search read_rules
  load_file-only_reads (some fj) = search (read_rules, dup_json_string-only_reads) depth 20

  load_files-only_reads :
      (files : J.Value) (i n : ℕ) → Steps (only_reads P) (load_files P J files i n)
  unfolding load_files
  load_files-only_reads files i zero = search read_rules
  load_files-only_reads files i (suc n) =
      Steps-bind _ _ (load_file-only_reads (J.get_array_item files i))
        λ f. Steps-bind _ _ (load_files-only_reads files (i + 1) n) λ fs. Steps-pure (f ∷ fs)

  files_item-only_reads : (files : Option J.Value) → Steps (only_reads P) (files_item P J files)
  files_item-only_reads none = search read_rules
  files_item-only_reads (some files) = search (read_rules, load_files-only_reads) depth 10

  load_release-only_reads : (rj : Option J.Value) → Steps (only_reads P) (load_release P J rj)
  load_release-only_reads none = search read_rules
  load_release-only_reads (some rj) =
      search (read_rules, dup_json_string-only_reads, files_item-only_reads) depth 20

  load_releases-only_reads :
      (releases : J.Value) (i n : ℕ) → Steps (only_reads P) (load_releases P J releases i n)
  unfolding load_releases
  load_releases-only_reads releases i zero = search read_rules
  load_releases-only_reads releases i (suc n) =
      Steps-bind _ _ (load_release-only_reads (J.get_array_item releases i))
        λ r. Steps-bind _ _ (load_releases-only_reads releases (i + 1) n) λ rs. Steps-pure (r ∷ rs)

  releases_item-only_reads : (rs : Option J.Value) → Steps (only_reads P) (releases_item P J rs)
  releases_item-only_reads none = search read_rules
  releases_item-only_reads (some rs) = search (read_rules, load_releases-only_reads) depth 10

  from_root-only_reads : (root : Option J.Value) → Steps (only_reads P) (from_root P J root)
  from_root-only_reads none = search read_rules
  from_root-only_reads (some root) =
      search (read_rules, dup_json_string-only_reads, releases_item-only_reads) depth 20

  read_sized-only_reads :
      (fp : P.Stream) (n : Option ℕ) → Steps (only_reads P) (read_sized P J fp n)
  unfolding parse_manifest
  read_sized-only_reads fp none = search read_rules
  read_sized-only_reads fp (some n) = search (read_rules, from_root-only_reads) depth 20

  read_open-only_reads : (fp : Option P.Stream) → Steps (only_reads P) (read_open P J fp)
  read_open-only_reads none = search read_rules
  read_open-only_reads (some fp) = read_sized-only_reads fp (P.file_size fp)

  pub manifest_load-only_reads : (path : Bytes) → Steps (only_reads P) (manifest_load P J path)
  unfolding manifest_load
  manifest_load-only_reads path = search (read_rules, read_open-only_reads) depth 10
