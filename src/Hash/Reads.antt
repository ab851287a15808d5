-- ===== src/Hash/Reads.antt =====
-- Hashing a file changes nothing but the oracle.
use ota_fetch.Base.{ℕ, zero, suc, Bytes, Option, none, some, [], ◌∷◌, Exec}
use ota_fetch.Platform.{Platform, State, Crypto}
use ota_fetch.Platform.Steps.{Steps, only_reads, read_rules}
use ota_fetch.Hash.Digest.{HashError, hash_loop, hash_chunk, hash_stream, sha256sum_file}

module _ (P : Platform) (C : Crypto P) where
  hash_chunk-only_reads :
      (rest : P.Stream → C.Md → Exec (State P) HashError (C.Md × P.Stream))
      → ((fp : P.Stream) (md : C.Md) → Steps (only_reads P) (rest fp md))
      → (md : C.Md) (q : Bytes × P.Stream) → Steps (only_reads P) (hash_chunk P C rest md q)
  hash_chunk-only_reads rest ih md ([], fp) = search read_rules
  hash_chunk-only_reads rest ih md (c ∷ buf, fp) = search (read_rules, ih) depth 10

  hash_loop-only_reads :
      (fuel : ℕ) (fp : P.Stream) (md : C.Md) → Steps (only_reads P) (hash_loop P C fuel fp md)
  unfolding hash_loop
  hash_loop-only_reads zero fp md = search read_rules
  hash_loop-only_reads (suc fuel) fp md =
      hash_chunk-only_reads (hash_loop P C fuel) (hash_loop-only_reads fuel) md (P.fread 4096 fp)

  pub sha256sum_file-only_reads :
      (path : Option Bytes) → Steps (only_reads P) (sha256sum_file P C path)
  unfolding sha256sum_file hash_stream
  sha256sum_file-only_reads none = search read_rules
  sha256sum_file-only_reads (some path) = search (read_rules, hash_loop-only_reads) depth 30
