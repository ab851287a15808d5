-- ===== src/Hash/Ends.antt =====
-- The read loop of `sha256sum_file` ends.
use ota_fetch.Base.{
  ℕ, zero, suc, ◌+◌, ◌<◌, ◌≡◌, refl, ap, Bytes, length, length-append, Option, none, some, Bool,
  true, false, [], ◌∷◌, ◌++◌, arith, Exec,
}
use ota_fetch.Platform.{Platform, IsLawful, State, Crypto}
use ota_fetch.Platform.Totality.{Never, Never-bind, Never-ask, Never-or_raise, never_rules}
use ota_fetch.Hash.Digest.{
  HashError, out_of_fuel, eupdate, hash_loop, hash_chunk, hash_stream, sha256sum_file,
}

abbrev pub is_out_of_fuel : HashError → Bool
is_out_of_fuel out_of_fuel = true
is_out_of_fuel _ = false

module _ (P : Platform) (L : IsLawful P) (C : Crypto P) where
  hash_chunk-Never :
      (rest : P.Stream → C.Md → Exec (State P) HashError (C.Md × P.Stream)) (fuel : ℕ)
      → ((fp : P.Stream) (md : C.Md)
          → length (P.unread fp) < fuel
          → Never is_out_of_fuel (rest fp md))
      → (fp : P.Stream) (md : C.Md) (q : Bytes × P.Stream) → P.fread 4096 fp ≡ q
      → length (P.unread fp) < suc fuel
      → Never is_out_of_fuel (hash_chunk P C rest md q)
  hash_chunk-Never rest fuel ih fp md ([], fp') e h = search never_rules
  hash_chunk-Never rest fuel ih fp md (c ∷ buf, fp') e h =
      let got : (c ∷ buf) ++ P.unread fp' ≡ P.unread fp = rw e at (L.fread_unread 4096 fp) in
      let shorter : length (P.unread fp') < fuel =
        omega (arith, ap length got, length-append {0} (c ∷ buf) (P.unread fp')) in
      Never-bind _ _ (Never-ask P _)
        λ updated. Never-bind _ _ (Never-or_raise eupdate updated refl) λ md'. ih fp' md' shorter

  hash_loop-Never :
      (fuel : ℕ) (fp : P.Stream) (md : C.Md)
      → length (P.unread fp) < fuel
      → Never is_out_of_fuel (hash_loop P C fuel fp md)
  unfolding hash_loop
  hash_loop-Never zero fp md h = elim h [ ]
  hash_loop-Never (suc fuel) fp md h =
      hash_chunk-Never (hash_loop P C fuel) fuel (hash_loop-Never fuel) fp md _ refl h

  hash_loop-Never_of_stream :
      (fp : P.Stream) (md : C.Md)
      → Never is_out_of_fuel (hash_loop P C (length (P.unread fp) + 1) fp md)
  hash_loop-Never_of_stream fp md = hash_loop-Never _ fp md (omega arith)

  hash_stream-Never : (fp : P.Stream) → Never is_out_of_fuel (hash_stream P C fp)
  unfolding hash_stream
  hash_stream-Never fp = search (never_rules, hash_loop-Never_of_stream) depth 30

  -- `sha256sum_file` ends: it returns a digest or one of the codes of the source, and never runs out
  -- of rounds.
  pub sha256sum_file-Never : (path : Option Bytes) → Never is_out_of_fuel (sha256sum_file P C path)
  unfolding sha256sum_file
  sha256sum_file-Never none = search never_rules
  sha256sum_file-Never (some path) = search (never_rules, hash_stream-Never) depth 30
