-- ===== src/Verify/Ends.antt =====
-- The read loop of `verify_rsa_ecdsa_signature` ends, and so does the verification.
use ota_fetch.Base.{
  ℕ, zero, suc, ◌+◌, ◌<◌, ◌≡◌, refl, ap, Bytes, length, length-append, Option, none, some, Bool,
  true, false, [], ◌∷◌, ◌++◌, arith, Exec, Result, ok, err,
}
use ota_fetch.Platform.{
  Platform, State, Crypto, IsSound, KeyType, ed25519, ec, rsa, other_key, Verdict, accepted,
  rejected, broken,
}
use ota_fetch.Platform.Totality.{Never, Never-bind, Never-ask, Never-or_raise, never_rules}
use ota_fetch.Verify.Defs.{
  VerifyError, out_of_fuel, err_hash, ReadFileError, read_file_open, read_file_read, read_file_mem,
  read_file_too_large, read_signature_file,
}
use ota_fetch.Verify.Pipeline.{
  conclude, or_report, load_signer_cert, load_ca_store, verify_signer_cert, load_public_key,
  verify_chunk, verify_loop, verify_by_type, verify_paths, verify_signature_with_cert,
}

abbrev pub is_out_of_fuel : VerifyError → Bool
is_out_of_fuel out_of_fuel = true
is_out_of_fuel _ = false

module _ (P : Platform) (C : Crypto P) (D : IsSound C) where
  verify_chunk-Never :
      (rest : P.Stream → C.Ctx → Exec (State P) VerifyError C.Ctx) (fuel : ℕ)
      → ((bio : P.Stream) (ctx : C.Ctx)
          → length (P.unread bio) < fuel
          → Never is_out_of_fuel (rest bio ctx))
      → (bio : P.Stream) (ctx : C.Ctx) (q : Option Bytes × P.Stream) → C.bio_read 4096 bio ≡ q
      → length (P.unread bio) < suc fuel
      → Never is_out_of_fuel (verify_chunk P C rest ctx q)
  verify_chunk-Never rest fuel ih bio ctx (none, bio') e h = search never_rules
  verify_chunk-Never rest fuel ih bio ctx (some [], bio') e h = search never_rules
  verify_chunk-Never rest fuel ih bio ctx (some (c ∷ buf), bio') e h =
      let got : (c ∷ buf) ++ P.unread bio' ≡ P.unread bio =
        (rw e at (D.bio_read_unread 4096 bio (c ∷ buf))) refl in
      let shorter : length (P.unread bio') < fuel =
        omega (arith, ap length got, length-append {0} (c ∷ buf) (P.unread bio')) in
      Never-bind _ _ (Never-ask P _) λ updated.
        Never-bind _ _ (Never-or_raise err_hash updated refl) λ ctx'. ih bio' ctx' shorter

  verify_loop-Never :
      (fuel : ℕ) (bio : P.Stream) (ctx : C.Ctx)
      → length (P.unread bio) < fuel
      → Never is_out_of_fuel (verify_loop P C fuel bio ctx)
  unfolding verify_loop
  verify_loop-Never zero bio ctx h = elim h [ ]
  verify_loop-Never (suc fuel) bio ctx h =
      verify_chunk-Never (verify_loop P C fuel) fuel (verify_loop-Never fuel) bio ctx _ refl h

  verify_loop-Never_of_stream :
      (bio : P.Stream) (ctx : C.Ctx)
      → Never is_out_of_fuel (verify_loop P C (length (P.unread bio) + 1) bio ctx)
  verify_loop-Never_of_stream bio ctx = verify_loop-Never _ bio ctx (omega arith)

  conclude-Never : (v : Verdict) → Never is_out_of_fuel (conclude P C v)
  conclude-Never accepted = search never_rules
  conclude-Never rejected = search never_rules
  conclude-Never broken = search never_rules

  or_report-Never : (r : Result ReadFileError Bytes) → Never is_out_of_fuel (or_report P C r)
  or_report-Never (ok contents) = search never_rules
  or_report-Never (err read_file_open) = search never_rules
  or_report-Never (err read_file_read) = search never_rules
  or_report-Never (err read_file_mem) = search never_rules
  or_report-Never (err read_file_too_large) = search never_rules

  verify_by_type-Never :
      (ty : KeyType) (path : Bytes) (key : C.Key) (sig : Bytes)
      → Never is_out_of_fuel (verify_by_type P C ty path key sig)
  unfolding verify_by_type
  verify_by_type-Never ed25519 path key sig =
      search (never_rules, or_report-Never, conclude-Never) depth 30
  verify_by_type-Never ec path key sig =
      search (never_rules, verify_loop-Never_of_stream, conclude-Never) depth 30
  verify_by_type-Never rsa path key sig =
      search (never_rules, verify_loop-Never_of_stream, conclude-Never) depth 30
  verify_by_type-Never other_key path key sig = search never_rules

  -- `verify_signature_with_cert` ends: it accepts or returns one of the codes of the source, and
  -- never runs out of rounds.
  pub verify_signature_with_cert-Never :
      (data_path sig_path cert_path ca_path : Option Bytes)
      → Never is_out_of_fuel (verify_signature_with_cert P C data_path sig_path cert_path ca_path)
  unfolding verify_signature_with_cert verify_paths load_signer_cert load_ca_store
      verify_signer_cert load_public_key read_signature_file
  verify_signature_with_cert-Never (some a) (some b) (some c) (some d) =
      search (never_rules, verify_by_type-Never) depth 40
  verify_signature_with_cert-Never _ _ _ _ = search never_rules
