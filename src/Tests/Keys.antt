-- ===== src/Tests/Keys.antt =====
-- A libcrypto for the tests: a certificate is its text and its own key, an authority vouches for the
-- certificate whose text is the authority's path, a signature is the key followed by the data, and a
-- digest is the first 32 bytes of the padded text.
use ota_fetch.Base.{
  ℕ, ◌≡◌, refl, take, drop, take-append-drop, Bytes, bytes_eq, Option, some, Bool, true, false, [],
  ◌∷◌, ◌++◌, zero, suc,
}
use ota_fetch.Platform.{Child, Crypto, IsSound, rsa, Verdict, accepted, rejected}
use ota_fetch.Tests.Machine.{lookup, machine}
use ota_fetch.Tests.Lawful.{take-eq_nil}

abbrev pub zeros : ℕ → Bytes
zeros zero = []
zeros (suc n) = 0 ∷ zeros n

abbrev pub toy_sha256 : Bytes → Bytes
toy_sha256 contents = take 32 (contents ++ zeros 32)

abbrev pub verdict_of : Bool → Verdict
verdict_of true = accepted
verdict_of false = rejected

abbrev pub keys : (server : Bytes → Option Bytes) (child : Child) → Crypto (machine server child)
keys server child = record {
  Md = Bytes;
  Ctx = Bytes × Bytes;
  Cert = Bytes;
  Store = Bytes;
  Key = Bytes;
  md_ctx_new = λ o. (true, o);
  digest_init = λ o. (some [], o);
  digest_update = λ b m o. (some (m ++ b), o);
  digest_final = λ m o. (some (toy_sha256 m), o);
  pem_read_x509 = λ s o. (some s, o);
  x509_store_new = λ o. (true, o);
  load_locations = λ d p w o. (some p, o);
  store_ctx_new = λ o. (true, o);
  store_ctx_init = λ st c o. (true, o);
  x509_verify_cert = λ st c o. (bytes_eq st c, o);
  x509_get_pubkey = λ c o. (some c, o);
  base_id = λ k. rsa;
  digest_verify_init = λ b k o. (some (k, []), o);
  digest_verify = λ x sig contents o. (verdict_of (bytes_eq sig (x.0 ++ contents)), o);
  digest_verify_update = λ b x o. (some (x.0, x.1 ++ b), o);
  digest_verify_final = λ x sig o. (verdict_of (bytes_eq sig (x.0 ++ x.1)), o);
  bio_new_file = λ p w o. (lookup p w, o);
  bio_read = λ n s. (some (take n s), drop n s);
  sha256 = toy_sha256;
  absorbed = λ m. m;
  ctx_key = λ x. x.0;
  ctx_data = λ x. x.1;
  Encodes = λ pem c. pem ≡ c;
  KeyOf = λ c k. c ≡ k;
  Trusted = λ p c. bytes_eq p c ≡ true;
  Signed = λ k sig contents. bytes_eq sig (k ++ contents) ≡ true;
}

accepted-eq_true : (b : Bool) → verdict_of b ≡ accepted → b ≡ true
accepted-eq_true true h = refl
accepted-eq_true false h = absurd (cc)

trusts : (p st c : Bytes) → some p ≡ some st → bytes_eq st c ≡ true → bytes_eq p c ≡ true
trusts p st c e h = let same : p ≡ st = cc in rw same h

pub keys-IsSound : (server : Bytes → Option Bytes) (child : Child) → IsSound (keys server child)
keys-IsSound server child = record {
  digest_init_absorbed = λ o m h. cc;
  digest_update_absorbed = λ b m o m' h. cc;
  digest_final_sha256 = λ m o d h. cc;
  pem_read_x509_Encodes = λ s o c h. cc;
  x509_verify_cert_Trusted = λ d p w o st c o' h k. trusts p st c h k;
  x509_get_pubkey_KeyOf = λ c o k h. cc;
  digest_verify_init_key = λ b k o x h. cc;
  digest_verify_init_data = λ b k o x h. cc;
  digest_verify_Signed = λ x sig contents o h. accepted-eq_true _ h;
  digest_verify_update_key = λ b x o x' h. cc;
  digest_verify_update_data = λ b x o x' h. cc;
  digest_verify_final_Signed = λ x sig o h. accepted-eq_true _ h;
  bio_new_file_unread = λ p w o s h. h;
  bio_read_unread = λ n s b h. let same : take n s ≡ b = cc in rw (← same) (take-append-drop n s);
  bio_read_end = λ n s h e. take-eq_nil n s h (cc);
}
