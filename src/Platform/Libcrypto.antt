-- ===== src/Platform/Libcrypto.antt =====
-- libcrypto, as src/hash.c and src/verify_libcrypto.c call it. Handles are values: a digest or
-- signature context that has taken more data is another value.
use ota_fetch.Base.{ℕ, ◌<◌, ◌≡◌, Bytes, Option, some, Bool, true, [], ◌++◌}
use ota_fetch.Platform.Defs.{Platform}

-- `EVP_PKEY_base_id`.
pub data KeyType : Type 0 where
  ed25519 ec rsa other_key : KeyType

-- `EVP_DigestVerify` and `EVP_DigestVerifyFinal`: 1, 0, or a negative number.
pub data Verdict : Type 0 where
  accepted rejected broken : Verdict

pub record Crypto (P : Platform) : Type 1 where
  pub Md : Type 0
  pub Ctx : Type 0
  pub Cert : Type 0
  pub Store : Type 0
  pub Key : Type 0
  pub md_ctx_new : P.Oracle → Bool × P.Oracle
  -- EVP_DigestInit_ex, EVP_DigestUpdate and EVP_DigestFinal_ex with EVP_sha256.
  pub digest_init : P.Oracle → Option Md × P.Oracle
  pub digest_update : Bytes → Md → P.Oracle → Option Md × P.Oracle
  pub digest_final : Md → P.Oracle → Option Bytes × P.Oracle
  pub pem_read_x509 : P.Stream → P.Oracle → Option Cert × P.Oracle
  pub x509_store_new : P.Oracle → Bool × P.Oracle
  -- X509_STORE_load_locations with the path as a hashed directory (true) or as a bundle.
  pub load_locations : Bool → Bytes → P.World → P.Oracle → Option Store × P.Oracle
  pub store_ctx_new : P.Oracle → Bool × P.Oracle
  pub store_ctx_init : Store → Cert → P.Oracle → Bool × P.Oracle
  pub x509_verify_cert : Store → Cert → P.Oracle → Bool × P.Oracle
  pub x509_get_pubkey : Cert → P.Oracle → Option Key × P.Oracle
  pub base_id : Key → KeyType
  -- EVP_DigestVerifyInit, with EVP_sha256 (true) or without a digest.
  pub digest_verify_init : Bool → Key → P.Oracle → Option Ctx × P.Oracle
  pub digest_verify : Ctx → Bytes → Bytes → P.Oracle → Verdict × P.Oracle
  pub digest_verify_update : Bytes → Ctx → P.Oracle → Option Ctx × P.Oracle
  pub digest_verify_final : Ctx → Bytes → P.Oracle → Verdict × P.Oracle
  pub bio_new_file : Bytes → P.World → P.Oracle → Option P.Stream × P.Oracle
  -- `none` is a negative result, `some []` the end of the file.
  pub bio_read : ℕ → P.Stream → Option Bytes × P.Stream
  -- What the results stand for: the digest of a text, the data that a context has taken, the
  -- certificate that a PEM text holds and its key, trust in a certificate by the authorities at a
  -- path, and validity of a signature.
  pub sha256 : Bytes → Bytes
  pub absorbed : Md → Bytes
  pub ctx_key : Ctx → Key
  pub ctx_data : Ctx → Bytes
  pub Encodes : Bytes → Cert → Type 0
  pub KeyOf : Cert → Key → Type 0
  pub Trusted : Bytes → Cert → Type 0
  pub Signed : Key → Bytes → Bytes → Type 0

-- The documented behaviour of libcrypto that the program relies on.
pub record IsSound {P : Platform} (C : Crypto P) : Type 0 where
  pub digest_init_absorbed :
      (o : P.Oracle) (m : C.Md) → (C.digest_init o).0 ≡ some m → C.absorbed m ≡ []
  pub digest_update_absorbed :
      (b : Bytes) (m : C.Md) (o : P.Oracle) (m' : C.Md)
      → (C.digest_update b m o).0 ≡ some m'
      → C.absorbed m' ≡ C.absorbed m ++ b
  pub digest_final_sha256 :
      (m : C.Md) (o : P.Oracle) (d : Bytes)
      → (C.digest_final m o).0 ≡ some d
      → d ≡ C.sha256 (C.absorbed m)
  pub pem_read_x509_Encodes :
      (s : P.Stream) (o : P.Oracle) (c : C.Cert)
      → (C.pem_read_x509 s o).0 ≡ some c
      → C.Encodes (P.unread s) c
  pub x509_verify_cert_Trusted :
      (d : Bool) (p : Bytes) (w : P.World) (o : P.Oracle) (st : C.Store) (c : C.Cert)
      (o' : P.Oracle)
      → (C.load_locations d p w o).0 ≡ some st
      → (C.x509_verify_cert st c o').0 ≡ true
      → C.Trusted p c
  pub x509_get_pubkey_KeyOf :
      (c : C.Cert) (o : P.Oracle) (k : C.Key) → (C.x509_get_pubkey c o).0 ≡ some k → C.KeyOf c k
  pub digest_verify_init_key :
      (b : Bool) (k : C.Key) (o : P.Oracle) (x : C.Ctx)
      → (C.digest_verify_init b k o).0 ≡ some x
      → C.ctx_key x ≡ k
  pub digest_verify_init_data :
      (b : Bool) (k : C.Key) (o : P.Oracle) (x : C.Ctx)
      → (C.digest_verify_init b k o).0 ≡ some x
      → C.ctx_data x ≡ []
  pub digest_verify_Signed :
      (x : C.Ctx) (sig data_bytes : Bytes) (o : P.Oracle)
      → (C.digest_verify x sig data_bytes o).0 ≡ accepted
      → C.Signed (C.ctx_key x) sig data_bytes
  pub digest_verify_update_key :
      (b : Bytes) (x : C.Ctx) (o : P.Oracle) (x' : C.Ctx)
      → (C.digest_verify_update b x o).0 ≡ some x'
      → C.ctx_key x' ≡ C.ctx_key x
  pub digest_verify_update_data :
      (b : Bytes) (x : C.Ctx) (o : P.Oracle) (x' : C.Ctx)
      → (C.digest_verify_update b x o).0 ≡ some x'
      → C.ctx_data x' ≡ C.ctx_data x ++ b
  pub digest_verify_final_Signed :
      (x : C.Ctx) (sig : Bytes) (o : P.Oracle)
      → (C.digest_verify_final x sig o).0 ≡ accepted
      → C.Signed (C.ctx_key x) sig (C.ctx_data x)
  pub bio_new_file_unread :
      (p : Bytes) (w : P.World) (o : P.Oracle) (s : P.Stream)
      → (C.bio_new_file p w o).0 ≡ some s
      → P.file w p ≡ some (P.unread s)
  pub bio_read_unread :
      (n : ℕ) (s : P.Stream) (b : Bytes)
      → (C.bio_read n s).0 ≡ some b
      → b ++ P.unread (C.bio_read n s).1 ≡ P.unread s
  pub bio_read_end : (n : ℕ) (s : P.Stream) → 0 < n → (C.bio_read n s).0 ≡ some [] → P.unread s ≡ []
