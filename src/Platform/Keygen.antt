-- ===== src/Platform/Keygen.antt =====
-- libcrypto, as `generate_key_and_csr` of src/enroll.c calls it. A context, a name or a request that
-- has been changed is another value.
use ota_fetch.Base.{ℕ, ◌≡◌, Bytes, Option, some, Bool}
use ota_fetch.Platform.Defs.{Platform}

pub record Keygen (P : Platform) : Type 1 where
  pub KeyCtx : Type 0
  pub Pkey : Type 0
  pub Name : Type 0
  pub Req : Type 0
  -- EVP_PKEY_CTX_new_id(EVP_PKEY_RSA), EVP_PKEY_keygen_init, EVP_PKEY_CTX_set_rsa_keygen_bits and
  -- EVP_PKEY_keygen.
  pub key_ctx_new : P.Oracle → Option KeyCtx × P.Oracle
  pub keygen_init : KeyCtx → P.Oracle → Option KeyCtx × P.Oracle
  pub set_keygen_bits : ℕ → KeyCtx → P.Oracle → Option KeyCtx × P.Oracle
  pub keygen : KeyCtx → P.Oracle → Option Pkey × P.Oracle
  pub req_new : P.Oracle → Option Req × P.Oracle
  pub set_version : ℕ → Req → P.Oracle → Option Req × P.Oracle
  pub name_new : P.Oracle → Option Name × P.Oracle
  -- X509_NAME_add_entry_by_txt for "CN".
  pub add_common_name : Bytes → Name → P.Oracle → Option Name × P.Oracle
  pub set_subject_name : Name → Req → P.Oracle → Option Req × P.Oracle
  pub set_pubkey : Pkey → Req → P.Oracle → Option Req × P.Oracle
  -- X509_REQ_sign with EVP_sha256.
  pub sign : Pkey → Req → P.Oracle → Option Req × P.Oracle
  pub bio_new : P.Oracle → Bool × P.Oracle
  -- PEM_write_bio_PrivateKey and PEM_write_bio_X509_REQ, and what they put into the memory BIO.
  pub write_private_key : Pkey → P.Oracle → Option Bytes × P.Oracle
  pub write_req : Req → P.Oracle → Option Bytes × P.Oracle
  -- What the values stand for: the size of a key, the names and the key in a request, and what a PEM
  -- text holds.
  pub ctx_bits : KeyCtx → ℕ
  pub key_bits : Pkey → ℕ
  pub common_name : Name → Option Bytes
  pub subject : Req → Option Bytes
  pub req_key : Req → Option Pkey
  pub SignedBy : Req → Pkey → Type 0
  pub HoldsKey : Bytes → Pkey → Type 0
  pub HoldsReq : Bytes → Req → Type 0

-- The documented behaviour that the program relies on.
pub record IsKeygen {P : Platform} (K : Keygen P) : Type 0 where
  pub set_keygen_bits_bits :
      (n : ℕ) (k : K.KeyCtx) (o : P.Oracle) (k' : K.KeyCtx)
      → (K.set_keygen_bits n k o).0 ≡ some k'
      → K.ctx_bits k' ≡ n
  pub keygen_bits :
      (k : K.KeyCtx) (o : P.Oracle) (p : K.Pkey)
      → (K.keygen k o).0 ≡ some p
      → K.key_bits p ≡ K.ctx_bits k
  pub add_common_name_name :
      (cn : Bytes) (n : K.Name) (o : P.Oracle) (n' : K.Name)
      → (K.add_common_name cn n o).0 ≡ some n'
      → K.common_name n' ≡ some cn
  pub set_subject_name_subject :
      (n : K.Name) (r : K.Req) (o : P.Oracle) (r' : K.Req)
      → (K.set_subject_name n r o).0 ≡ some r'
      → K.subject r' ≡ K.common_name n
  pub set_pubkey_key :
      (p : K.Pkey) (r : K.Req) (o : P.Oracle) (r' : K.Req)
      → (K.set_pubkey p r o).0 ≡ some r'
      → K.req_key r' ≡ some p
  pub set_pubkey_subject :
      (p : K.Pkey) (r : K.Req) (o : P.Oracle) (r' : K.Req)
      → (K.set_pubkey p r o).0 ≡ some r'
      → K.subject r' ≡ K.subject r
  pub sign_signed :
      (p : K.Pkey) (r : K.Req) (o : P.Oracle) (r' : K.Req)
      → (K.sign p r o).0 ≡ some r'
      → K.SignedBy r' p
  pub sign_key :
      (p : K.Pkey) (r : K.Req) (o : P.Oracle) (r' : K.Req)
      → (K.sign p r o).0 ≡ some r'
      → K.req_key r' ≡ K.req_key r
  pub sign_subject :
      (p : K.Pkey) (r : K.Req) (o : P.Oracle) (r' : K.Req)
      → (K.sign p r o).0 ≡ some r'
      → K.subject r' ≡ K.subject r
  pub write_private_key_holds :
      (p : K.Pkey) (o : P.Oracle) (pem : Bytes)
      → (K.write_private_key p o).0 ≡ some pem
      → K.HoldsKey pem p
  pub write_req_holds :
      (r : K.Req) (o : P.Oracle) (pem : Bytes) → (K.write_req r o).0 ≡ some pem → K.HoldsReq pem r
