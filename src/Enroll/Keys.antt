-- ===== src/Enroll/Keys.antt =====
-- `generate_key_and_csr` of src/enroll.c.
use ota_fetch.Base.{
  ◌+◌, Bytes, codes, length, ltb, ◌&&◌, Option, none, some, [], ◌∷◌, pure, check, ◌>>=◌, ◌>>◌,
}
use ota_fetch.Platform.{Platform, ask, or_raise}
use ota_fetch.Platform.Keygen.{Keygen}
use ota_fetch.Enroll.Paths.{failed, Enrolling}

-- `*key_pem_out` and `*csr_pem_out`.
pub record KeyAndCsr : Type 0 where
  pub key_pem : Bytes
  pub csr_pem : Bytes

abbrev pub text_or_default : Option Bytes → Bytes
text_or_default none = codes "ota-fetch"
text_or_default (some []) = codes "ota-fetch"
text_or_default (some (c ∷ s)) = c ∷ s

module _ (P : Platform) (K : Keygen P) where
  abbrev pub given : {A : Type 0} → (P.Oracle → Option A × P.Oracle) → Enrolling P A
  given call = do answer ← ask P (λ w. call); or_raise failed answer

  -- From EVP_PKEY_CTX_new_id to EVP_PKEY_keygen.
  unfoldable pub generate_key : Enrolling P K.Pkey
  generate_key = do
    key_ctx ← given K.key_ctx_new
    inited ← given (K.keygen_init key_ctx)
    sized ← given (K.set_keygen_bits 2048 inited)
    given (K.keygen sized)

  -- From X509_REQ_new to X509_REQ_sign.
  unfoldable pub build_req : K.Pkey → Option Bytes → Enrolling P K.Req
  build_req pkey device_id = do
    req ← given K.req_new
    versioned ← given (K.set_version 0 req)
    name ← given K.name_new
    named ← given (K.add_common_name (text_or_default device_id) name)
    titled ← given (K.set_subject_name named versioned)
    keyed ← given (K.set_pubkey pkey titled)
    given (K.sign pkey keyed)

  -- The two memory BIOs and the copies of what they hold.
  unfoldable pub print_pems : K.Pkey → K.Req → Enrolling P KeyAndCsr
  print_pems pkey req = do
    key_bio ← ask P (λ w. K.bio_new)
    csr_bio ← ask P (λ w. K.bio_new)
    check (key_bio && csr_bio) failed
    key_pem ← given (K.write_private_key pkey)
    csr_pem ← given (K.write_req req)
    check (ltb 0 (length key_pem) && ltb 0 (length csr_pem)) failed
    key_room ← ask P (λ w. P.malloc (length key_pem + 1))
    csr_room ← ask P (λ w. P.malloc (length csr_pem + 1))
    check (key_room && csr_room) failed
    pure (record { key_pem = key_pem; csr_pem = csr_pem })

  unfoldable pub generate_key_and_csr : Option Bytes → Enrolling P KeyAndCsr
  unfolding generate_key build_req print_pems
  generate_key_and_csr device_id = do
    pkey ← generate_key
    req ← build_req pkey device_id
    print_pems pkey req
