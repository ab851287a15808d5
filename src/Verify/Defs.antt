-- ===== src/Verify/Defs.antt =====
-- The file readers of src/verify_libcrypto.c, and its result codes. Error texts are not modelled.
use ota_fetch.Base.{
  ℕ, Bytes, length, [], ◌==◌, leb, ltb, if◌then◌else◌, Exec, pure, check, ◌>>=◌, ◌>>◌,
}
use ota_fetch.Platform.{Platform, State, ask, or_raise}

-- `verify_result_t` without VERIFY_OK, and the end of the fuel.
pub data VerifyError : Type 0 where
  err_open_file err_load_cert err_load_ca err_cert_verify err_load_pubkey err_read_sig err_mem
        err_sig_verify err_hash err_read_data err_unknown out_of_fuel :
      VerifyError

-- `enum read_file_status` without READ_FILE_OK.
pub data ReadFileError : Type 0 where
  read_file_open read_file_read read_file_mem read_file_too_large : ReadFileError

abbrev pub sig_max_len : ℕ
sig_max_len = 16384

abbrev pub manifest_max_len : ℕ
manifest_max_len = 1048576

abbrev pub sig_ed25519_len : ℕ
sig_ed25519_len = 64

module _ (P : Platform) where
  -- `malloc(len)` and `fread`, which must deliver all of it.
  abbrev pub read_exactly : {E : Type 0} → E → E → ℕ → P.Stream → Exec (State P) E Bytes
  read_exactly no_memory short len fp = do
    got ← ask P (λ w. P.malloc len)
    check got no_memory
    check (length (P.fread len fp).0 == len) short
    pure (P.fread len fp).0

  unfoldable pub read_file_all : Bytes → Exec (State P) ReadFileError Bytes
  read_file_all path = do
    opened ← ask P (P.fopen_rb path)
    fp ← or_raise read_file_open opened
    file_len ← or_raise read_file_read (P.file_size fp)
    check (leb file_len manifest_max_len) read_file_too_large
    check (P.rewind fp) read_file_read
    if file_len == 0 then pure [] else read_exactly read_file_mem read_file_read file_len fp

  unfoldable pub read_signature_file : Bytes → Exec (State P) VerifyError Bytes
  read_signature_file sig_path = do
    opened ← ask P (P.fopen_rb sig_path)
    fp ← or_raise err_open_file opened
    file_len ← or_raise err_read_sig (P.file_size fp)
    check (ltb 0 file_len) err_read_sig
    check (leb file_len sig_max_len) err_read_sig
    check (P.rewind fp) err_read_sig
    read_exactly err_mem err_read_sig file_len fp
