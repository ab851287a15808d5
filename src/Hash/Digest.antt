-- ===== src/Hash/Digest.antt =====
-- `sha256sum_file` of src/hash.c. The read loop runs on fuel, one round more than the file has
-- bytes.
use ota_fetch.Base.{
  ℕ, zero, suc, ◌+◌, Bytes, length, Option, none, some, [], ◌∷◌, ◌==◌, not, Exec, pure, raise,
  check, ◌>>=◌, ◌>>◌,
}
use ota_fetch.Platform.{Platform, State, ask, or_raise, Crypto}

-- The negative values of `sha256sum_rc_t`, and the end of the fuel.
pub data HashError : Type 0 where
  eopen eread einval einit eupdate efinal out_of_fuel : HashError

module _ (P : Platform) (C : Crypto P) where
  abbrev pub Hashing : Type 0 → Type 0
  Hashing A = Exec (State P) HashError A

  -- while ((n = fread(buf, 1, sizeof(buf), fp)) > 0) EVP_DigestUpdate(ctx, buf, n)
  abbrev pub hash_chunk :
      (P.Stream → C.Md → Hashing (C.Md × P.Stream))
      → C.Md
      → Bytes × P.Stream
      → Hashing (C.Md × P.Stream)
  hash_chunk rest md ([], fp) = pure (md, fp)
  hash_chunk rest md (c ∷ buf, fp) = do
    updated ← ask P (λ w. C.digest_update (c ∷ buf) md)
    md' ← or_raise eupdate updated
    rest fp md'

  unfoldable pub hash_loop : ℕ → P.Stream → C.Md → Hashing (C.Md × P.Stream)
  hash_loop zero fp md = raise out_of_fuel
  hash_loop (suc fuel) fp md = hash_chunk (hash_loop fuel) md (P.fread 4096 fp)

  -- From the open file to the digest.
  unfoldable pub hash_stream : P.Stream → Hashing Bytes
  unfolding hash_loop
  hash_stream fp = do
    ctx ← ask P (λ w. C.md_ctx_new)
    check ctx einit
    started ← ask P (λ w. C.digest_init)
    md ← or_raise einit started
    done ← hash_loop (length (P.unread fp) + 1) fp md
    check (not (P.ferror done.1)) eread
    final ← ask P (λ w. C.digest_final done.0)
    digest ← or_raise efinal final
    check (length digest == 32) efinal
    pure digest

  -- `none` is a NULL path.
  unfoldable pub sha256sum_file : Option Bytes → Hashing Bytes
  unfolding hash_stream
  sha256sum_file none = raise einval
  sha256sum_file (some path) = do
    opened ← ask P (P.fopen_rb path)
    fp ← or_raise eopen opened
    hash_stream fp
