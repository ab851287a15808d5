-- ===== src/Enroll/Token.antt =====
-- `read_token_file` of src/enroll.c. The loop over `fgetc` runs on one round more than the file has
-- bytes.
use ota_fetch.Base.{
  ℕ, zero, suc, ◌+◌, ◌*◌, ◌%◌, ◌^◌, Bytes, length, leb, ltb, not, ◌==◌, ◌&&◌, ◌||◌, Option, none,
  some, Bool, [], ◌∷◌, ◌++◌, if◌then◌else◌, pure, raise, check, ◌>>=◌, ◌>>◌,
}
use ota_fetch.Platform.{Platform, ask, or_raise}
use ota_fetch.Platform.Posix.{Posix}
use ota_fetch.Enroll.Paths.{failed, out_of_fuel, Enrolling}

-- `buf` with its `len` and `cap`.
pub record TokenBuffer : Type 0 where
  pub chars : Bytes
  pub cap : ℕ

abbrev pub empty_buffer : TokenBuffer
empty_buffer = record { chars = []; cap = 256 }

-- `isspace` in the C locale.
unfoldable pub isspace : ℕ → Bool
isspace c = c == 32 || (leb 9 c && leb c 13)

-- `while (start < len && isspace(buf[start])) start++`: what is left from `start` on.
unfoldable pub trim_start : Bytes → Bytes
unfolding isspace
trim_start [] = []
trim_start (c ∷ s) = if isspace c then trim_start s else c ∷ s

abbrev pub trim_last : ℕ → Bytes → Bytes
trim_last c [] = if isspace c then [] else c ∷ []
trim_last c (d ∷ s) = c ∷ d ∷ s

-- `while (len > 0 && isspace(buf[len - 1])) len--`: what is left up to `len`.
unfoldable pub trim_end : Bytes → Bytes
unfolding isspace
trim_end [] = []
trim_end (c ∷ s) = trim_last c (trim_end s)

module _ (P : Platform) (X : Posix P) where
  -- `buf[len++] = c`, behind the `realloc` that keeps room for one more.
  unfoldable pub push_char : TokenBuffer → ℕ → Enrolling P TokenBuffer
  push_char buf c =
      if leb buf.cap (length buf.chars + 1)
      then (do
        got ← ask P (λ w. P.malloc (buf.cap * 2 % 2 ^ 64))
        check got failed
        pure (record { chars = buf.chars ++ c ∷ []; cap = buf.cap * 2 % 2 ^ 64 }))
      else pure (record { chars = buf.chars ++ c ∷ []; cap = buf.cap })

  abbrev pub next_char :
      (P.Stream → TokenBuffer → Enrolling P (TokenBuffer × P.Stream))
      → TokenBuffer
      → Option ℕ × P.Stream
      → Enrolling P (TokenBuffer × P.Stream)
  next_char rest buf (none, fp) = pure (buf, fp)
  next_char rest buf (some c, fp) = do buf' ← push_char buf c; rest fp buf'

  unfoldable pub read_chars : ℕ → P.Stream → TokenBuffer → Enrolling P (TokenBuffer × P.Stream)
  unfolding push_char
  read_chars zero fp buf = raise out_of_fuel
  read_chars (suc fuel) fp buf = next_char (read_chars fuel) buf (X.fgetc fp)

  -- The bytes of the buffer from `start` to `len`; a caller that takes them as a C string sees them up to
  -- the first NUL.
  unfoldable pub read_token_file : Bytes → Enrolling P Bytes
  unfolding read_chars trim_start trim_end
  read_token_file path = do
    opened ← ask P (P.fopen_rb path)
    fp ← or_raise failed opened
    got ← ask P (λ w. P.malloc 256)
    check got failed
    done ← read_chars (length (P.unread fp) + 1) fp empty_buffer
    check (not (P.ferror done.1)) failed
    check (ltb 0 (length (trim_start (trim_end done.0.chars)))) failed
    pure (trim_start (trim_end done.0.chars))
