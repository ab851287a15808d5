-- ===== src/Hash/Hex.antt =====
-- `hex_encode` of src/hash.c. `size_t` has 64 bits, so `len * 2 + 1` wraps.
use ota_fetch.Base.{
  ℕ, ◌+◌, ◌-◌, ◌*◌, ◌/◌, ◌%◌, ◌^◌, Bytes, length, Option, none, some, [], ◌∷◌, ltb, if◌then◌else◌,
}

pub data HexError : Type 0 where
  bad_argument too_small : HexError

pub data HexResult : Type 0 where
  encoded : Bytes → HexResult
  failed : HexError → HexResult

-- `hexd[d]` for d < 16.
unfoldable pub hex_digit : ℕ → ℕ
hex_digit d = if ltb d 10 then b'0' + d else b'a' + d - 10

-- The two characters of each byte: `(in[i] >> 4) & 0xF` and `in[i] & 0xF`.
unfoldable pub hex_text : Bytes → Bytes
unfolding hex_digit
hex_text [] = []
hex_text (b ∷ bs) = hex_digit (b / 16 % 16) ∷ hex_digit (b % 16) ∷ hex_text bs

-- The string in `out` on success. A NULL `out` or `in` is `none`; `in` holds `len` bytes.
unfoldable pub hex_encode : Option ℕ → Option Bytes → HexResult
unfolding hex_text
hex_encode none data_bytes = failed bad_argument
hex_encode (some out_sz) none = failed bad_argument
hex_encode (some out_sz) (some bytes) =
    if ltb out_sz ((length bytes * 2 + 1) % 2 ^ 64)
    then failed too_small
    else encoded (hex_text bytes)
