-- ===== src/Hash/Roundtrip.antt =====
-- What `hex_encode` of src/hash.c writes can be read back, so that two digests have the same text
-- only if they are the same.
use ota_fetch.Base.{
  ℕ, ◌+◌, ◌-◌, ◌*◌, ◌/◌, ◌%◌, ◌^◌, ◌<◌, ◌≡◌, refl, ap, sym, ◌∙◌, Bytes, length, some, [], ◌∷◌, ltb,
  arith, if◌then◌else◌,
}
use ota_fetch.Hash.Hex.{encoded, failed, too_small, hex_digit, hex_text, hex_encode}

abbrev pub AllBytes : Bytes → Type 0
AllBytes [] = Unit {0}
AllBytes (b ∷ bs) = (b < 256) × AllBytes bs

-- The value of a lowercase hexadecimal digit.
unfoldable pub hex_value : ℕ → ℕ
hex_value c = if ltb c b'a' then c - b'0' else c - b'a' + 10

-- Reads two digits for each byte.
unfoldable pub hex_decode : Bytes → Bytes
unfolding hex_value
hex_decode [] = []
hex_decode (c ∷ []) = []
hex_decode (c ∷ d ∷ s) = (hex_value c * 16 + hex_value d) ∷ hex_decode s

hex_value-hex_digit : (d : ℕ) → d < 16 → hex_value (hex_digit d) ≡ d
unfolding hex_value hex_digit
hex_value-hex_digit d h = ground arith

two_digits :
    (b : ℕ)
    → b < 256
    → hex_value (hex_digit (b / 16 % 16)) * 16 + hex_value (hex_digit (b % 16)) ≡ b
two_digits b h = omega (
  arith,
  hex_value-hex_digit (b / 16 % 16) (omega arith),
  hex_value-hex_digit (b % 16) (omega arith),
)

pub hex_decode-hex_text : (bs : Bytes) → AllBytes bs → hex_decode (hex_text bs) ≡ bs
unfolding hex_decode hex_text
hex_decode-hex_text [] h = refl
hex_decode-hex_text (b ∷ bs) (h, hs) = λ i. two_digits b h i ∷ hex_decode-hex_text bs hs i

pub length-hex_text : (bs : Bytes) → length (hex_text bs) ≡ length bs * 2
unfolding hex_text
length-hex_text [] = omega arith
length-hex_text (b ∷ bs) = omega (arith, length-hex_text bs)

-- Two digests of bytes have one text only if they are equal.
pub hex_text-injective :
    (xs ys : Bytes) → AllBytes xs → AllBytes ys → hex_text xs ≡ hex_text ys → xs ≡ ys
hex_text-injective xs ys hx hy e =
    sym (hex_decode-hex_text xs hx) ∙ ap hex_decode e ∙ hex_decode-hex_text ys hy

-- With a buffer that has room for the text and its terminator, and fewer than 2 ^ 62 bytes,
-- `hex_encode` writes a text of two digits a byte, from which the bytes can be read back; with a
-- smaller buffer it fails and says so.
pub hex_encode-hex_decode :
    (out_sz : ℕ) (bs : Bytes)
    → AllBytes bs
    → length bs < 2 ^ 62
    → (hex_encode (some out_sz) (some bs)
        ≡ (if ltb out_sz (length bs * 2 + 1) then failed too_small else encoded (hex_text bs)))
      × (length (hex_text bs) ≡ length bs * 2)
      × (hex_decode (hex_text bs) ≡ bs)
unfolding hex_encode
hex_encode-hex_decode out_sz bs h small =
    let room : (length bs * 2 + 1) % 2 ^ 64 ≡ length bs * 2 + 1 = omega arith in
    (rw room, length-hex_text bs, hex_decode-hex_text bs h)
