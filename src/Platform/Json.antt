-- ===== src/Platform/Json.antt =====
-- cJSON, as src/manifest.c calls it, and the `double` that it stores numbers in.
use ota_fetch.Base.{ℕ, Bytes, Option, Bool}
use ota_fetch.Platform.Defs.{Platform}

pub record Cjson (P : Platform) : Type 1 where
  pub Value : Type 0
  pub Double : Type 0
  pub parse : Bytes → P.Oracle → Option Value × P.Oracle
  pub is_object : Value → Bool
  pub is_array : Value → Bool
  -- `valuestring` of a value that is a string; `none` for another value.
  pub string_of : Value → Option Bytes
  -- `valuedouble` of a value that is a number; `none` for another value.
  pub number_of : Value → Option Double
  pub get_object_item : Value → Bytes → Option Value
  pub get_array_size : Value → ℕ
  pub get_array_item : Value → ℕ → Option Value
  -- `v < 0`, and `(uint64_t)v`.
  pub is_negative : Double → Bool
  pub to_u64 : Double → ℕ
