-- ===== src/Platform/Http.antt =====
-- libcurl and cJSON, as src/enroll.c calls them: a POST whose answer arrives in pieces, and the printing
-- of an object.
use ota_fetch.Base.{ℕ, ℤ, ◌≡◌, ◌≢◌, Bytes, Option, none, some, List, [], ◌∷◌, ◌++◌, Bool, ◌⊎◌}
use ota_fetch.Platform.Defs.{Platform}
use ota_fetch.Platform.Json.{Cjson}

-- The libcurl options that the request sets.
pub record PostRequest : Type 0 where
  pub url : Bytes
  pub headers : List Bytes
  pub fields : Bytes
  pub connect_timeout : Option ℤ
  pub transfer_timeout : Option ℤ
  pub low_speed : Option (ℤ × ℤ)
  pub ca_info : Option Bytes

-- The pieces of the body for the write callback, `curl_easy_perform(curl) == CURLE_OK` if the callback
-- takes them all, and CURLINFO_RESPONSE_CODE.
pub record PostAnswer : Type 0 where
  pub pieces : List Bytes
  pub curle_ok : Bool
  pub http_code : ℕ

pub record Http (P : Platform) : Type 0 where
  -- `curl_slist_append`; the empty list is NULL.
  pub slist_append : List Bytes → Bytes → P.Oracle → List Bytes × P.Oracle
  pub post : PostRequest → P.Oracle → PostAnswer × P.Oracle

-- The documented behaviour that the program relies on: the text is appended, or the result is NULL.
pub record IsAppending {P : Platform} (N : Http P) : Type 0 where
  pub slist_append_result :
      (l : List Bytes) (text : Bytes) (o : P.Oracle)
      → ((N.slist_append l text o).0 ≡ l ++ text ∷ []) ⊎ ((N.slist_append l text o).0 ≡ [])

pub record CjsonPrint (P : Platform) (J : Cjson P) : Type 1 where
  pub create_object : P.Oracle → Option J.Value × P.Oracle
  pub add_string_to_object : J.Value → Bytes → Bytes → P.Oracle → Option J.Value × P.Oracle
  pub print_unformatted : J.Value → P.Oracle → Option Bytes × P.Oracle
  -- The text is the value's.
  pub Prints : Bytes → J.Value → Type 0

-- The documented behaviour that the program relies on.
pub record IsPrinting {P : Platform} {J : Cjson P} (W : CjsonPrint P J) : Type 0 where
  pub create_object_empty :
      (o : P.Oracle) (v : J.Value) (key : Bytes)
      → (W.create_object o).0 ≡ some v
      → J.get_object_item v key ≡ none
  pub add_string_to_object_other :
      (v : J.Value) (key text : Bytes) (o : P.Oracle) (v' : J.Value) (other : Bytes)
      → (W.add_string_to_object v key text o).0 ≡ some v'
      → other ≢ key
      → J.get_object_item v' other ≡ J.get_object_item v other
  pub add_string_to_object_item :
      (v : J.Value) (key text : Bytes) (o : P.Oracle) (v' : J.Value)
      → (W.add_string_to_object v key text o).0 ≡ some v'
      → J.get_object_item v key ≡ none
      → (it : J.Value) × (J.get_object_item v' key ≡ some it) × (J.string_of it ≡ some text)
  pub print_unformatted_prints :
      (v : J.Value) (o : P.Oracle) (text : Bytes)
      → (W.print_unformatted v o).0 ≡ some text
      → W.Prints text v
