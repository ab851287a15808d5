-- ===== src/Enroll/Request.antt =====
-- The request and the answer of src/enroll.c: `write_callback`, `derive_enroll_url`,
-- `build_enroll_request_json`, `parse_enroll_response` and `post_enroll_request`. Arguments that
-- `ota_fetch_enroll` has found to be set are not NULL here.
use ota_fetch.Base.{
  ℕ, ◌+◌, Bytes, codes, length, leb, ltb, not, ◌==◌, ◌&&◌, ◌||◌, is_positive, Option, none, some,
  Bool, true, false, List, [], ◌∷◌, ◌++◌, if◌then◌else◌, pure, raise, check, ◌>>=◌, ◌>>◌, ℤ,
}
use ota_fetch.Platform.{Platform, ask, or_raise, Cjson}
use ota_fetch.Platform.Http.{PostRequest, Http, CjsonPrint}
use ota_fetch.Config.{Config}
use ota_fetch.Manifest.Load.{c_string}
use ota_fetch.Enroll.Paths.{failed, Enrolling}

-- `s[len - 1] == c`
unfoldable pub ends_with : ℕ → Bytes → Bool
ends_with c [] = false
ends_with c (d ∷ []) = d == c
ends_with c (d ∷ e ∷ s) = ends_with c (e ∷ s)

-- An option that is only set if the text is there and not empty, or the number positive.
abbrev pub if_given : Option Bytes → Option Bytes
if_given none = none
if_given (some []) = none
if_given (some (c ∷ s)) = some (c ∷ s)

abbrev pub if_positive : ℤ → Option ℤ
if_positive n = if is_positive n then some n else none

unfoldable pub post_request_of : Bytes → Config → List Bytes → Bytes → PostRequest
post_request_of url cfg headers request_json = record {
  url = url;
  headers = headers;
  fields = request_json;
  connect_timeout = if_positive cfg.connect_timeout;
  transfer_timeout = if_positive cfg.transfer_timeout;
  low_speed =
      if is_positive cfg.low_speed_limit && is_positive cfg.low_speed_time
      then some (cfg.low_speed_limit, cfg.low_speed_time)
      else none;
  ca_info = if_given cfg.tls_ca_cert;
}

-- `cert_text` and `chain_text`, with a newline between them if the first does not end in one.
unfoldable pub combine : Bytes → Option Bytes → Bytes
unfolding ends_with
combine cert none = cert
combine cert (some chain) = if ends_with 10 cert then cert ++ chain else cert ++ 10 ∷ chain

module _ (P : Platform) where
  abbrev pub derive_from : Bytes → Enrolling P (Option Bytes)
  derive_from server_url = do
    got ← ask P (λ w. P.malloc (length server_url + (if ends_with b'/' server_url then 7 else 8)))
    pure (
        if got
        then some
            (server_url ++ (if ends_with b'/' server_url then codes "enroll" else codes "/enroll"))
        else none)

  unfoldable pub derive_enroll_url : Option Bytes → Enrolling P (Option Bytes)
  unfolding ends_with
  derive_enroll_url none = pure none
  derive_enroll_url (some []) = pure none
  derive_enroll_url (some (c ∷ s)) = derive_from (c ∷ s)

  -- `write_callback` for each piece; the first that finds no memory ends the transfer.
  unfoldable pub take_pieces : Bytes → List Bytes → Enrolling P (Bytes × Bool)
  take_pieces mem [] = pure (mem, true)
  take_pieces mem (piece ∷ pieces) = do
    got ← ask P (λ w. P.malloc (length mem + length piece + 1))
    (let later = take_pieces (mem ++ piece) pieces in if got then later else pure (mem, false))

  unfoldable pub post_enroll_request : Http P → Bytes → Config → Bytes → Bytes → Enrolling P Bytes
  unfolding post_request_of take_pieces c_string
  post_enroll_request N url cfg token request_json = do
    got ←
        ask P
          (λ w. P.malloc (length (codes "Authorization: Bearer ") + length (c_string token) + 1))
    check got failed
    curl ← ask P (λ w. P.curl_easy_init)
    check curl failed
    typed ← ask P (λ w. N.slist_append [] (codes "Content-Type: application/json"))
    accepting ← ask P (λ w. N.slist_append typed (codes "Accept: application/json"))
    headers ←
        ask P (λ w. N.slist_append accepting (codes "Authorization: Bearer " ++ c_string token))
    answer ← ask P (λ w. N.post (post_request_of url cfg headers request_json))
    taken ← take_pieces [] answer.pieces
    check (answer.curle_ok && taken.1) failed
    check (not (ltb answer.http_code 200 || leb 300 answer.http_code)) failed
    check (ltb 0 (length taken.0)) failed
    pure taken.0

  module _ (J : Cjson P) where
    abbrev pub add_device_id : CjsonPrint P J → J.Value → Option Bytes → Enrolling P J.Value
    add_device_id W root none = pure root
    add_device_id W root (some []) = pure root
    add_device_id W root (some (c ∷ id)) = do
      added ← ask P (λ w. W.add_string_to_object root (codes "device_id") (c ∷ id))
      or_raise failed added

    unfoldable pub build_enroll_request_json :
        CjsonPrint P J → Bytes → Option Bytes → Enrolling P Bytes
    build_enroll_request_json W csr_pem device_id = do
      created ← ask P (λ w. W.create_object)
      root ← or_raise failed created
      added ← ask P (λ w. W.add_string_to_object root (codes "csr_pem") csr_pem)
      root' ← or_raise failed added
      whole ← add_device_id W root' device_id
      json ← ask P (λ w. W.print_unformatted whole)
      or_raise failed json

    -- `it && cJSON_IsString(it) && it->valuestring && it->valuestring[0] != '\0'`
    abbrev pub text_item : Option J.Value → Option Bytes
    text_item none = none
    text_item (some it) = if_given (J.string_of it)

    abbrev pub from_items : Option Bytes → Option Bytes → Enrolling P Bytes
    from_items none chain = raise failed
    from_items (some cert) chain = do
      got ← ask P (λ w. P.malloc (length (combine cert chain) + 1))
      check got failed
      pure (combine cert chain)

    unfoldable pub parse_enroll_response : Bytes → Enrolling P Bytes
    unfolding combine c_string
    parse_enroll_response json = do
      parsed ← ask P (λ w. J.parse (c_string json))
      root ← or_raise failed parsed
      check (J.is_object root) failed
      from_items (text_item (J.get_object_item root (codes "client_cert_pem")))
          (text_item (J.get_object_item root (codes "client_chain_pem")))
