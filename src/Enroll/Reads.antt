-- ===== src/Enroll/Reads.antt =====
-- What src/enroll.c does before its first write changes no file.
use ota_fetch.Base.{ℕ, zero, suc, ◌++◌, Bytes, Option, none, some, Bool, true, false, [], ◌∷◌}
use ota_fetch.Platform.{Platform, Cjson}
use ota_fetch.Platform.Steps.{
  Steps, Steps-bind, Steps-if, Steps-pure, only_reads, ask-only_reads, read_rules,
}
use ota_fetch.Platform.Posix.{Posix}
use ota_fetch.Platform.Keygen.{Keygen}
use ota_fetch.Platform.Http.{Http, CjsonPrint}
use ota_fetch.Config.{Config}
use ota_fetch.Enroll.Paths.{Enrolling, path_exists}
use ota_fetch.Enroll.Token.{TokenBuffer, push_char, next_char, read_chars, read_token_file}
use ota_fetch.Enroll.Keys.{generate_key, build_req, print_pems, generate_key_and_csr}
use ota_fetch.Enroll.Request.{
  derive_enroll_url, take_pieces, add_device_id, build_enroll_request_json, post_enroll_request,
  from_items, parse_enroll_response,
}
use ota_fetch.Enroll.Run.{check_identity, url_or_derived, obtain}

module _ (P : Platform) (X : Posix P) (K : Keygen P) (N : Http P) (J : Cjson P)
    (W : CjsonPrint P J) where
  next_char-only_reads :
      (rest : P.Stream → TokenBuffer → Enrolling P (TokenBuffer × P.Stream)) (buf : TokenBuffer)
      → ((fp : P.Stream) (b : TokenBuffer) → Steps (only_reads P) (rest fp b))
      → (q : Option ℕ × P.Stream) → Steps (only_reads P) (next_char P X rest buf q)
  unfolding push_char
  next_char-only_reads rest buf h (none, fp) = search read_rules
  next_char-only_reads rest buf h (some c, fp) = search (read_rules, h) depth 20

  read_chars-only_reads :
      (fuel : ℕ) (fp : P.Stream) (buf : TokenBuffer)
      → Steps (only_reads P) (read_chars P X fuel fp buf)
  unfolding read_chars
  read_chars-only_reads zero fp buf = search read_rules
  read_chars-only_reads (suc fuel) fp buf =
      next_char-only_reads (read_chars P X fuel) buf (read_chars-only_reads fuel) (X.fgetc fp)

  read_token_file-only_reads : (path : Bytes) → Steps (only_reads P) (read_token_file P X path)
  unfolding read_token_file
  read_token_file-only_reads path = search (read_rules, read_chars-only_reads) depth 30

  derive_enroll_url-only_reads :
      (url : Option Bytes) → Steps (only_reads P) (derive_enroll_url P url)
  unfolding derive_enroll_url
  derive_enroll_url-only_reads none = search read_rules
  derive_enroll_url-only_reads (some []) = search read_rules
  derive_enroll_url-only_reads (some (c ∷ s)) = search read_rules depth 20

  url_or_derived-only_reads :
      (url server : Option Bytes) → Steps (only_reads P) (url_or_derived P url server)
  url_or_derived-only_reads none server = derive_enroll_url-only_reads server
  url_or_derived-only_reads (some url) server = search read_rules

  generate_key_and_csr-only_reads :
      (id : Option Bytes) → Steps (only_reads P) (generate_key_and_csr P K id)
  unfolding generate_key_and_csr generate_key build_req print_pems
  generate_key_and_csr-only_reads id = search read_rules depth 60

  add_device_id-only_reads :
      (root : J.Value) (id : Option Bytes) → Steps (only_reads P) (add_device_id P J W root id)
  add_device_id-only_reads root none = search read_rules
  add_device_id-only_reads root (some []) = search read_rules
  add_device_id-only_reads root (some (c ∷ id)) = search read_rules depth 20

  build_enroll_request_json-only_reads :
      (csr : Bytes) (id : Option Bytes)
      → Steps (only_reads P) (build_enroll_request_json P J W csr id)
  unfolding build_enroll_request_json
  build_enroll_request_json-only_reads csr id =
      search (read_rules, add_device_id-only_reads) depth 30

  take_pieces-only_reads :
      (mem : Bytes) (pieces : _) → Steps (only_reads P) (take_pieces P mem pieces)
  unfolding take_pieces
  take_pieces-only_reads mem [] = search read_rules
  take_pieces-only_reads mem (piece ∷ pieces) =
      Steps-bind _ _ (ask-only_reads P _)
        λ got. Steps-if got _ _ (take_pieces-only_reads (mem ++ piece) pieces) (Steps-pure _)

  post_enroll_request-only_reads :
      (url : Bytes) (cfg : Config) (token json : Bytes)
      → Steps (only_reads P) (post_enroll_request P N url cfg token json)
  unfolding post_enroll_request
  post_enroll_request-only_reads url cfg token json =
      search (read_rules, take_pieces-only_reads) depth 60

  from_items-only_reads :
      (cert chain : Option Bytes) → Steps (only_reads P) (from_items P J cert chain)
  from_items-only_reads none chain = search read_rules
  from_items-only_reads (some cert) chain = search read_rules depth 20

  parse_enroll_response-only_reads :
      (json : Bytes) → Steps (only_reads P) (parse_enroll_response P J json)
  unfolding parse_enroll_response
  parse_enroll_response-only_reads json = search (read_rules, from_items-only_reads) depth 30

  -- Everything up to the first write changes no file.
  pub obtain-only_reads :
      (cfg : Config) (token_file : Bytes) → Steps (only_reads P) (obtain P X K N J W cfg token_file)
  unfolding obtain
  obtain-only_reads cfg token_file =
      search
        (
          read_rules, read_token_file-only_reads, url_or_derived-only_reads,
          generate_key_and_csr-only_reads, build_enroll_request_json-only_reads,
          post_enroll_request-only_reads, parse_enroll_response-only_reads,
        )
        depth 60

  path_exists-only_reads : (path : Bytes) → Steps (only_reads P) (path_exists P path)
  unfolding path_exists
  path_exists-only_reads path = search read_rules depth 20

  pub check_identity-only_reads :
      (force : Bool) (key cert : Bytes) → Steps (only_reads P) (check_identity P force key cert)
  unfolding check_identity
  check_identity-only_reads true key cert = search read_rules
  check_identity-only_reads false key cert = search (read_rules, path_exists-only_reads) depth 30
