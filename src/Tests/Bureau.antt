-- ===== src/Tests/Bureau.antt =====
-- For the tests of src/enroll.c: keys that are numbers, a server that issues a certificate, and JSON that
-- is a list of texts.
use ota_fetch.Base.{
  ℕ, ◌≡◌, ◌≢◌, refl, sym, Bytes, bytes_eq, bytes_eq→eq, bytes_eq_refl, Bool-cases, inl, inr, codes,
  Option, none, some, Bool, true, false, List, [], ◌∷◌, ◌++◌, if◌then◌else◌,
}
use ota_fetch.Platform.{Cjson}
use ota_fetch.Platform.Keygen.{Keygen, IsKeygen}
use ota_fetch.Platform.Http.{Http, IsAppending, CjsonPrint, IsPrinting}
use ota_fetch.Tests.Site.{device}

-- A certificate signing request.
pub record Request : Type 0 where
  pub name : Option Bytes
  pub key : Option ℕ
  pub signer : Option ℕ

abbrev blank : Request
blank = record { name = none; key = none; signer = none }

abbrev text_of : Option Bytes → Bytes
text_of none = []
text_of (some s) = s

-- The PEM text of a key of `n` bits.
abbrev key_text : ℕ → Bytes
key_text n = codes "Key" ++ n ∷ []

abbrev req_text : Request → Bytes
req_text r = codes "req " ++ text_of r.name

abbrev pub keygen : Keygen device
keygen = record {
  KeyCtx = ℕ;
  Pkey = ℕ;
  Name = Option Bytes;
  Req = Request;
  key_ctx_new = λ o. (some 0, o);
  keygen_init = λ k o. (some k, o);
  set_keygen_bits = λ n k o. (some n, o);
  keygen = λ k o. (some k, o);
  req_new = λ o. (some blank, o);
  set_version = λ n r o. (some r, o);
  name_new = λ o. (some none, o);
  add_common_name = λ cn n o. (some (some cn), o);
  set_subject_name = λ n r o. (some (record r { name = n }), o);
  set_pubkey = λ k r o. (some (record r { key = some k }), o);
  sign = λ k r o. (some (record r { signer = some k }), o);
  bio_new = λ o. (true, o);
  write_private_key = λ k o. (some (key_text k), o);
  write_req = λ r o. (some (req_text r), o);
  ctx_bits = λ k. k;
  key_bits = λ k. k;
  common_name = λ n. n;
  subject = λ r. r.name;
  req_key = λ r. r.key;
  SignedBy = λ r k. r.signer ≡ some k;
  HoldsKey = λ pem k. pem ≡ key_text k;
  HoldsReq = λ pem r. pem ≡ req_text r;
}

-- The value that a call gave.
given : {A : Type 0} {a b : A} → some a ≡ some b → a ≡ b
given h = cc

pub keygen-IsKeygen : IsKeygen keygen
keygen-IsKeygen = record {
  set_keygen_bits_bits = λ n k o k' h. sym (given h);
  keygen_bits = λ k o p h. sym (given h);
  add_common_name_name = λ cn n o n' h. sym (given h);
  set_subject_name_subject = λ n r o r' h. rw (← given h) refl;
  set_pubkey_key = λ p r o r' h. rw (← given h) refl;
  set_pubkey_subject = λ p r o r' h. rw (← given h) refl;
  sign_signed = λ p r o r' h. rw (← given h) refl;
  sign_key = λ p r o r' h. rw (← given h) refl;
  sign_subject = λ p r o r' h. rw (← given h) refl;
  write_private_key_holds = λ p o pem h. sym (given h);
  write_req_holds = λ r o pem h. sym (given h);
}

-- A text, or the texts under the keys of an object.
pub data Note : Type 0 where
  text : Bytes → Note
  sheet : List (Bytes × Bytes) → Note

abbrev find : Bytes → List (Bytes × Bytes) → Option Note
find key [] = none
find key ((k, s) ∷ rest) = if bytes_eq key k then some (text s) else find key rest

abbrev item_in : Note → Bytes → Option Note
item_in (text s) key = none
item_in (sheet items) key = find key items

abbrev text_in : Note → Option Bytes
text_in (text s) = some s
text_in (sheet items) = none

abbrev is_sheet : Note → Bool
is_sheet (text s) = false
is_sheet (sheet items) = true

abbrev added : Note → Bytes → Bytes → Option Note
added (text s) key value = none
added (sheet items) key value = some (sheet ((key, value) ∷ items))

abbrev answer_note : Note
answer_note =
    sheet ((codes "client_cert_pem", codes "crt") ∷ (codes "client_chain_pem", codes "ca") ∷ [])

-- What the file system takes for a key.
abbrev key_note : Note
key_note = sheet ((codes "client_cert_pem", codes "Key") ∷ [])

abbrev pub notes : Cjson device
notes = record {
  Value = Note;
  Double = ℕ;
  parse = λ s o. (
    if bytes_eq s (codes "{crt}")
        then some answer_note
        else if bytes_eq s (codes "{key}")
        then some key_note
        else none,
    o,
  );
  is_object = is_sheet;
  is_array = λ v. false;
  string_of = text_in;
  number_of = λ v. none;
  get_object_item = item_in;
  get_array_size = λ v. 0;
  get_array_item = λ v i. none;
  is_negative = λ n. false;
  to_u64 = λ n. n;
}

abbrev pub pen : CjsonPrint device notes
pen = record {
  create_object = λ o. (some (sheet []), o);
  add_string_to_object = λ v key value o. (added v key value, o);
  print_unformatted = λ v o. (some (codes "json"), o);
  Prints = λ s v. s ≡ codes "json";
}

-- A server that issues no certificate.
abbrev pub mistaken : Http device
mistaken = record {
  slist_append = λ l s o. (l ++ s ∷ [], o);
  post = λ r o. (record { pieces = codes "{key}" ∷ []; curle_ok = true; http_code = 200 }, o);
}

-- The server sends its answer in two pieces.
abbrev pub bureau : Http device
bureau = record {
  slist_append = λ l s o. (l ++ s ∷ [], o);
  post = λ r o.
      (record { pieces = codes "{cr" ∷ codes "t}" ∷ []; curle_ok = true; http_code = 200 }, o);
}

pub bureau-IsAppending : IsAppending bureau
bureau-IsAppending = record { slist_append_result = λ l text o. inl refl }

find-other :
    (key other s : Bytes) (items : List (Bytes × Bytes))
    → other ≢ key
    → find other ((key, s) ∷ items) ≡ find other items
find-other key other s items h = elim (Bool-cases (bytes_eq other key)) [
  | inl same ↦ absurd (h (bytes_eq→eq other key same))
  | inr apart ↦ rw apart refl
]

added-other :
    (v : Note) (key s : Bytes) (v' : Note) (other : Bytes)
    → added v key s ≡ some v'
    → other ≢ key
    → item_in v' other ≡ item_in v other
added-other (text u) key s v' other h apart = absurd (cc)
added-other (sheet items) key s v' other h apart =
    rw (← given h) (find-other key other s items apart)

added-item :
    (v : Note) (key s : Bytes) (v' : Note)
    → added v key s ≡ some v'
    → (it : Note) × (item_in v' key ≡ some it) × (text_in it ≡ some s)
added-item (text u) key s v' h = absurd (cc)
added-item (sheet items) key s v' h = (text s, rw (← given h) (rw (bytes_eq_refl key) refl), refl)

pub pen-IsPrinting : IsPrinting pen
pen-IsPrinting = record {
  create_object_empty = λ o v key h. rw (← given h) refl;
  add_string_to_object_other = λ v key s o v' other h apart. added-other v key s v' other h apart;
  add_string_to_object_item = λ v key s o v' h absent. added-item v key s v' h;
  print_unformatted_prints = λ v o s h. sym (given h);
}
