-- ===== src/Enroll/Posted.antt =====
-- The request that src/enroll.c sends, and the answer that it takes.
use ota_fetch.Base.{and_true}
use ota_fetch.Base.{
  ℕ, ◌+◌, length, ◌≤◌, ◌<◌, ◌≡◌, ◌≢◌, refl, sym, ap, ◌∙◌, Bytes, codes, not, leb, ltb, ltb→lt, ◌||◌,
  Bool-cases, Option, none, some, Bool, true, false, List, [], ◌∷◌, ◌++◌, ok, arith, inl, inr, ◌⊎◌,
}
use mathlib.Core.List.{append_assoc, append-nil}
use ota_fetch.Platform.{Platform, State, Cjson}
use ota_fetch.Platform.Inversion.{
  pure-ok, check-ok, bind-ok, ask-ok, ask-check-ok, ask-or_raise-ok, ask-or_raise_last-ok,
}
use ota_fetch.Platform.Http.{PostAnswer, Http, IsAppending, CjsonPrint, IsPrinting}
use ota_fetch.Config.{Config}
use ota_fetch.Manifest.Load.{c_string}
use ota_fetch.Enroll.Request.{
  if_given, post_request_of, take_pieces, add_device_id, build_enroll_request_json,
  post_enroll_request,
}

module _ (P : Platform) (J : Cjson P) (W : CjsonPrint P J) where
  -- The value has this text under the key.
  abbrev HasText : J.Value → Bytes → Bytes → Type 0
  HasText v key s = (it : J.Value) × (J.get_object_item v key ≡ some it) × (J.string_of it ≡ some s)

  -- The id under its key, if there is one that is not empty.
  abbrev pub HasId : J.Value → Option Bytes → Type 0
  HasId v none = J.get_object_item v (codes "device_id") ≡ none
  HasId v (some id) = HasText v (codes "device_id") id

  pub record IsRequest (csr_pem : Bytes) (device_id : Option Bytes) (json : Bytes) : Type 0 where
    pub root : J.Value
    pub prints : W.Prints json root
    pub csr : HasText root (codes "csr_pem") csr_pem
    pub id : HasId root (if_given device_id)

  module _ (D : IsPrinting W) where
    keys_apart : codes "csr_pem" ≢ codes "device_id"
    keys_apart e = cc

    add_device_id-HasId :
        (root : J.Value) (device_id : Option Bytes) (csr_pem : Bytes) (s : State P)
        {whole : J.Value} {t : State P}
        → HasText root (codes "csr_pem") csr_pem
        → J.get_object_item root (codes "device_id") ≡ none
        → add_device_id P J W root device_id s ≡ (ok whole, t)
        → HasText whole (codes "csr_pem") csr_pem × HasId whole (if_given device_id)
    add_device_id-HasId root none csr_pem s csr absent h =
        pure-ok _ _ h λ same _. rw (← same) (csr, absent)
    add_device_id-HasId root (some []) csr_pem s csr absent h =
        pure-ok _ _ h λ same _. rw (← same) (csr, absent)
    add_device_id-HasId root (some (c ∷ id)) csr_pem s (it, has, is_text) absent h =
        ask-or_raise_last-ok P _ _ _ h λ added. (
          (
            it,
            D.add_string_to_object_other root _ _ _ _ (codes "csr_pem") added keys_apart ∙ has,
            is_text,
          ),
          D.add_string_to_object_item root _ _ _ _ added absent,
        )

    -- The body of the request is the text of a JSON object that has the certificate signing request
    -- under "csr_pem" and, if an id that is not empty is configured, that id under "device_id"; else
    -- there is nothing under that key.
    pub build_enroll_request_json-IsRequest :
        (csr_pem : Bytes) (device_id : Option Bytes) (s : State P) {json : Bytes} {t : State P}
        → build_enroll_request_json P J W csr_pem device_id s ≡ (ok json, t)
        → IsRequest csr_pem device_id json
    unfolding build_enroll_request_json
    build_enroll_request_json-IsRequest csr_pem device_id s h =
        ask-or_raise-ok P _ _ _ _ h λ root made h₁. ask-or_raise-ok P _ _ _ _ h₁ λ root' added h₂.
          bind-ok _ _ _ h₂ λ whole s₁ e₁ h₃. ask-or_raise_last-ok P _ _ _ h₃ λ printed.
            let no_csr = D.create_object_empty _ root (codes "csr_pem") made in
            let no_id = D.create_object_empty _ root (codes "device_id") made in
            let (csr, id) =
              add_device_id-HasId root' device_id csr_pem _
                (D.add_string_to_object_item root _ _ _ root' added no_csr)
                (D.add_string_to_object_other root _ _ _ root' (codes "device_id") added (λ e. cc)
                  ∙ no_id)
                e₁ in
            record {
              root = whole;
              prints = D.print_unformatted_prints whole _ _ printed;
              csr = csr;
              id = id;
            }

module _ (P : Platform) where
  abbrev pub concat : List Bytes → Bytes
  concat [] = []
  concat (piece ∷ pieces) = piece ++ concat pieces

  take_pieces-concat :
      (mem : Bytes) (pieces : List Bytes) (s : State P) {out : Bytes × Bool} {t : State P}
      → take_pieces P mem pieces s ≡ (ok out, t)
      → out.1 ≡ true
      → out.0 ≡ mem ++ concat pieces
  unfolding take_pieces
  take_pieces-concat mem [] s h whole = pure-ok _ _ h λ same _. rw (← same) (sym (append-nil mem))
  take_pieces-concat mem (piece ∷ pieces) s h whole =
      elim (Bool-cases (P.malloc (length mem + length piece + 1) s.oracle).0) [
        | inl got ↦ ask-ok P _ _ _ h λ h₁.
            take_pieces-concat (mem ++ piece) pieces _ (rw got at h₁) whole
            ∙ append_assoc mem piece (concat pieces)
        | inr out_of_memory ↦ ask-ok P _ _ _ h λ h₁.
            pure-ok _ _ (rw out_of_memory at h₁)
              λ same _. let cut : false ≡ true = ap (λ p. p.1) same ∙ whole in absurd (cc)
      ]

  abbrev pub bearer : Bytes → Bytes
  bearer token = codes "Authorization: Bearer " ++ c_string token

  appended :
      (N : Http P) (G : IsAppending N) (l : List Bytes) (text : Bytes) (o : P.Oracle)
      → ((k : List Bytes) × ((N.slist_append l text o).0 ≡ k ++ text ∷ []))
        ⊎ ((N.slist_append l text o).0 ≡ [])
  appended N G l text o = elim (G.slist_append_result l text o) [
    | inl done ↦ inl (l, done)
    | inr failed ↦ inr failed
  ]

  -- The answer to the request, which was delivered whole and with a code of success.
  pub record IsAnswer (N : Http P) (url : Bytes) (cfg : Config) (token json response : Bytes)
      : Type 0 where
    pub headers : List Bytes
    pub authorized : ((l : List Bytes) × (headers ≡ l ++ bearer token ∷ [])) ⊎ (headers ≡ [])
    pub answer : PostAnswer
    pub posted : (o : P.Oracle) × ((N.post (post_request_of url cfg headers json) o).0 ≡ answer)
    pub delivered : answer.curle_ok ≡ true
    pub at_least : 200 ≤ answer.http_code
    pub below : answer.http_code < 300
    pub is_body : response ≡ concat answer.pieces
    pub not_empty : 0 < length response

  in_range : (n : ℕ) → not (ltb n 200 || leb 300 n) ≡ true → (200 ≤ n) × (n < 300)
  in_range n h = ground arith

  -- A response is taken only from a request that libcurl carried out and that was answered with a code
  -- from 200 to 299. The request has the body that was given, and its last header has the token; but if
  -- libcurl could not append that header, the request goes out without any header of the program's. The
  -- response is all the pieces of the answer in order, and it is not empty.
  pub post_enroll_request-IsAnswer :
      (N : Http P) (G : IsAppending N) (url : Bytes) (cfg : Config) (token json : Bytes)
      (s : State P) {response : Bytes} {t : State P}
      → post_enroll_request P N url cfg token json s ≡ (ok response, t)
      → IsAnswer N url cfg token json response
  unfolding post_enroll_request
  post_enroll_request-IsAnswer N G url cfg token json s h = ask-check-ok P _ _ _ _ h λ _ h₁.
      ask-check-ok P _ _ _ _ h₁ λ _ h₂. ask-ok P _ _ _ h₂ λ h₃. ask-ok P _ _ _ h₃ λ h₄.
        ask-ok P _ _ _ h₄ λ h₅. ask-ok P _ _ _ h₅ λ h₆. bind-ok _ _ _ h₆ λ taken s₁ e₁ h₇.
          check-ok _ _ _ _ h₇ λ fine h₈. check-ok _ _ _ _ h₈ λ code h₉.
            check-ok _ _ _ _ h₉ λ some_body h₁₀. pure-ok _ _ h₁₀ λ same _.
              let (delivered, whole) = and_true _ _ fine in
              let (at_least, below) = in_range _ code in
              record {
                headers = _;
                authorized = appended N G _ (bearer token) _;
                answer = _;
                posted = (_, refl);
                delivered = delivered;
                at_least = at_least;
                below = below;
                is_body = rw (← same) (take_pieces-concat [] _ _ e₁ whole);
                not_empty = rw (← same) (ltb→lt _ _ some_body);
              }
