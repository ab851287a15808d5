-- ===== src/Enroll/Response.antt =====
-- `parse_enroll_response` of src/enroll.c: the certificate, and the chain behind it.
use ota_fetch.Base.{
  ℕ, ◌≡◌, ◌≢◌, refl, sym, ap, ◌∙◌, Bytes, codes, length, ==_iff, Bool-cases, inl, inr, Option, none,
  some, ◌<◌, ◌⊎◌, true, false, [], ◌∷◌, ◌++◌, ok, raise, arith,
}
use ota_fetch.Platform.{Platform, State, Cjson}
use ota_fetch.Platform.Inversion.{pure-ok, check-ok, ask-check-ok, ask-or_raise-ok}
use ota_fetch.Manifest.Load.{c_string}
use ota_fetch.Enroll.Request.{
  ends_with, if_given, text_item, combine, from_items, parse_enroll_response,
}

-- The chain behind the certificate, on a line of its own.
pub data IsJoined (cert chain out : Bytes) : Type 0 where
  behind_newline :
      (line : Bytes) → cert ≡ line ++ 10 ∷ [] → out ≡ cert ++ chain → IsJoined cert chain out
  newline_added :
      ((line : Bytes) → cert ≢ line ++ 10 ∷ []) → out ≡ cert ++ 10 ∷ chain → IsJoined cert chain out

ends_with-last : (c : ℕ) (s : Bytes) → ends_with c (s ++ c ∷ []) ≡ true
unfolding ends_with
ends_with-last c [] = (==_iff c c).1 refl
ends_with-last c (d ∷ []) = (==_iff c c).1 refl
ends_with-last c (d ∷ e ∷ s) = ends_with-last c (e ∷ s)

ends_with-line : (c : ℕ) (s : Bytes) → ends_with c s ≡ true → (line : Bytes) × (s ≡ line ++ c ∷ [])
unfolding ends_with
ends_with-line c [] h = absurd (cc)
ends_with-line c (d ∷ []) h = ([], ap (λ e. e ∷ []) ((==_iff d c).0 h))
ends_with-line c (d ∷ e ∷ s) h =
    let (line, is_line) = ends_with-line c (e ∷ s) h in (d ∷ line, ap (λ l. d ∷ l) is_line)

combine-IsJoined : (cert chain : Bytes) → IsJoined cert chain (combine cert (some chain))
unfolding combine
combine-IsJoined cert chain = elim (Bool-cases (ends_with 10 cert)) [
  | inl at_end ↦
      let (line, is_line) = ends_with-line 10 cert at_end in
      rw at_end (behind_newline line is_line refl)
  | inr not_yet ↦ rw not_yet (newline_added (λ line e. ended cert line not_yet e) refl)
]
  where
    ended : (s line : Bytes) → ends_with 10 s ≡ false → s ≢ line ++ 10 ∷ []
    ended s line h e =
        let clash : true ≡ false = sym (ends_with-last 10 line) ∙ rw e at h in absurd (cc)

module _ (P : Platform) (J : Cjson P) where
  -- The item is a string, and not empty.
  pub record HasString (item : Option J.Value) (text : Bytes) : Type 0 where
    pub it : J.Value
    pub is_item : item ≡ some it
    pub is_string : J.string_of it ≡ some text
    pub not_empty : 0 < length text

  -- Any string in the item is empty.
  abbrev pub NoString : Option J.Value → Type 0
  NoString item =
      (it : J.Value) (text : Bytes) → item ≡ some it → J.string_of it ≡ some text → text ≡ []

  -- What the chain adds to the certificate.
  abbrev pub IsChained : Option J.Value → Bytes → Bytes → Type 0
  IsChained item cert out =
      ((chain : Bytes) × HasString item chain × IsJoined cert chain out)
      ⊎ (NoString item × (out ≡ cert))

  -- The text is the certificate, and the chain if there is one, of the object that cJSON reads.
  pub record IsResponse (json out : Bytes) : Type 0 where
    pub root : J.Value
    pub cert : Bytes
    pub is_parsed : (o : P.Oracle) × ((J.parse (c_string json) o).0 ≡ some root)
    pub is_object : J.is_object root ≡ true
    pub is_cert : HasString (J.get_object_item root (codes "client_cert_pem")) cert
    pub is_chained : IsChained (J.get_object_item root (codes "client_chain_pem")) cert out

  if_given-some :
      (o : Option Bytes) (text : Bytes)
      → if_given o ≡ some text
      → (o ≡ some text) × (0 < length text)
  if_given-some none text h = absurd (cc)
  if_given-some (some []) text h = absurd (cc)
  if_given-some (some (c ∷ s)) text h = (h, ap_length (c ∷ s) text h (omega arith))
    where
      ap_length : (a b : Bytes) → some a ≡ some b → 0 < length a → 0 < length b
      ap_length a b e k = let same : a ≡ b = cc in rw same at k

  if_given-none : (o : Option Bytes) (text : Bytes) → if_given o ≡ none → o ≡ some text → text ≡ []
  if_given-none none text h e = absurd (cc)
  if_given-none (some []) text h e = cc
  if_given-none (some (c ∷ s)) text h e = absurd (cc)

  text_item-HasString :
      (item : Option J.Value) (text : Bytes) → text_item P J item ≡ some text → HasString item text
  text_item-HasString none text h = absurd (cc)
  text_item-HasString (some it) text h =
      let (is_text, given) = if_given-some (J.string_of it) text h in
      record { it = it; is_item = refl; is_string = is_text; not_empty = given }

  text_item-NoString : (item : Option J.Value) → text_item P J item ≡ none → NoString item
  text_item-NoString none h it text e k = absurd (cc)
  text_item-NoString (some v) h it text e k =
      let same : v ≡ it = cc in if_given-none (J.string_of v) text h (rw (← same) at k)

  combine-IsChained :
      (item : Option J.Value) (cert : Bytes) (chain : Option Bytes)
      → text_item P J item ≡ chain
      → IsChained item cert (combine cert chain)
  unfolding combine
  combine-IsChained item cert none h = inr (text_item-NoString item h, refl)
  combine-IsChained item cert (some chain) h =
      inl (chain, text_item-HasString item chain h, combine-IsJoined cert chain)

  from_items-combine :
      (cert chain : Option Bytes) (s : State P) {out : Bytes} {t : State P}
      → from_items P J cert chain s ≡ (ok out, t)
      → (text : Bytes) × (cert ≡ some text) × (combine text chain ≡ out)
  unfolding raise
  from_items-combine none chain s h = absurd (cc)
  from_items-combine (some text) chain s h =
      ask-check-ok P _ _ _ _ h λ _ h₁. pure-ok _ _ h₁ λ same _. (text, refl, same)

  -- A certificate is taken from an answer only if that is a JSON object with a string under
  -- "client_cert_pem" that is not empty. If there is such a string under "client_chain_pem", too, the
  -- result is the certificate and the chain behind it, with a newline between them if the certificate
  -- does not end in one; else it is the certificate.
  pub parse_enroll_response-IsResponse :
      (json : Bytes) (s : State P) {out : Bytes} {t : State P}
      → parse_enroll_response P J json s ≡ (ok out, t)
      → IsResponse json out
  unfolding parse_enroll_response
  parse_enroll_response-IsResponse json s h = ask-or_raise-ok P _ _ _ _ h λ root parsed h₁.
      check-ok _ _ _ _ h₁ λ object h₂.
        let (cert, is_cert, is_out) = from_items-combine _ _ _ h₂ in
        let item = J.get_object_item root (codes "client_chain_pem") in
        record {
          root = root;
          cert = cert;
          is_parsed = (s.oracle, parsed);
          is_object = object;
          is_cert = text_item-HasString _ cert is_cert;
          is_chained = rw (← is_out) (combine-IsChained item cert (text_item P J item) refl);
        }
