-- ===== src/Enroll/Issued.antt =====
-- The key, the certificate signing request, the URL and the certificate of src/enroll.c.
use ota_fetch.Base.{◌≡◌, ◌∙◌, Bytes, Option, some, ok, ◌>>=◌}
use ota_fetch.Platform.{Platform, State, ask}
use ota_fetch.Platform.Inversion.{pure-ok, check-ok, bind-ok, ask-ok, or_raise_last-ok}
use ota_fetch.Platform.Keygen.{Keygen, IsKeygen}
use ota_fetch.Enroll.Paths.{Enrolling}
use ota_fetch.Enroll.Keys.{
  KeyAndCsr, text_or_default, given, generate_key, build_req, print_pems, generate_key_and_csr,
}

module _ (P : Platform) (K : Keygen P) where
  given-ok :
      {A B R : Type 0} {x : B} {s' : State P} (call : P.Oracle → Option A × P.Oracle)
      (g : A → Enrolling P B) (s : State P)
      → (given P K call >>= g) s ≡ (ok x, s')
      → ((a : A) (o : P.Oracle) (t : State P) → (call o).0 ≡ some a → g a t ≡ (ok x, s') → R)
      → R
  unfolding ask
  given-ok call g s h k =
      bind-ok _ _ _ h
        λ a t e h₁. ask-ok P _ _ _ e λ e₁. or_raise_last-ok _ _ _ e₁ λ got _. k a s.oracle t got h₁

  given_last-ok :
      {A R : Type 0} {x : A} {s' : State P} (call : P.Oracle → Option A × P.Oracle) (s : State P)
      → given P K call s ≡ (ok x, s')
      → ((o : P.Oracle) → (call o).0 ≡ some x → R)
      → R
  given_last-ok call s h k =
      ask-ok P _ _ _ h λ h₁. or_raise_last-ok _ _ _ h₁ λ got _. k s.oracle got

  module _ (D : IsKeygen K) where
    generate_key-2048 :
        (s : State P) {pkey : K.Pkey} {t : State P}
        → generate_key P K s ≡ (ok pkey, t)
        → K.key_bits pkey ≡ 2048
    unfolding generate_key
    generate_key-2048 s h = given-ok _ _ _ h λ ctx _ _ _ h₁. given-ok _ _ _ h₁ λ inited _ _ _ h₂.
        given-ok _ _ _ h₂ λ sized o _ is_sized h₃. given_last-ok _ _ h₃ λ o' made.
          D.keygen_bits sized o' _ made ∙ D.set_keygen_bits_bits 2048 inited o sized is_sized

    -- The request names the device and carries and is signed by the key.
    pub record IsRequestFor (pkey : K.Pkey) (cn : Bytes) (req : K.Req) : Type 0 where
      pub is_named : K.subject req ≡ some cn
      pub carries : K.req_key req ≡ some pkey
      pub is_signed : K.SignedBy req pkey

    build_req-IsRequestFor :
        (pkey : K.Pkey) (device_id : Option Bytes) (s : State P) {req : K.Req} {t : State P}
        → build_req P K pkey device_id s ≡ (ok req, t)
        → IsRequestFor pkey (text_or_default device_id) req
    unfolding build_req
    build_req-IsRequestFor pkey device_id s h = given-ok _ _ _ h λ r₀ _ _ _ h₁.
        given-ok _ _ _ h₁ λ r₁ _ _ _ h₂. given-ok _ _ _ h₂ λ n₀ _ _ _ h₃.
          given-ok _ _ _ h₃ λ n₁ o₁ _ named h₄. given-ok _ _ _ h₄ λ r₂ o₂ _ titled h₅.
            given-ok _ _ _ h₅ λ r₃ o₃ _ keyed h₆. given_last-ok _ _ h₆ λ o₄ signed. record {
              is_named =
                  D.sign_subject pkey r₃ o₄ _ signed
                  ∙ D.set_pubkey_subject pkey r₂ o₃ r₃ keyed
                  ∙ D.set_subject_name_subject n₁ r₁ o₂ r₂ titled
                  ∙ D.add_common_name_name (text_or_default device_id) n₀ o₁ n₁ named;
              carries = D.sign_key pkey r₃ o₄ _ signed ∙ D.set_pubkey_key pkey r₂ o₃ r₃ keyed;
              is_signed = D.sign_signed pkey r₃ o₄ _ signed;
            }

    -- A new 2048-bit key and a request for it, as PEM.
    pub record IsIdentity (device_id : Option Bytes) (keys : KeyAndCsr) : Type 0 where
      pub pkey : K.Pkey
      pub req : K.Req
      pub bits : K.key_bits pkey ≡ 2048
      pub is_request : IsRequestFor pkey (text_or_default device_id) req
      pub holds_key : K.HoldsKey keys.key_pem pkey
      pub holds_req : K.HoldsReq keys.csr_pem req

    print_pems-holds :
        (pkey : K.Pkey) (req : K.Req) (s : State P) {keys : KeyAndCsr} {t : State P}
        → print_pems P K pkey req s ≡ (ok keys, t)
        → K.HoldsKey keys.key_pem pkey × K.HoldsReq keys.csr_pem req
    unfolding print_pems
    print_pems-holds pkey req s h = ask-ok P _ _ _ h λ h₁. ask-ok P _ _ _ h₁ λ h₂.
        check-ok _ _ _ _ h₂ λ _ h₃. given-ok _ _ _ h₃ λ key_pem o₁ _ key_written h₄.
          given-ok _ _ _ h₄ λ csr_pem o₂ _ csr_written h₅. check-ok _ _ _ _ h₅ λ _ h₆.
            ask-ok P _ _ _ h₆ λ h₇. ask-ok P _ _ _ h₇ λ h₈. check-ok _ _ _ _ h₈ λ _ h₉.
              pure-ok _ _ h₉ λ same _. rw (← same) (
                D.write_private_key_holds pkey o₁ key_pem key_written,
                D.write_req_holds req o₂ csr_pem csr_written,
              )

    -- What `generate_key_and_csr` returns is the PEM text of a new 2048-bit key and that of a request
    -- which names the device by its id, or "ota-fetch" if there is none, carries the key's public part
    -- and is signed by that key.
    pub generate_key_and_csr-IsIdentity :
        (device_id : Option Bytes) (s : State P) {keys : KeyAndCsr} {t : State P}
        → generate_key_and_csr P K device_id s ≡ (ok keys, t)
        → IsIdentity device_id keys
    unfolding generate_key_and_csr
    generate_key_and_csr-IsIdentity device_id s h = bind-ok _ _ _ h λ pkey s₁ e₁ h₁.
        bind-ok _ _ _ h₁ λ req s₂ e₂ h₂.
          let (holds_key, holds_req) = print_pems-holds pkey req s₂ h₂ in
          record {
            pkey = pkey;
            req = req;
            bits = generate_key-2048 s e₁;
            is_request = build_req-IsRequestFor pkey device_id s₁ e₂;
            holds_key = holds_key;
            holds_req = holds_req;
          }
