-- ===== src/Enroll/Url.antt =====
-- `derive_enroll_url` of src/enroll.c.
use ota_fetch.Base.{
  ℕ, ◌≡◌, refl, ap, ◌∙◌, Bytes, codes, ◌==◌, ==_iff, Bool-cases, inl, inr, none, some, Bool, true,
  false, [], ◌∷◌, ◌++◌, if◌then◌else◌, ok,
}
use ota_fetch.Platform.{Platform, State}
use ota_fetch.Platform.Inversion.{pure-ok, ask-ok}
use ota_fetch.Fetch.Paths.{join, drop_slash}
use ota_fetch.Enroll.Request.{ends_with, derive_enroll_url}

-- What `derive_from` appends.
abbrev enroll_text : Bytes → Bytes
enroll_text s = s ++ (if ends_with b'/' s then codes "enroll" else codes "/enroll")

enroll_text-cons : (c d : ℕ) (s : Bytes) → enroll_text (c ∷ d ∷ s) ≡ c ∷ enroll_text (d ∷ s)
unfolding ends_with
enroll_text-cons c d s = refl

enroll_text-join :
    (c : ℕ) (s : Bytes) → enroll_text (c ∷ s) ≡ join (drop_slash (c ∷ s)) (codes "enroll")
unfolding join drop_slash ends_with
enroll_text-join c [] = elim (Bool-cases (c == b'/')) [
  | inl slash ↦ rw slash (ap (λ d. d ∷ codes "enroll") ((==_iff c b'/').0 slash))
  | inr other ↦ rw other refl
]
enroll_text-join c (d ∷ s) = ap (λ l. c ∷ l) (enroll_text-join d s)

taken : (got : Bool) (text url : Bytes) → (if got then some text else none) ≡ some url → url ≡ text
taken true text url h = cc
taken false text url h = absurd (cc)

-- The URL that is derived is the server's URL, less one trailing slash, with "/enroll" behind it, as
-- `build_path` would join them.
pub derive_enroll_url-join :
    (P : Platform) (server_url url : Bytes) (s : State P) {t : State P}
    → derive_enroll_url P (some server_url) s ≡ (ok (some url), t)
    → url ≡ join (drop_slash server_url) (codes "enroll")
unfolding derive_enroll_url
derive_enroll_url-join P [] url s h = pure-ok _ _ h λ same _. absurd (cc)
derive_enroll_url-join P (c ∷ server_url) url s h =
    ask-ok P _ _ _ h λ h₁. pure-ok _ _ h₁ λ same _. taken _ _ _ same ∙ enroll_text-join c server_url
