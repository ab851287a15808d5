-- ===== src/Verify/Soundness.antt =====
-- What an accepted manifest satisfies: the property that `verify_signature_with_cert` exists for.
use mathlib.Core.List.{append-nil, append_assoc}
use ota_fetch.Base.{
  ℕ, zero, suc, ◌≤◌, ◌<◌, ◌≡◌, refl, sym, ◌∙◌, ap, Bytes, length, length-append, Option, none, some,
  true, [], ◌∷◌, ◌++◌, ◌==◌, ==_iff, ltb→lt, leb→le, arith, Exec, Result, ok, err, pure, raise, inl,
  inr, Bool-cases, if◌then◌else◌,
}
use ota_fetch.Platform.{
  Platform, IsLawful, State, Crypto, IsSound, KeyType, ed25519, ec, rsa, other_key, Verdict,
  accepted, rejected, broken,
}
use ota_fetch.Platform.Inversion.{
  pure-ok, check-ok, bind-ok, or_raise-ok, try-ok, ask-ok, ask-check-ok, ask-or_raise-ok,
}
use ota_fetch.Verify.Defs.{
  VerifyError, ReadFileError, sig_max_len, manifest_max_len, read_exactly, read_file_all,
  read_signature_file,
}
use ota_fetch.Verify.Pipeline.{
  conclude, or_report, verify_chunk, verify_loop, verify_ed25519_signature,
  verify_rsa_ecdsa_signature,
}

-- The limits that go with the key type: an Ed25519 signature has 64 bytes and signs a file of at most
-- a mebibyte, and no other type than these is accepted.
abbrev pub WithinLimits : KeyType → ℕ → ℕ → Type 0
WithinLimits ed25519 sig_len data_len = (sig_len ≡ 64) × (data_len ≤ manifest_max_len)
WithinLimits ec sig_len data_len = Unit {0}
WithinLimits rsa sig_len data_len = Unit {0}
WithinLimits other_key sig_len data_len = ⊥

-- The file at `data_path` is signed, by the file at `sig_path`, with the key of the certificate in the
-- file at `cert_path`, which the authorities at `ca_path` vouch for.
pub record IsAuthentic (P : Platform) (C : Crypto P) (w : P.World)
    (data_path sig_path cert_path ca_path : Bytes) : Type 0 where
  pub contents : Bytes
  pub sig : Bytes
  pub pem : Bytes
  pub cert : C.Cert
  pub key : C.Key
  pub is_contents : P.file w data_path ≡ some contents
  pub is_sig : P.file w sig_path ≡ some sig
  pub is_pem : P.file w cert_path ≡ some pem
  pub encodes : C.Encodes pem cert
  pub trusted : C.Trusted ca_path cert
  pub key_of : C.KeyOf cert key
  pub signed : C.Signed key sig contents
  pub sig_pos : 0 < length sig
  pub sig_le : length sig ≤ sig_max_len
  pub within : WithinLimits (C.base_id key) (length sig) (length contents)

-- A prefix that is as long as the whole is the whole.
prefix-eq_whole : (xs ys zs : Bytes) → xs ++ ys ≡ zs → length xs ≡ length zs → xs ≡ zs
prefix-eq_whole xs [] zs e h = sym (append-nil xs) ∙ e
prefix-eq_whole xs (y ∷ ys) zs e h =
    absurd (omega (arith, ap length e, length-append {0} xs (y ∷ ys)))

module _ (P : Platform) (L : IsLawful P) where
  read_exactly-unread :
      {E : Type 0} (e f : E) (n : ℕ) (fp : P.Stream) (s : State P) {b : Bytes} {s' : State P}
      → P.file_size fp ≡ some n
      → read_exactly P e f n fp s ≡ (ok b, s')
      → (b ≡ P.unread fp) × (length b ≡ n)
  read_exactly-unread e f n fp s size h = ask-check-ok P _ _ _ _ h λ _ h₁.
      check-ok _ _ _ _ h₁ λ full h₂. pure-ok _ _ h₂ λ same _.
        let long : length (P.fread n fp).0 ≡ n = (==_iff _ _).0 full in
        rw (← same) (
          prefix-eq_whole _ _ _ (L.fread_unread n fp) (long ∙ sym (L.file_size_unread fp n size)),
          long,
        )

  pub read_signature_file-contents :
      (path : Bytes) (s : State P) {b : Bytes} {s' : State P}
      → read_signature_file P path s ≡ (ok b, s')
      → (P.file s.world path ≡ some b) × (0 < length b) × (length b ≤ sig_max_len)
  unfolding read_signature_file
  read_signature_file-contents path s h = ask-or_raise-ok P _ _ _ _ h λ fp opened h₁.
      or_raise-ok _ _ _ _ h₁ λ n size h₂. check-ok _ _ _ _ h₂ λ positive h₃.
        check-ok _ _ _ _ h₃ λ small h₄. check-ok _ _ _ _ h₄ λ _ h₅.
          let (whole, long) = read_exactly-unread _ _ n fp _ size h₅ in
          let p = ltb→lt 0 n positive in
          let q = leb→le n sig_max_len small in
          (
            L.fopen_rb_unread path s.world s.oracle fp opened ∙ ap some (sym whole),
            omega arith,
            omega arith,
          )

  empty_of_size : (fp : P.Stream) → P.file_size fp ≡ some 0 → P.unread fp ≡ []
  empty_of_size fp size = go (P.unread fp) (L.file_size_unread fp 0 size)
    where
      go : (xs : Bytes) → length xs ≡ 0 → xs ≡ []
      go [] h = refl
      go (x ∷ xs) h = absurd (omega arith)

  read_if_any-unread :
      {E : Type 0} (e f : E) (n : ℕ) (fp : P.Stream) (s : State P) {b : Bytes} {s' : State P}
      → P.file_size fp ≡ some n
      → (if n == 0 then pure [] else read_exactly P e f n fp) s ≡ (ok b, s')
      → (b ≡ P.unread fp) × (length b ≡ n)
  read_if_any-unread e f n fp s size h = elim (Bool-cases (n == 0)) [
    | inl none_left ↦
        let nil : n ≡ 0 = (==_iff n 0).0 none_left in
        pure-ok [] s (rw none_left at h)
          λ same _. rw (← same) (sym (empty_of_size fp (size ∙ ap some nil)), sym nil)
    | inr some_left ↦ read_exactly-unread e f n fp s size (rw some_left at h)
  ]

  pub read_file_all-contents :
      (path : Bytes) (s : State P) {b : Bytes} {s' : State P}
      → read_file_all P path s ≡ (ok b, s')
      → (P.file s.world path ≡ some b) × (length b ≤ manifest_max_len)
  unfolding read_file_all
  read_file_all-contents path s h = ask-or_raise-ok P _ _ _ _ h λ fp opened h₁.
      or_raise-ok _ _ _ _ h₁ λ n size h₂. check-ok _ _ _ _ h₂ λ small h₃.
        check-ok _ _ _ _ h₃ λ _ h₄.
          let (whole, long) = read_if_any-unread _ _ n fp _ size h₄ in
          let q = leb→le n manifest_max_len small in
          (L.fopen_rb_unread path s.world s.oracle fp opened ∙ ap some (sym whole), omega arith)

module _ (P : Platform) (L : IsLawful P) (C : Crypto P) (D : IsSound C) where
  conclude-accepted :
      (v : Verdict) (s : State P) {u : Unit {0}} {s' : State P}
      → conclude P C v s ≡ (ok u, s')
      → v ≡ accepted
  unfolding raise
  conclude-accepted accepted s h = refl
  conclude-accepted rejected s h = cc
  conclude-accepted broken s h = cc

  or_report-ok :
      (r : Result ReadFileError Bytes) (s : State P) {b : Bytes} {s' : State P}
      → or_report P C r s ≡ (ok b, s')
      → r ≡ ok b
  unfolding raise pure
  or_report-ok (ok c) s h = cc
  or_report-ok (err e) s h = cc

  -- What the streaming loop has taken: the key stays, and the data is the rest of the file.
  abbrev Taken : P.Stream → C.Ctx → C.Ctx → Type 0
  Taken bio ctx ctx' =
      (C.ctx_key ctx' ≡ C.ctx_key ctx) × (C.ctx_data ctx' ≡ C.ctx_data ctx ++ P.unread bio)

  verify_chunk-Taken :
      (rest : P.Stream → C.Ctx → Exec (State P) VerifyError C.Ctx)
      → ((bio : P.Stream) (ctx : C.Ctx) (s : State P) (ctx' : C.Ctx) (s' : State P)
          → rest bio ctx s ≡ (ok ctx', s')
          → Taken bio ctx ctx')
      → (bio : P.Stream) (ctx : C.Ctx) (s : State P) (ctx' : C.Ctx) (s' : State P)
        (q : Option Bytes × P.Stream)
      → C.bio_read 4096 bio ≡ q
      → verify_chunk P C rest ctx q s ≡ (ok ctx', s')
      → Taken bio ctx ctx'
  unfolding raise
  verify_chunk-Taken rest ih bio ctx s ctx' s' (none, bio') e h = absurd (cc)
  verify_chunk-Taken rest ih bio ctx s ctx' s' (some [], bio') e h =
      let end : P.unread bio ≡ [] = D.bio_read_end 4096 bio (omega arith) (ap (λ r. r.0) e) in
      pure-ok _ _ h λ same _. rw (← same, end) (refl, sym (append-nil (C.ctx_data ctx)))
  verify_chunk-Taken rest ih bio ctx s ctx' s' (some (c ∷ buf), bio') e h =
      ask-or_raise-ok P _ _ _ _ h λ next updated h₁.
        let got : (c ∷ buf) ++ P.unread bio' ≡ P.unread bio =
          (rw e at (D.bio_read_unread 4096 bio (c ∷ buf))) refl in
        let later = ih bio' next _ ctx' s' h₁ in
        (
          later.0 ∙ D.digest_verify_update_key (c ∷ buf) ctx _ next updated,
          later.1
              ∙ ap (λ t. t ++ P.unread bio')
                  (D.digest_verify_update_data (c ∷ buf) ctx _ next updated)
              ∙ append_assoc (C.ctx_data ctx) (c ∷ buf) (P.unread bio')
              ∙ ap (λ t. C.ctx_data ctx ++ t) got,
        )

  verify_loop-Taken :
      (fuel : ℕ) (bio : P.Stream) (ctx : C.Ctx) (s : State P) (ctx' : C.Ctx) (s' : State P)
      → verify_loop P C fuel bio ctx s ≡ (ok ctx', s')
      → Taken bio ctx ctx'
  unfolding verify_loop raise
  verify_loop-Taken zero bio ctx s ctx' s' h = absurd (cc)
  verify_loop-Taken (suc fuel) bio ctx s ctx' s' h =
      verify_chunk-Taken (verify_loop P C fuel) (verify_loop-Taken fuel) bio ctx s ctx' s' _ refl h

  -- The contents that a signature was checked against.
  abbrev pub SignedFile : P.World → Bytes → C.Key → Bytes → (ℕ → Type 0) → Type 0
  SignedFile w path key sig Fits =
      (contents : Bytes) × (P.file w path ≡ some contents)
      × C.Signed key sig contents
      × Fits (length contents)

  pub verify_rsa_ecdsa_signature-Signed :
      (path : Bytes) (key : C.Key) (sig : Bytes) (s : State P) {u : Unit {0}} {s' : State P}
      → verify_rsa_ecdsa_signature P C path key sig s ≡ (ok u, s')
      → SignedFile s.world path key sig (λ _. Unit {0})
  unfolding verify_rsa_ecdsa_signature
  verify_rsa_ecdsa_signature-Signed path key sig s h = ask-or_raise-ok P _ _ _ _ h λ bio opened h₁.
      ask-check-ok P _ _ _ _ h₁ λ _ h₂. ask-or_raise-ok P _ _ _ _ h₂ λ ctx started h₃.
        bind-ok _ _ _ h₃ λ ctx' t looped h₄. ask-ok P _ _ _ h₄ λ h₅.
          let taken = verify_loop-Taken _ bio ctx _ ctx' t looped in
          let signed = D.digest_verify_final_Signed ctx' sig _ (conclude-accepted _ _ h₅) in
          let key_is = taken.0 ∙ D.digest_verify_init_key true key _ ctx started in
          let data_is =
            taken.1
            ∙ ap (λ t. t ++ P.unread bio) (D.digest_verify_init_data true key _ ctx started) in
          (
            P.unread bio,
            D.bio_new_file_unread path s.world s.oracle bio opened,
            rw (key_is, data_is) at signed,
            tt,
          )

  pub verify_ed25519_signature-Signed :
      (path : Bytes) (key : C.Key) (sig : Bytes) (s : State P) {u : Unit {0}} {s' : State P}
      → verify_ed25519_signature P C path key sig s ≡ (ok u, s')
      → SignedFile s.world path key sig (λ n. (length sig ≡ 64) × (n ≤ manifest_max_len))
  unfolding verify_ed25519_signature
  verify_ed25519_signature-Signed path key sig s h = check-ok _ _ _ _ h λ size h₁.
      try-ok _ _ _ h₁ λ r t tried h₂. bind-ok _ _ _ h₂ λ contents t' reported h₃.
        ask-check-ok P _ _ _ _ h₃ λ _ h₄. ask-or_raise-ok P _ _ _ _ h₄ λ ctx started h₅.
          ask-ok P _ _ _ h₅ λ h₆.
            let read = rw (or_report-ok r t reported) at tried in
            let (found, small) = read_file_all-contents P L path s read in
            let signed = D.digest_verify_Signed ctx sig contents _ (conclude-accepted _ _ h₆) in
            (
              contents,
              found,
              rw (D.digest_verify_init_key _ key _ ctx started) at signed,
              ((==_iff _ _).0 size, small),
            )
