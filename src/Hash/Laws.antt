-- ===== src/Hash/Laws.antt =====
-- What a digest of src/hash.c is the digest of, and that its read loop ends.
use mathlib.Core.List.{append-nil, append_assoc}
use ota_fetch.Base.{
  ℕ, zero, suc, ◌≡◌, refl, sym, ◌∙◌, ap, ◌⊎◌, inl, inr, Bytes, length, some, true, [], ◌∷◌, ◌++◌,
  not, arith, Exec, ok, raise, ==_iff,
}
use ota_fetch.Platform.Inversion.{pure-ok, check-ok, bind-ok, ask-check-ok, ask-or_raise-ok}
use ota_fetch.Platform.{Platform, IsLawful, State, Crypto, IsSound}
use ota_fetch.Hash.Digest.{HashError, hash_loop, hash_chunk, hash_stream, sha256sum_file}

module _ (P : Platform) (L : IsLawful P) (C : Crypto P) (D : IsSound C) where
  -- What the loop has hashed and what is left are what was there; it stops at an error or the end.
  abbrev Hashed : P.Stream → C.Md → C.Md × P.Stream → Type 0
  Hashed fp md (md', fp') =
      (C.absorbed md' ++ P.unread fp' ≡ C.absorbed md ++ P.unread fp)
      × ((P.ferror fp' ≡ true) ⊎ (P.unread fp' ≡ []))

  hash_chunk-Hashed :
      (rest : P.Stream → C.Md → Exec (State P) HashError (C.Md × P.Stream))
      → ((fp : P.Stream) (md : C.Md) (s : State P) (r : C.Md × P.Stream) (s' : State P)
          → rest fp md s ≡ (ok r, s')
          → Hashed fp md r)
      → (fp : P.Stream) (md : C.Md) (s : State P) (r : C.Md × P.Stream) (s' : State P)
        (q : Bytes × P.Stream)
      → P.fread 4096 fp ≡ q
      → hash_chunk P C rest md q s ≡ (ok r, s')
      → Hashed fp md r
  hash_chunk-Hashed rest ih fp md s r s' ([], fp') e h =
      let got : P.unread fp' ≡ P.unread fp = rw e at (L.fread_unread 4096 fp) in
      let last : (P.ferror fp' ≡ true) ⊎ (P.unread fp ≡ []) =
        (rw e at (L.fread_end 4096 fp (omega arith))) refl in
      pure-ok _ _ h λ same _. rw (← same) (
        ap (λ t. C.absorbed md ++ t) got,
        elim last [ inl bad ↦ inl bad | inr all ↦ inr (got ∙ all) ],
      )
  hash_chunk-Hashed rest ih fp md s r s' (c ∷ buf, fp') e h =
      ask-or_raise-ok P _ _ _ _ h λ md' e' h'.
        let got : (c ∷ buf) ++ P.unread fp' ≡ P.unread fp = rw e at (L.fread_unread 4096 fp) in
        let rest_of = ih fp' md' _ r s' h' in
        (
          rest_of.0
              ∙ ap (λ t. t ++ P.unread fp') (D.digest_update_absorbed (c ∷ buf) md _ md' e')
              ∙ append_assoc (C.absorbed md) (c ∷ buf) (P.unread fp')
              ∙ ap (λ t. C.absorbed md ++ t) got,
          rest_of.1,
        )

  hash_loop-Hashed :
      (fuel : ℕ) (fp : P.Stream) (md : C.Md) (s : State P) (r : C.Md × P.Stream) (s' : State P)
      → hash_loop P C fuel fp md s ≡ (ok r, s')
      → Hashed fp md r
  unfolding hash_loop raise
  hash_loop-Hashed zero fp md s r s' h = cc
  hash_loop-Hashed (suc fuel) fp md s r s' h =
      hash_chunk-Hashed (hash_loop P C fuel) (hash_loop-Hashed fuel) fp md s r s' _ refl h

  -- A loop that met no read error has hashed the whole stream.
  Hashed-all :
      (fp : P.Stream) (md : C.Md) (r : C.Md × P.Stream)
      → C.absorbed md ≡ []
      → not (P.ferror r.1) ≡ true
      → Hashed fp md r
      → C.absorbed r.0 ≡ P.unread fp
  Hashed-all fp md (md', fp') fresh fine (all, inl bad) = ground arith
  Hashed-all fp md (md', fp') fresh fine (all, inr end) =
      sym (append-nil (C.absorbed md'))
      ∙ ap (λ t. C.absorbed md' ++ t) (sym end)
      ∙ all
      ∙ ap (λ t. t ++ P.unread fp) fresh

  -- A digest of a stream is the SHA-256 of all its bytes, and has 32 bytes.
  pub hash_stream-sha256 :
      (fp : P.Stream) (s : State P) {d : Bytes} {s' : State P}
      → hash_stream P C fp s ≡ (ok d, s')
      → (d ≡ C.sha256 (P.unread fp)) × (length d ≡ 32)
  unfolding hash_stream
  hash_stream-sha256 fp s h = ask-check-ok P _ _ _ _ h λ _ h₁.
      ask-or_raise-ok P _ _ _ _ h₁ λ md fresh h₂. bind-ok _ _ _ h₂ λ done t looped h₃.
        check-ok _ _ _ _ h₃ λ fine h₄. ask-or_raise-ok P _ _ _ _ h₄ λ digest final h₅.
          check-ok _ _ _ _ h₅ λ size h₆. pure-ok _ _ h₆ λ same _.
            let hashed = hash_loop-Hashed _ fp md _ done t looped in
            let all = Hashed-all fp md done (D.digest_init_absorbed _ md fresh) fine hashed in
            rw (← same)
              (D.digest_final_sha256 done.0 _ digest final ∙ ap C.sha256 all, (==_iff _ _).0 size)

  -- A successful `sha256sum_file` returns the SHA-256 of the file's contents, 32 bytes.
  pub sha256sum_file-sha256 :
      (path : Bytes) (s : State P) {d : Bytes} {s' : State P}
      → sha256sum_file P C (some path) s ≡ (ok d, s')
      → (contents : Bytes) × (P.file s.world path ≡ some contents)
        × (d ≡ C.sha256 contents)
        × (length d ≡ 32)
  unfolding sha256sum_file
  sha256sum_file-sha256 path s h = ask-or_raise-ok P _ _ _ _ h λ fp opened h₁.
      let (digest, size) = hash_stream-sha256 fp _ h₁ in
      (P.unread fp, L.fopen_rb_unread path s.world s.oracle fp opened, digest, size)
