-- ===== src/Enroll/Trimmed.antt =====
-- `read_token_file` of src/enroll.c: the token is what the file holds, less the white space around it.
use mathlib.Core.List.{append-nil, append_assoc}
use ota_fetch.Base.{
  ℕ, zero, suc, ◌+◌, ◌<◌, ◌≡◌, refl, sym, ◌∙◌, ap, Bytes, length, leb, ltb→lt, not, ◌&&◌, inl, inr,
  Bool-cases, not→false, Option, none, some, Bool, true, false, [], ◌∷◌, ◌++◌, ok, raise,
}
use ota_fetch.Platform.{Platform, IsLawful, State}
use ota_fetch.Platform.Inversion.{pure-ok, check-ok, bind-ok, ask-check-ok, ask-or_raise-ok}
use ota_fetch.Platform.Posix.{Posix, IsPosix}
use ota_fetch.Enroll.Paths.{Enrolling}
use ota_fetch.Enroll.Token.{
  TokenBuffer, isspace, trim_start, trim_last, trim_end, push_char, next_char, read_chars,
  empty_buffer, read_token_file,
}

abbrev all_spaces : Bytes → Bool
all_spaces [] = true
all_spaces (c ∷ s) = isspace c && all_spaces s

abbrev starts_bare : Bytes → Bool
starts_bare [] = true
starts_bare (c ∷ s) = not (isspace c)

abbrev ends_bare : Bytes → Bool
ends_bare [] = true
ends_bare (c ∷ []) = not (isspace c)
ends_bare (c ∷ d ∷ s) = ends_bare (d ∷ s)

-- The text is `token` with white space around it, and `token` has none at its ends.
pub record IsAround (token text : Bytes) : Type 0 where
  pub before : Bytes
  pub behind : Bytes
  pub is_text : before ++ token ++ behind ≡ text
  pub before_spaces : all_spaces before ≡ true
  pub behind_spaces : all_spaces behind ≡ true
  pub bare_start : starts_bare token ≡ true
  pub bare_end : ends_bare token ≡ true

-- What `trim_end` leaves off.
record EndTrimmed (s t : Bytes) : Type 0 where
  off : Bytes
  is_text : t ++ off ≡ s
  off_spaces : all_spaces off ≡ true
  bare : ends_bare t ≡ true

trim_last-EndTrimmed : (c : ℕ) (s t : Bytes) → EndTrimmed s t → EndTrimmed (c ∷ s) (trim_last c t)
trim_last-EndTrimmed c s [] h = elim (Bool-cases (isspace c)) [
  | inl space ↦ rw space (record {
    off = c ∷ s;
    is_text = refl;
    off_spaces = rw space (rw (← h.is_text) h.off_spaces);
    bare = refl;
  })
  | inr bare ↦ rw bare (record {
    off = h.off;
    is_text = ap (λ l. c ∷ l) h.is_text;
    off_spaces = h.off_spaces;
    bare = ap not bare;
  })
]
trim_last-EndTrimmed c s (d ∷ t) h = record {
  off = h.off;
  is_text = ap (λ l. c ∷ l) h.is_text;
  off_spaces = h.off_spaces;
  bare = h.bare;
}

trim_end-EndTrimmed : (s : Bytes) → EndTrimmed s (trim_end s)
unfolding trim_end
trim_end-EndTrimmed [] = record { off = []; is_text = refl; off_spaces = refl; bare = refl }
trim_end-EndTrimmed (c ∷ s) = trim_last-EndTrimmed c s (trim_end s) (trim_end-EndTrimmed s)

ends_bare-tail : (c : ℕ) (s : Bytes) → ends_bare (c ∷ s) ≡ true → ends_bare s ≡ true
ends_bare-tail c [] h = refl
ends_bare-tail c (d ∷ s) h = h

-- What `trim_start` leaves off, with the end as it was.
record StartTrimmed (s t : Bytes) : Type 0 where
  off : Bytes
  is_text : off ++ t ≡ s
  off_spaces : all_spaces off ≡ true
  bare : starts_bare t ≡ true
  bare_end : ends_bare t ≡ true

trim_start-StartTrimmed : (s : Bytes) → ends_bare s ≡ true → StartTrimmed s (trim_start s)
unfolding trim_start
trim_start-StartTrimmed [] h = record {
  off = [];
  is_text = refl;
  off_spaces = refl;
  bare = refl;
  bare_end = refl;
}
trim_start-StartTrimmed (c ∷ s) h = elim (Bool-cases (isspace c)) [
  | inl space ↦
      let later = trim_start-StartTrimmed s (ends_bare-tail c s h) in
      rw space (record {
        off = c ∷ later.off;
        is_text = ap (λ l. c ∷ l) later.is_text;
        off_spaces = rw space later.off_spaces;
        bare = later.bare;
        bare_end = later.bare_end;
      })
  | inr bare ↦
      rw bare
        (record { off = []; is_text = refl; off_spaces = refl; bare = ap not bare; bare_end = h })
]

trimmed-IsAround : (s : Bytes) → IsAround (trim_start (trim_end s)) s
trimmed-IsAround s =
    let e = trim_end-EndTrimmed s in
    let b = trim_start-StartTrimmed (trim_end s) e.bare in
    record {
      before = b.off;
      behind = e.off;
      is_text = ap (λ l. l ++ e.off) b.is_text ∙ e.is_text;
      before_spaces = b.off_spaces;
      behind_spaces = e.off_spaces;
      bare_start = b.bare;
      bare_end = b.bare_end;
    }

module _ (P : Platform) (L : IsLawful P) (X : Posix P) (D : IsPosix X) where
  push_char-chars :
      (buf : TokenBuffer) (c : ℕ) (s : State P) {buf' : TokenBuffer} {t : State P}
      → push_char P X buf c s ≡ (ok buf', t)
      → buf'.chars ≡ buf.chars ++ c ∷ []
  unfolding push_char
  push_char-chars buf c s h = elim (Bool-cases (leb buf.cap (length buf.chars + 1))) [
    | inl full ↦
        ask-check-ok P _ _ _ _ (rw full at h) λ _ h₁. pure-ok _ _ h₁ λ same _. rw (← same) refl
    | inr room ↦ pure-ok _ _ (rw room at h) λ same _. rw (← same) refl
  ]

  -- Running `m` puts the text behind what the buffer holds, if the stream then reports no error.
  abbrev Collects : Bytes → Bytes → Enrolling P (TokenBuffer × P.Stream) → Type 0
  Collects chars text m =
      (s : State P) (buf' : TokenBuffer) (fp' : P.Stream) (t : State P)
      → m s ≡ (ok (buf', fp'), t)
      → P.ferror fp' ≡ false
      → buf'.chars ≡ chars ++ text

  next_char-Collects :
      (rest : P.Stream → TokenBuffer → Enrolling P (TokenBuffer × P.Stream)) (fp : P.Stream)
      (buf : TokenBuffer)
      → ((later : P.Stream) (buf₁ : TokenBuffer)
          → Collects buf₁.chars (P.unread later) (rest later buf₁))
      → (q : Option ℕ × P.Stream) → X.fgetc fp ≡ q
      → Collects buf.chars (P.unread fp) (next_char P X rest buf q)
  next_char-Collects rest fp buf ih (none, last) e = λ s buf' fp' t h fine.
      pure-ok _ _ h λ at_end _.
        let ended : P.unread fp ≡ [] =
          (rw e at (D.fgetc_end fp)) refl (rw (ap (λ p. p.1) at_end) fine) in
        rw ended (sym (ap (λ p. p.0.chars) at_end) ∙ sym (append-nil buf.chars))
  next_char-Collects rest fp buf ih (some c, later) e = λ s buf' fp' t h fine.
      bind-ok _ _ _ h λ buf₁ s₁ e₁ h₁.
        ih later buf₁ s₁ buf' fp' t h₁ fine
        ∙ ap (λ l. l ++ P.unread later) (push_char-chars buf c s e₁)
        ∙ append_assoc buf.chars (c ∷ []) (P.unread later)
        ∙ ap (λ l. buf.chars ++ l) ((rw e at (D.fgetc_unread fp c)) refl)

  read_chars-Collects :
      (fuel : ℕ) (fp : P.Stream) (buf : TokenBuffer)
      → Collects buf.chars (P.unread fp) (read_chars P X fuel fp buf)
  unfolding read_chars raise
  read_chars-Collects zero fp buf = λ s buf' fp' t h fine. absurd (cc)
  read_chars-Collects (suc fuel) fp buf =
      next_char-Collects (read_chars P X fuel) fp buf (read_chars-Collects fuel) (X.fgetc fp) refl

  -- The token is the text of the file without the white space around it, and it is not empty.
  pub record IsTokenOf (path token : Bytes) (s : State P) : Type 0 where
    pub raw : Bytes
    pub is_raw : P.file s.world path ≡ some raw
    pub is_around : IsAround token raw
    pub not_empty : 0 < length token

  -- A token that is read is the text of the file at the path without the white space at its start and
  -- at its end: only white space was left off, none is left at either end, and the token is not empty.
  pub read_token_file-IsTokenOf :
      (path : Bytes) (s : State P) {token : Bytes} {t : State P}
      → read_token_file P X path s ≡ (ok token, t)
      → IsTokenOf path token s
  unfolding read_token_file
  read_token_file-IsTokenOf path s h = ask-or_raise-ok P _ _ _ _ h λ fp opened h₁.
      ask-check-ok P _ _ _ _ h₁ λ _ h₂. bind-ok _ _ _ h₂ λ done s₁ e₁ h₃.
        check-ok _ _ _ _ h₃ λ fine h₄. check-ok _ _ _ _ h₄ λ some_left h₅. pure-ok _ _ h₅ λ same _.
          let all : done.0.chars ≡ P.unread fp =
            read_chars-Collects _ fp empty_buffer _ done.0 done.1 s₁ e₁ (not→false _ fine) in
          record {
            raw = P.unread fp;
            is_raw = L.fopen_rb_unread _ _ _ _ opened;
            is_around = rw (← all, ← same) (trimmed-IsAround done.0.chars);
            not_empty = rw (← same) (ltb→lt _ _ some_left);
          }
