-- ===== src/Enroll/Room.antt =====
-- The buffer of `read_token_file` of src/enroll.c: its doubling keeps room, without wrapping around.
use ota_fetch.Base.{
  ℕ, zero, suc, ◌+◌, ◌*◌, ◌%◌, ◌^◌, ◌<◌, ◌≤◌, ◌≡◌, refl, ap, length, length-append, leb, leb→le,
  inl, inr, Bool-cases, Option, none, some, true, false, [], ◌∷◌, ◌++◌, ok, raise, arith,
}
use ota_fetch.Platform.{Platform, State}
use ota_fetch.Platform.Inversion.{pure-ok, bind-ok, ask-check-ok}
use ota_fetch.Platform.Posix.{Posix, IsPosix}
use ota_fetch.Enroll.Paths.{Enrolling}
use ota_fetch.Enroll.Token.{TokenBuffer, push_char, next_char, read_chars, empty_buffer}

-- The bytes fit with one to spare for the terminator, and the capacity is in proportion to them.
pub record HasRoom (buf : TokenBuffer) : Type 0 where
  pub room : length buf.chars < buf.cap
  pub bounded : buf.cap ≤ 256 + 2 * length buf.chars

pub empty_buffer-HasRoom : HasRoom empty_buffer
empty_buffer-HasRoom = record { room = omega arith; bounded = omega arith }

grown-HasRoom :
    (buf : TokenBuffer) (c : ℕ)
    → HasRoom buf
    → length buf.chars < 2 ^ 61
    → leb buf.cap (length buf.chars + 1) ≡ true
    → HasRoom (record { chars = buf.chars ++ c ∷ []; cap = buf.cap * 2 % 2 ^ 64 })
grown-HasRoom buf c h small full =
    let one_more : length (buf.chars ++ c ∷ []) ≡ length buf.chars + 1 =
      length-append buf.chars (c ∷ []) in
    let tight = leb→le buf.cap (length buf.chars + 1) full in
    record { room = omega (arith, h.room, h.bounded); bounded = omega (arith, h.room, h.bounded) }

kept-HasRoom :
    (buf : TokenBuffer) (c : ℕ)
    → HasRoom buf
    → leb buf.cap (length buf.chars + 1) ≡ false
    → HasRoom (record { chars = buf.chars ++ c ∷ []; cap = buf.cap })
kept-HasRoom buf c h spare =
    let one_more : length (buf.chars ++ c ∷ []) ≡ length buf.chars + 1 =
      length-append buf.chars (c ∷ []) in
    let loose : length buf.chars + 1 < buf.cap = ground arith in
    record { room = omega (arith, h.room, h.bounded); bounded = omega (arith, h.room, h.bounded) }

module _ (P : Platform) (X : Posix P) where
  push_char-HasRoom :
      (buf : TokenBuffer) (c : ℕ) (s : State P) {buf' : TokenBuffer} {t : State P}
      → HasRoom buf
      → length buf.chars < 2 ^ 61
      → push_char P X buf c s ≡ (ok buf', t)
      → HasRoom buf' × (length buf'.chars ≡ length buf.chars + 1)
  unfolding push_char
  push_char-HasRoom buf c s h small e = elim (Bool-cases (leb buf.cap (length buf.chars + 1))) [
    | inl full ↦ ask-check-ok P _ _ _ _ (rw full at e) λ _ e₁.
        pure-ok _ _ e₁
          λ same _. rw (← same) (grown-HasRoom buf c h small full, length-append buf.chars (c ∷ []))
    | inr spare ↦
        pure-ok _ _ (rw spare at e)
          λ same _. rw (← same) (kept-HasRoom buf c h spare, length-append buf.chars (c ∷ []))
  ]

  module _ (D : IsPosix X) where
    abbrev Fills : P.Stream → TokenBuffer → Enrolling P (TokenBuffer × P.Stream) → Type 0
    Fills fp buf m =
        (s : State P) (buf' : TokenBuffer) (fp' : P.Stream) (t : State P)
        → HasRoom buf
        → length buf.chars + length (P.unread fp) < 2 ^ 61
        → m s ≡ (ok (buf', fp'), t)
        → HasRoom buf'

    next_char-Fills :
        (rest : P.Stream → TokenBuffer → Enrolling P (TokenBuffer × P.Stream)) (fp : P.Stream)
        (buf : TokenBuffer)
        → ((later : P.Stream) (buf₁ : TokenBuffer) → Fills later buf₁ (rest later buf₁))
        → (q : Option ℕ × P.Stream) → X.fgetc fp ≡ q
        → Fills fp buf (next_char P X rest buf q)
    next_char-Fills rest fp buf ih (none, last) e =
        λ s buf' fp' t h small k. pure-ok _ _ k λ at_end _. rw (← ap (λ p. p.0) at_end) h
    next_char-Fills rest fp buf ih (some c, later) e = λ s buf' fp' t h small k.
        let got : c ∷ P.unread later ≡ P.unread fp = (rw e at (D.fgetc_unread fp c)) refl in
        let shorter = ap length got in
        bind-ok _ _ _ k λ buf₁ s₁ e₁ k₁.
          let (room, one_more) = push_char-HasRoom buf c s h (omega (arith, small)) e₁ in
          ih later buf₁ s₁ buf' fp' t room (omega (arith, small, one_more, shorter)) k₁

    -- The loop of `read_token_file` keeps its buffer well formed: from a buffer with room for one more
    -- byte, with less than 2^61 bytes in it and in the file, it ends with such a buffer, so that every
    -- byte and the terminator were written within the capacity, which has not wrapped around.
    pub read_chars-HasRoom :
        (fuel : ℕ) (fp : P.Stream) (buf : TokenBuffer) (s : State P) {buf' : TokenBuffer}
        {fp' : P.Stream} {t : State P}
        → HasRoom buf
        → length buf.chars + length (P.unread fp) < 2 ^ 61
        → read_chars P X fuel fp buf s ≡ (ok (buf', fp'), t)
        → HasRoom buf'
    unfolding read_chars raise
    read_chars-HasRoom zero fp buf s h small e = absurd (cc)
    read_chars-HasRoom (suc fuel) fp buf s h small e =
        next_char-Fills (read_chars P X fuel) fp buf
          (λ later buf₁.
            λ s₁ buf' fp' t h₁ small₁ e₁. read_chars-HasRoom fuel later buf₁ s₁ h₁ small₁ e₁)
          (X.fgetc fp) refl s _ _ _ h small e
