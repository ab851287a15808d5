-- ===== src/Log/Screen.antt =====
-- A terminal, and what the output of src/log.c leaves on it.
use mathlib.Core.List.{append-nil, append_assoc}
use ota_fetch.Base.{
  ℕ, zero, suc, ◌≤◌, ◌≡◌, refl, sym, ap, ◌∙◌, Bytes, length, drop, ◌==◌, Bool, true, false, not,
  ◌&&◌, [], ◌∷◌, ◌++◌, if◌then◌else◌, arith,
}
use ota_fetch.Log.Defs.{spaces}

-- The line of the cursor: the columns before it, and those from it on. A carriage return goes to the
-- first column, a newline to a new line, and every other byte takes a column.
pub record Screen : Type 0 where
  pub before : Bytes
  pub beyond : Bytes

abbrev pub blank : Screen
blank = record { before = []; beyond = [] }

abbrev put : ℕ → Screen → Screen
put c scr =
    if c == 13
    then record { before = []; beyond = scr.before ++ scr.beyond }
    else if c == 10
    then blank
    else record { before = scr.before ++ c ∷ []; beyond = drop 1 scr.beyond }

abbrev pub feed : Screen → Bytes → Screen
feed scr [] = scr
feed scr (c ∷ text) = feed (put c scr) text

-- What is to be seen in the line.
abbrev pub seen : Screen → Bytes
seen scr = scr.before ++ scr.beyond

-- Neither a carriage return nor a newline.
abbrev pub is_plain : Bytes → Bool
is_plain [] = true
is_plain (c ∷ text) = not (c == 13) && not (c == 10) && is_plain text

abbrev pub all_blank : Bytes → Bool
all_blank [] = true
all_blank (c ∷ text) = c == 32 && all_blank text

pub feed-append : (scr : Screen) (a b : Bytes) → feed scr (a ++ b) ≡ feed (feed scr a) b
feed-append scr [] b = refl
feed-append scr (c ∷ a) b = feed-append (put c scr) a b

drop-drop_one : (n : ℕ) (s : Bytes) → drop n (drop 1 s) ≡ drop (suc n) s
drop-drop_one zero [] = refl
drop-drop_one (suc n) [] = refl
drop-drop_one n (c ∷ s) = refl

plain-parts :
    (c : ℕ) (text : Bytes)
    → is_plain (c ∷ text) ≡ true
    → ((c == 13) ≡ false) × ((c == 10) ≡ false) × (is_plain text ≡ true)
plain-parts c text h = ground arith

feed-plain :
    (text before beyond : Bytes)
    → is_plain text ≡ true
    → feed (record { before = before; beyond = beyond }) text
      ≡ record { before = before ++ text; beyond = drop (length text) beyond }
feed-plain [] before beyond h =
    ap (λ b. record { before = b; beyond = beyond }) (sym (append-nil before))
feed-plain (c ∷ text) before beyond h =
    let (no_return, no_newline, rest) = plain-parts c text h in
    rw no_return (
      rw no_newline (
        feed-plain text (before ++ c ∷ []) (drop 1 beyond) rest
        ∙ ap (λ b. record { before = b; beyond = drop (length text) (drop 1 beyond) })
            (append_assoc before (c ∷ []) text)
        ∙ ap (λ b. record { before = before ++ c ∷ text; beyond = b })
            (drop-drop_one (length text) beyond)))

pub feed-newline : (scr : Screen) (text : Bytes) → feed scr (text ++ 10 ∷ []) ≡ blank
feed-newline scr text = feed-append scr text (10 ∷ [])

pub spaces-plain : (n : ℕ) → is_plain (spaces n) ≡ true
spaces-plain zero = refl
spaces-plain (suc n) = spaces-plain n

pub spaces-blank : (n : ℕ) → all_blank (spaces n) ≡ true
spaces-blank zero = refl
spaces-blank (suc n) = spaces-blank n

pub length-spaces : (n : ℕ) → length (spaces n) ≡ n
length-spaces zero = refl
length-spaces (suc n) = omega (arith, length-spaces n)

pub plain-append : (a b : Bytes) → is_plain a ≡ true → is_plain b ≡ true → is_plain (a ++ b) ≡ true
plain-append [] b h k = k
plain-append (c ∷ a) b h k =
    let (no_return, no_newline, rest) = plain-parts c a h in
    rw no_return (rw no_newline (plain-append a b rest k))

blank-parts :
    (c : ℕ) (text : Bytes)
    → all_blank (c ∷ text) ≡ true
    → ((c == 32) ≡ true) × (all_blank text ≡ true)
blank-parts c text h = ground arith

pub blank-append :
    (a b : Bytes) → all_blank a ≡ true → all_blank b ≡ true → all_blank (a ++ b) ≡ true
blank-append [] b h k = k
blank-append (c ∷ a) b h k =
    let (space, rest) = blank-parts c a h in rw space (blank-append a b rest k)

drop-blank : (n : ℕ) (s : Bytes) → all_blank s ≡ true → all_blank (drop n s) ≡ true
drop-blank zero s h = h
drop-blank (suc n) [] h = refl
drop-blank (suc n) (c ∷ s) h = drop-blank n s (blank-parts c s h).1

pub drop-blank_more :
    (m n : ℕ) (s : Bytes) → m ≤ n → all_blank (drop m s) ≡ true → all_blank (drop n s) ≡ true
drop-blank_more zero n s h k = drop-blank n s k
drop-blank_more (suc m) zero s h k = absurd (omega (arith, h))
drop-blank_more (suc m) (suc n) [] h k = refl
drop-blank_more (suc m) (suc n) (c ∷ s) h k = drop-blank_more m n s (omega (arith, h)) k

pub drop-append : (a b : Bytes) → drop (length a) (a ++ b) ≡ b
drop-append [] b = refl
drop-append (c ∷ a) b = drop-append a b

-- The cursor at the start of the line, and a text from there on.
pub feed-return :
    (scr : Screen) (text : Bytes)
    → is_plain text ≡ true
    → feed scr (13 ∷ text) ≡ record { before = text; beyond = drop (length text) (seen scr) }
feed-return scr text h = feed-plain text [] (seen scr) h
