-- ===== src/Log/Shown.antt =====
-- What is to be seen of the progress line and of the log lines of src/log.c on a terminal.
use mathlib.Core.List.{append_assoc}
use ota_fetch.Base.{
  ℕ, suc, ◌+◌, ◌-◌, ◌≤◌, ◌≡◌, refl, ap, ◌∙◌, Bytes, length, length-append, drop, ltb, true, false,
  ◌&&◌, Bool-cases, inl, inr, [], ◌∷◌, ◌++◌, arith,
}
use ota_fetch.Log.Defs.{Log, progress_text, padding, with_padding}
use ota_fetch.Log.Screen.{
  Screen, blank, feed, seen, is_plain, all_blank, feed-append, feed-return, spaces-plain,
  spaces-blank, length-spaces, plain-append, blank-append, drop-blank_more,
}

-- The terminal behind what was written.
abbrev pub screen : Log → Screen
screen log = feed blank log.stderr

-- On a terminal, everything behind the progress line is blank; without one, the whole line is, and the
-- cursor stands at its start.
pub record IsClean (log : Log) : Type 0 where
  pub on_tty : log.is_tty ≡ true
  pub rest_blank : all_blank (drop (log.progress_width - 1) (seen (screen log))) ≡ true
  pub idle_width : log.progress_active ≡ false → log.progress_width ≡ 0
  pub idle_start : log.progress_active ≡ false → (screen log).before ≡ []

padding-plain : (log : Log) (n : ℕ) → is_plain (padding log n) ≡ true
padding-plain log n = elim (Bool-cases (log.progress_active && ltb n log.progress_width)) [
  | inl wide ↦ rw wide (spaces-plain (log.progress_width - n))
  | inr narrow ↦ rw narrow refl
]

padding-blank : (log : Log) (n : ℕ) → all_blank (padding log n) ≡ true
padding-blank log n = elim (Bool-cases (log.progress_active && ltb n log.progress_width)) [
  | inl wide ↦ rw wide (spaces-blank (log.progress_width - n))
  | inr narrow ↦ rw narrow refl
]

-- The padding covers what the line before had.
padding-covers :
    (log : Log) (n : ℕ) → IsClean log → log.progress_width - 1 ≤ n + length (padding log (suc n))
padding-covers log n h = elim (Bool-cases log.progress_active) [
  | inr idle ↦ let nothing = h.idle_width idle in rw idle (omega (arith, nothing))
  | inl active ↦ elim (Bool-cases (ltb (suc n) log.progress_width)) [
    | inl wide ↦ rw active (rw wide (omega (arith, length-spaces (log.progress_width - suc n))))
    | inr narrow ↦ rw active (rw narrow (ground arith))
  ]
]

-- The line that is to be seen is the text, and blanks.
pub record Shows (text : Bytes) (scr : Screen) : Type 0 where
  pub rest : Bytes
  pub is_line : seen scr ≡ text ++ rest
  pub is_rest_blank : all_blank rest ≡ true

pub with_padding-Shows :
    (log : Log) (message : Bytes)
    → IsClean log
    → is_plain message ≡ true
    → Shows (progress_text message) (feed blank (log.stderr ++ with_padding log message))
with_padding-Shows log message h plain =
    let text = progress_text message in
    let pad = padding log (suc (length text)) in
    let all_plain : is_plain (text ++ pad) ≡ true =
      plain-append text pad plain (padding-plain log (suc (length text))) in
    let enough : log.progress_width - 1 ≤ length (text ++ pad) =
      omega (arith, padding-covers log (length text) h, length-append text pad) in
    record {
      rest = pad ++ drop (length (text ++ pad)) (seen (screen log));
      is_line =
          ap (λ scr. seen scr)
            (feed-append blank log.stderr (13 ∷ text ++ pad)
              ∙ feed-return (screen log) (text ++ pad) all_plain)
          ∙ append_assoc text pad (drop (length (text ++ pad)) (seen (screen log)));
      is_rest_blank =
          blank-append pad _ (padding-blank log (suc (length text)))
            (drop-blank_more (log.progress_width - 1) _ (seen (screen log)) enough h.rest_blank);
    }
