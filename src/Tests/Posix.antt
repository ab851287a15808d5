-- ===== src/Tests/Posix.antt =====
-- Descriptors, modes, keys, a POST and the printing of JSON on the test machine, and that they behave as
-- they are documented to. The mode of a file is a matter of its first character, and `fchmod` confirms it.
use mathlib.Core.Path.{◌≡◌, refl, ap}
use ota_fetch.Base.{
  ℕ, suc, ◌<◌, ◌≢◌, ◌==◌, ==_iff, length, min, take, Bytes, bytes_eq, Option, none, some, Bool,
  true, false, [], ◌∷◌, ◌++◌, if◌then◌else◌, arith,
}
use ota_fetch.Platform.Posix.{Posix, IsPosix, Written, wrote, interrupted, broken_off}
use ota_fetch.Enroll.Ends.{Progresses}
use ota_fetch.Tests.Machine.{Files, lookup, insert}
use ota_fetch.Tests.Lawful.{
  lookup-insert_same, lookup-insert_other, renamed-moves, renamed-other, unlinked-other,
}
use ota_fetch.Tests.Site.{device}

abbrev mode_of : Option Bytes → Option ℕ
mode_of none = none
mode_of (some []) = some 0o644
mode_of (some (c ∷ s)) = if c == b'K' then some 0o600 else some 0o644

abbrev is_mode : Option ℕ → ℕ → Bool
is_mode none m = false
is_mode (some n) m = n == m

-- Up to four bytes are written at a time.
abbrev appended : Bytes → Bytes → Files → Option Bytes → Written × Files
appended p b w none = (broken_off, w)
appended p b w (some c) = (wrote (min 4 (length b)), insert p (c ++ take (min 4 (length b)) b) w)

abbrev next_byte : Bytes → Option ℕ × Bytes
next_byte [] = (none, [])
next_byte (c ∷ s) = (some c, s)

abbrev pub posix : Posix device
posix = record {
  mode = λ w p. mode_of (lookup p w);
  fgetc = next_byte;
  open_trunc = λ p m w o. (true, insert p [] w, o);
  write = λ p b w o. ((appended p b w (lookup p w)).0, (appended p b w (lookup p w)).1, o);
  fchmod = λ p m w o. (is_mode (mode_of (lookup p w)) m, w, o);
  fsync = λ p w o. (true, w, o);
  close = λ p w o. (true, w, o);
  open_dir = λ p w o. (true, o);
  fsync_dir = λ p w o. (true, o);
}

next_byte-unread : (s : Bytes) (c : ℕ) → (next_byte s).0 ≡ some c → c ∷ (next_byte s).1 ≡ s
next_byte-unread [] c h = absurd (cc)
next_byte-unread (d ∷ s) c h = cc

next_byte-end : (s : Bytes) → (next_byte s).0 ≡ none → s ≡ []
next_byte-end [] h = refl
next_byte-end (d ∷ s) h = absurd (cc)

appended-wrote :
    (p b : Bytes) (w : Files) (o : Option Bytes) (n : ℕ) (c : Bytes)
    → (appended p b w o).0 ≡ wrote n
    → o ≡ some c
    → lookup p (appended p b w o).1 ≡ some (c ++ take n b)
appended-wrote p b w none n c h e = absurd (cc)
appended-wrote p b w (some d) n c h e =
    let same_text : d ≡ c = cc in
    let count : min 4 (length b) ≡ n = cc in
    rw (← same_text, ← count) (lookup-insert_same p (d ++ take (min 4 (length b)) b) w)

appended-interrupted :
    (p b : Bytes) (w : Files) (o : Option Bytes) (q : Bytes)
    → (appended p b w o).0 ≡ interrupted
    → lookup q (appended p b w o).1 ≡ lookup q w
appended-interrupted p b w none q h = refl
appended-interrupted p b w (some d) q h = absurd (cc)

appended-other :
    (p b : Bytes) (w : Files) (o : Option Bytes) (q : Bytes)
    → bytes_eq q p ≡ false
    → lookup q (appended p b w o).1 ≡ lookup q w
appended-other p b w none q h = refl
appended-other p b w (some d) q h = lookup-insert_other q p _ w h

appended-positive :
    (p : Bytes) (c : ℕ) (b : Bytes) (w : Files) (o : Option Bytes) (n : ℕ)
    → (appended p (c ∷ b) w o).0 ≡ wrote n
    → 0 < n
appended-positive p c b w none n h = absurd (cc)
appended-positive p c b w (some d) n h =
    let count : min 4 (suc (length b)) ≡ n = cc in omega (arith, count)

appended-never_interrupted :
    (p b : Bytes) (w : Files) (o : Option Bytes) → (appended p b w o).0 ≢ interrupted
appended-never_interrupted p b w none h = cc
appended-never_interrupted p b w (some d) h = cc

is_mode-some : (o : Option ℕ) (m : ℕ) → is_mode o m ≡ true → o ≡ some m
is_mode-some none m h = absurd (cc)
is_mode-some (some n) m h = ap some ((==_iff n m).0 h)

pub posix-IsPosix : IsPosix posix
posix-IsPosix = record {
  fgetc_unread = next_byte-unread;
  fgetc_end = λ s h fine. next_byte-end s h;
  open_trunc_empty = λ p m w o h. lookup-insert_same p [] w;
  open_trunc_file = λ p m w o q h. lookup-insert_other q p [] w h;
  write_wrote = λ p b w o n c h e. appended-wrote p b w (lookup p w) n c h e;
  write_interrupted = λ p b w o q h. appended-interrupted p b w (lookup p w) q h;
  write_file = λ p b w o q h. appended-other p b w (lookup p w) q h;
  fchmod_file = λ p m w o q. refl;
  fchmod_mode = λ p m w o h. is_mode-some _ m h;
  fsync_file = λ p w o q. refl;
  fsync_mode = λ p w o q. refl;
  close_file = λ p w o q. refl;
  close_mode = λ p w o q. refl;
  rename_mode = λ a b w o h. ap mode_of (renamed-moves a b w (lookup a w) refl h);
  mkdir_mode = λ p m w o q n h. h;
  unlink_mode = λ p w o q h. ap mode_of (unlinked-other q p w (lookup p w) h);
  rename_mode_other = λ a b w o q h k. ap mode_of (renamed-other a b w (lookup a w) q h k);
  open_trunc_mode = λ p m w o q h. ap mode_of (lookup-insert_other q p [] w h);
  write_mode = λ p b w o q h. ap mode_of (appended-other p b w (lookup p w) q h);
  fchmod_mode_other = λ p m w o q h. refl;
}

pub posix-Progresses : Progresses device posix (λ o. 0)
posix-Progresses = record {
  wrote_some = λ p c b w o n h. (appended-positive p c b w (lookup p w) n h, omega arith);
  one_less = λ p b w o h. absurd (appended-never_interrupted p b w (lookup p w) h);
}
