-- ===== src/Tests/Lawful.antt =====
-- The test machine behaves as the platform is documented to.
use ota_fetch.Base.{
  ℕ, zero, suc, ◌≡◌, ◌<◌, refl, ap, take, drop, length, take-append-drop, ◌⊎◌, Bytes, bytes_eq,
  bytes_eq_refl, Option, none, some, true, false, List, [], ◌∷◌, ◌++◌, arith, inl, inr, bytes_eq→eq,
  Bool-cases,
}
use ota_fetch.Platform.{IsLawful, Child, AreNames, is_name, removed, missing, stuck}
use ota_fetch.Tests.Machine.{
  Files, lookup, erase, insert, behind, listed, entries, unlinked, renamed, served, machine,
}

lookup-erase_same : (p : Bytes) (w : Files) → lookup p (erase p w) ≡ none
unfolding lookup erase
lookup-erase_same p [] = refl
lookup-erase_same p ((q, c) ∷ w) = ground (arith, lookup-erase_same p w)

lookup-erase_other :
    (q p : Bytes) (w : Files) → bytes_eq q p ≡ false → lookup q (erase p w) ≡ lookup q w
unfolding lookup erase
lookup-erase_other q p [] h = refl
lookup-erase_other q p ((r, c) ∷ w) h = elim (Bool-cases (bytes_eq p r)) [
  | inl at ↦
      let away : bytes_eq q r ≡ false = rw (← bytes_eq→eq p r at) h in
      rw at (rw away (lookup-erase_other q p w h))
  | inr off ↦ rw off (rw (lookup-erase_other q p w h))
]

pub lookup-insert_same : (p c : Bytes) (w : Files) → lookup p (insert p c w) ≡ some c
unfolding lookup
lookup-insert_same p c w = rw (bytes_eq_refl p)

pub lookup-insert_other :
    (q p c : Bytes) (w : Files) → bytes_eq q p ≡ false → lookup q (insert p c w) ≡ lookup q w
unfolding lookup
lookup-insert_other q p c w h = rw h (lookup-erase_other q p w h)

listed-AreNames :
    (name : Option Bytes) (names : List Bytes) → AreNames names → AreNames (listed name names)
listed-AreNames none names h = h
listed-AreNames (some name) names h = elim (Bool-cases (is_name name)) [
  | inl plain ↦ rw plain (plain, h)
  | inr slash ↦ rw slash h
]

entries-AreNames : (dir : Bytes) (w : Files) → AreNames (entries dir w)
entries-AreNames dir [] = tt
entries-AreNames dir ((q, c) ∷ w) =
    listed-AreNames (behind (dir ++ b'/' ∷ []) q) (entries dir w) (entries-AreNames dir w)

pub unlinked-other :
    (q p : Bytes) (w : Files) (o : Option Bytes)
    → bytes_eq q p ≡ false
    → lookup q (unlinked p w o).1 ≡ lookup q w
unlinked-other q p w none h = refl
unlinked-other q p w (some c) h = lookup-erase_other q p w h

unlinked-removed :
    (p : Bytes) (w : Files) (o : Option Bytes)
    → (unlinked p w o).0 ≡ removed
    → lookup p (unlinked p w o).1 ≡ none
unlinked-removed p w none h = absurd (cc)
unlinked-removed p w (some c) h = lookup-erase_same p w

unlinked-missing :
    (p : Bytes) (w : Files) (o : Option Bytes)
    → lookup p w ≡ o
    → (unlinked p w o).0 ≡ missing
    → lookup p (unlinked p w o).1 ≡ none
unlinked-missing p w none e h = e
unlinked-missing p w (some c) e h = absurd (cc)

unlinked-stuck :
    (p : Bytes) (w : Files) (o : Option Bytes) (q : Bytes)
    → (unlinked p w o).0 ≡ stuck
    → lookup q (unlinked p w o).1 ≡ lookup q w
unlinked-stuck p w none q h = refl
unlinked-stuck p w (some c) q h = absurd (cc)

pub renamed-other :
    (a b : Bytes) (w : Files) (o : Option Bytes) (q : Bytes)
    → bytes_eq q a ≡ false
    → bytes_eq q b ≡ false
    → lookup q (renamed a b w o).1 ≡ lookup q w
renamed-other a b w none q h k = refl
renamed-other a b w (some c) q h k =
    rw (lookup-insert_other q b c (erase a w) k) (lookup-erase_other q a w h)

pub renamed-moves :
    (a b : Bytes) (w : Files) (o : Option Bytes)
    → lookup a w ≡ o
    → (renamed a b w o).0 ≡ true
    → lookup b (renamed a b w o).1 ≡ o
renamed-moves a b w none e h = absurd (cc)
renamed-moves a b w (some c) e h = lookup-insert_same b c (erase a w)

renamed-fails :
    (a b : Bytes) (w : Files) (o : Option Bytes) (q : Bytes)
    → (renamed a b w o).0 ≡ false
    → lookup q (renamed a b w o).1 ≡ lookup q w
renamed-fails a b w none q h = refl
renamed-fails a b w (some c) q h = absurd (cc)

served-other :
    (p : Bytes) (w : Files) (o : Option Bytes) (q : Bytes)
    → bytes_eq q p ≡ false
    → lookup q (served p w o).1 ≡ lookup q w
served-other p w none q h = refl
served-other p w (some c) q h = lookup-insert_other q p c w h

pub take-eq_nil : (n : ℕ) (s : Bytes) → 0 < n → take n s ≡ [] → s ≡ []
take-eq_nil zero [] h e = refl
take-eq_nil (suc n) [] h e = refl
take-eq_nil zero (c ∷ s) h e = absurd (omega arith)
take-eq_nil (suc n) (c ∷ s) h e = cc

take-whole : (n : ℕ) (s : Bytes) → (length (take n s) ≡ n) ⊎ (drop n s ≡ [])
take-whole zero s = inl refl
take-whole (suc n) [] = inr refl
take-whole (suc n) (c ∷ s) = elim (take-whole n s) [
  | inl full ↦ inl (ap (λ m. suc m) full)
  | inr short ↦ inr short
]

fread-count : (n : ℕ) (s : Bytes) → (length (take n s) ≡ n) ⊎ (false ≡ true) ⊎ (drop n s ≡ [])
fread-count n s = elim (take-whole n s) [ inl full ↦ inl full | inr short ↦ inr (inr short) ]

names-AreNames : (l names : List Bytes) → AreNames l → some l ≡ some names → AreNames names
names-AreNames l names h e = let same : l ≡ names = cc in rw same at h

pub machine-IsLawful :
    (server : Bytes → Option Bytes) (child : Child) → IsLawful (machine server child)
machine-IsLawful server child = record {
  fopen_rb_unread = λ p w o s h. h;
  fread_unread = λ n s. take-append-drop n s;
  fread_end = λ n s h e. inr (take-eq_nil n s h e);
  fread_count = λ n s. fread-count n s;
  file_size_unread = λ s n h. cc;
  readdir_names = λ p w o names h. names-AreNames (entries p w) names (entries-AreNames p w) h;
  mkdir_file = λ p m w o q. refl;
  unlink_file = λ p w o q h. unlinked-other q p w (lookup p w) h;
  unlink_removed = λ p w o h. unlinked-removed p w (lookup p w) h;
  unlink_missing = λ p w o h. unlinked-missing p w (lookup p w) refl h;
  unlink_stuck = λ p w o q h. unlinked-stuck p w (lookup p w) q h;
  rename_file = λ a b w o q h k. renamed-other a b w (lookup a w) q h k;
  rename_moves = λ a b w o h. renamed-moves a b w (lookup a w) refl h;
  rename_fails = λ a b w o q h. renamed-fails a b w (lookup a w) q h;
  fopen_wb_file = λ p w o q h. lookup-insert_other q p [] w h;
  fflush_file = λ p w o q h. refl;
  fclose_file = λ p w o q h. refl;
  curl_easy_perform_file = λ r p w o q h. served-other p w (server r.url) q h;
}
