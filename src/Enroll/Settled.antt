-- ===== src/Enroll/Settled.antt =====
-- `write_file_atomic` of src/enroll.c, whatever it returns: the file at the path is the old one or the
-- whole of the new one.
use ota_fetch.Base.{ℕ, ◌≡◌, refl, ◌∙◌, Bytes, some, false, ◌⊎◌, inl, inr, Bool-cases, Exec, Result}
use ota_fetch.Platform.{Platform, IsLawful, State}
use ota_fetch.Platform.Steps.{
  Preorder, Steps, Steps-bind, Steps-check, Steps-try, Steps-after, keeps_file, ask-keeps_file,
}
use ota_fetch.Platform.Onward.{onward-bind, onward-check, onward-try, onward-act}
use ota_fetch.Platform.Inversion.{acted}
use ota_fetch.Platform.Posix.{Posix, IsPosix}
use ota_fetch.Fetch.Download.{tmp_of}
use ota_fetch.Enroll.Paths.{failed}
use ota_fetch.Enroll.Write.{Stop, fd_open, write_and_move, write_file_atomic}
use ota_fetch.Enroll.Kept.{
  or_stop-Steps, ensure_parent_dir-Steps, write_all-Steps, sync-Steps, discard-Steps,
  keeps_file-Spares,
}
use ota_fetch.Enroll.Atomic.{or_stop-ok, closed_at, closed_at-file, written-file}

module _ (P : Platform) where
  -- The file at the path is as before, or holds the contents.
  abbrev pub OldOrNew : Bytes → Bytes → State P → State P → Type 0
  OldOrNew path contents s t =
      (P.file t.world path ≡ P.file s.world path) ⊎ (P.file t.world path ≡ some contents)

  pub OldOrNew-trans :
      (path contents : Bytes) (s t u : State P)
      → OldOrNew path contents s t
      → OldOrNew path contents t u
      → OldOrNew path contents s u
  OldOrNew-trans path contents s t u h (inr new) = inr new
  OldOrNew-trans path contents s t u (inl old) (inl same) = inl (same ∙ old)
  OldOrNew-trans path contents s t u (inr new) (inl same) = inr (same ∙ new)

  abbrev pub settles : Bytes → Bytes → Preorder (State P)
  settles path contents = record {
    rel = OldOrNew path contents;
    rel_refl = λ s. inl refl;
    rel_trans = OldOrNew-trans path contents;
  }

  keeps_file-settles :
      {E A : Type 0} {m : Exec (State P) E A} (path contents : Bytes)
      → Steps (keeps_file P path) m
      → Steps (settles path contents) m
  keeps_file-settles path contents h = record { at = λ s. inl (h.at s) }

module _ (P : Platform) (L : IsLawful P) (X : Posix P) (D : IsPosix X) where
  module _ (path : Bytes) (away : P.same path (tmp_of path) ≡ false) where
    -- What `rename` does at the path, with the temporary file closed behind it.
    rename-settles :
        (contents : Bytes) (mode : ℕ) (s : State P)
        → P.file s.world (tmp_of path) ≡ some contents
        → OldOrNew P path contents
            (closed_at P X (tmp_of path) mode s)
            (acted P (P.rename (tmp_of path) path) (closed_at P X (tmp_of path) mode s))
    rename-settles contents mode s is_tmp =
        elim (Bool-cases
          (P.rename (tmp_of path) path (closed_at P X (tmp_of path) mode s).world
            (closed_at P X (tmp_of path) mode s).oracle).0) [
              | inl moved ↦ inr (
                  L.rename_moves _ _ _ _ moved
                  ∙ closed_at-file P L X D (tmp_of path) mode s
                  ∙ is_tmp)
              | inr stays ↦ inl (L.rename_fails _ _ _ _ path stays)
            ]

    write_and_move-settles :
        (fuel : ℕ) (contents : Bytes) (mode : ℕ) (s t : State P) {y : Result Stop (Unit {0})}
        → write_and_move P X fuel (tmp_of path) path contents mode s ≡ (y, t)
        → OldOrNew P path contents s t
    unfolding write_and_move
    write_and_move-settles fuel contents mode s t h =
        let S = settles P path contents in
        onward-act P S _ _ (inl (D.open_trunc_file (tmp_of path) mode _ _ path away)) h λ h₁.
          onward-check S _ _ _ h₁ λ opened h₂.
            onward-try S _ _
              (keeps_file-settles P path contents (
                write_all-Steps P X (keeps_file P path) (tmp_of path)
                  (keeps_file-Spares P L X D path (tmp_of path) away) fuel contents))
              h₂
              λ r s₂ e₂ h₃.
                onward-bind S _ _ (keeps_file-settles P path contents (or_stop-Steps P X fd_open r))
                  h₃
                  λ _ s₃ e₃ h₄. onward-act P S _ _ (inl (D.fchmod_file _ _ _ _ path)) h₄ λ h₅.
                    onward-check S _ _ _ h₅ λ _ h₆.
                      onward-act P S _ _ (inl (D.fsync_file _ _ _ path)) h₆ λ h₇.
                        onward-check S _ _ _ h₇ λ _ h₈.
                          onward-act P S _ _ (inl (D.close_file _ _ _ path)) h₈ λ h₉.
                            onward-check S _ _ _ h₉ λ _ h₁₀.
                              onward-act P S _ _
                                (rename-settles contents mode s₃ (
                                  written-file P L X D fuel (tmp_of path) contents mode s opened e₂
                                    (or_stop-ok P L X D fd_open r s₂ e₃)))
                                h₁₀
                                λ h₁₁. onward-check S _ _ _ h₁₁ λ _ h₁₂.
                                  Steps-after S _
                                    (keeps_file-settles P path contents (
                                      sync-Steps P X (keeps_file P path) (tmp_of path)
                                        (keeps_file-Spares P L X D path (tmp_of path) away) path))
                                    h₁₂

    pub write_file_atomic-settles :
        (fuel : ℕ) (contents : Bytes) (mode : ℕ)
        → Steps (settles P path contents) (write_file_atomic P X fuel path contents mode)
    unfolding write_file_atomic
    write_file_atomic-settles fuel contents mode =
        Steps-bind _ _
          (keeps_file-settles P path contents (
            ensure_parent_dir-Steps P X (keeps_file P path) (tmp_of path)
              (keeps_file-Spares P L X D path (tmp_of path) away) path 0o700))
          λ _. Steps-bind _ _ (keeps_file-settles P path contents (ask-keeps_file P path _)) λ got.
            Steps-bind _ _ (Steps-check got failed) λ _.
              Steps-bind _ _
                (Steps-try _
                  (record { at = λ s. write_and_move-settles fuel contents mode s _ refl }))
                λ y. keeps_file-settles P path contents (
                  discard-Steps P X (keeps_file P path) (tmp_of path)
                    (keeps_file-Spares P L X D path (tmp_of path) away) y)

  -- When a write ends, whatever it returns and wherever it stopped, the file at the path holds what it
  -- held before or the whole of the new text, if the path and that of the temporary file differ.
  pub write_file_atomic-OldOrNew :
      (path : Bytes)
      → P.same path (tmp_of path) ≡ false
      → (fuel : ℕ) (contents : Bytes) (mode : ℕ) (s : State P)
      → OldOrNew P path contents s (write_file_atomic P X fuel path contents mode s).1
  unfolding write_file_atomic
  write_file_atomic-OldOrNew path away fuel contents mode s =
      (write_file_atomic-settles path away fuel contents mode).at s
