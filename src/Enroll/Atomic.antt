-- ===== src/Enroll/Atomic.antt =====
-- `write_file_atomic` of src/enroll.c: what it leaves at the path when it succeeds, and when it fails.
use ota_fetch.Base.{
  ℕ, ◌≡◌, refl, ◌∙◌, ap, Bytes, some, true, [], Result, ok, err, pure, raise, ◌>>=◌,
}
use ota_fetch.Platform.{Platform, IsLawful, State, act}
use ota_fetch.Platform.Steps.{Steps-after, only_reads}
use ota_fetch.Platform.Inversion.{acted, act-ok, ask-check-ok, check-ok, bind-ok, try-ok}
use ota_fetch.Platform.Posix.{Posix, IsPosix}
use ota_fetch.Fetch.Download.{tmp_of}
use ota_fetch.Enroll.Paths.{EnrollError, failed, out_of_fuel, fsync_parent_dir}
use ota_fetch.Enroll.Write.{
  Stop, fd_open, fd_closed, unending, write_all, or_stop, write_and_move, discard,
  write_file_atomic,
}
use ota_fetch.Enroll.Written.{fsync_parent_dir-only_reads, write_all-Appends}

-- The state behind the calls on the temporary file.
abbrev pub closed_at : (P : Platform) (X : Posix P) → Bytes → ℕ → State P → State P
closed_at P X tmp_path mode s =
    acted P (X.close tmp_path) (acted P (X.fsync tmp_path) (acted P (X.fchmod tmp_path mode) s))

module _ (P : Platform) (L : IsLawful P) (X : Posix P) (D : IsPosix X) where
  pub or_stop-ok :
      (stop : Stop) (y : Result EnrollError (Unit {0})) (s : State P) {u : Unit {0}} {t : State P}
      → or_stop P X stop y s ≡ (ok u, t)
      → (y ≡ ok tt) × (s ≡ t)
  unfolding pure raise
  or_stop-ok stop (ok u) s h = (refl, cc)
  or_stop-ok stop (err failed) s h = absurd (cc)
  or_stop-ok stop (err out_of_fuel) s h = absurd (cc)

  discard-ok :
      (tmp_path : Bytes) (y : Result Stop (Unit {0})) (s : State P) {u : Unit {0}} {t : State P}
      → discard P X tmp_path y s ≡ (ok u, t)
      → (y ≡ ok tt) × (s ≡ t)
  unfolding discard pure raise act ◌>>=◌
  discard-ok tmp_path (ok u) s h = (refl, cc)
  discard-ok tmp_path (err fd_open) s h = absurd (cc)
  discard-ok tmp_path (err fd_closed) s h = absurd (cc)
  discard-ok tmp_path (err unending) s h = absurd (cc)

  pub closed_at-file :
      (tmp_path : Bytes) (mode : ℕ) (s : State P)
      → P.file (closed_at P X tmp_path mode s).world tmp_path ≡ P.file s.world tmp_path
  closed_at-file tmp_path mode s =
      D.close_file _ _ _ _ ∙ D.fsync_file _ _ _ _ ∙ D.fchmod_file _ _ _ _ _

  pub written-file :
      (fuel : ℕ) (tmp_path contents : Bytes) (mode : ℕ) (s : State P)
      {r : Result EnrollError (Unit {0})} {s₂ s₃ : State P}
      → (X.open_trunc tmp_path mode s.world s.oracle).0 ≡ true
      → write_all P X fuel tmp_path contents (acted P (X.open_trunc tmp_path mode) s) ≡ (r, s₂)
      → (r ≡ ok tt) × (s₂ ≡ s₃)
      → P.file s₃.world tmp_path ≡ some contents
  written-file fuel tmp_path contents mode s {s₂} opened e (fine, same) = rw (← same) (
      write_all-Appends P L X D fuel tmp_path contents [] (acted P (X.open_trunc tmp_path mode) s)
        tt s₂ (D.open_trunc_empty tmp_path mode s.world s.oracle opened)
        (e ∙ ap (λ y. (y, s₂)) fine))

  -- The whole text is at the path, with the mode.
  pub record IsWritten (path contents : Bytes) (mode : ℕ) (t : State P) : Type 0 where
    pub is_contents : P.file t.world path ≡ some contents
    pub is_mode : X.mode t.world path ≡ some mode

  renamed-IsWritten :
      (tmp_path path contents : Bytes) (mode : ℕ) (s t : State P)
      {y : Result EnrollError (Unit {0})}
      → P.file s.world tmp_path ≡ some contents
      → (X.fchmod tmp_path mode s.world s.oracle).0 ≡ true
      → (P.rename tmp_path path
          (closed_at P X tmp_path mode s).world
          (closed_at P X tmp_path mode s).oracle).0
        ≡ true
      → fsync_parent_dir P X path (acted P (P.rename tmp_path path) (closed_at P X tmp_path mode s))
        ≡ (y, t)
      → IsWritten path contents mode t
  renamed-IsWritten tmp_path path contents mode s t is_tmp moded moved e =
      let same = (Steps-after (only_reads P) _ (fsync_parent_dir-only_reads P X path) e).0 in
      record {
        is_contents =
            rw same (L.rename_moves _ _ _ _ moved ∙ closed_at-file tmp_path mode s ∙ is_tmp);
        is_mode = rw same (
            D.rename_mode _ _ _ _ moved
            ∙ D.close_mode _ _ _ _
            ∙ D.fsync_mode _ _ _ _
            ∙ D.fchmod_mode _ _ _ _ moded);
      }

  write_and_move-IsWritten :
      (fuel : ℕ) (tmp_path path contents : Bytes) (mode : ℕ) (s : State P) {u : Unit {0}}
      {t : State P}
      → write_and_move P X fuel tmp_path path contents mode s ≡ (ok u, t)
      → IsWritten path contents mode t
  unfolding write_and_move
  write_and_move-IsWritten fuel tmp_path path contents mode s h = act-ok P _ _ _ h λ h₁.
      check-ok _ _ _ _ h₁ λ opened h₂. try-ok _ _ _ h₂ λ r s₂ e₂ h₃. bind-ok _ _ _ h₃ λ _ s₃ e₃ h₄.
        act-ok P _ _ _ h₄ λ h₅. check-ok _ _ _ _ h₅ λ moded h₆. act-ok P _ _ _ h₆ λ h₇.
          check-ok _ _ _ _ h₇ λ _ h₈. act-ok P _ _ _ h₈ λ h₉. check-ok _ _ _ _ h₉ λ _ h₁₀.
            act-ok P _ _ _ h₁₀ λ h₁₁. check-ok _ _ _ _ h₁₁ λ moved h₁₂.
              try-ok _ _ _ h₁₂ λ y s₄ e₄ h₁₃.
                let (_, at_end) = or_stop-ok fd_closed y s₄ h₁₃ in
                rw (← at_end) (
                  renamed-IsWritten tmp_path path contents mode s₃ s₄
                    (written-file fuel tmp_path contents mode s opened e₂
                      (or_stop-ok fd_open r s₂ e₃))
                    moded moved e₄)

  -- A write that succeeds has put the whole text at the path, and the file has the mode.
  pub write_file_atomic-IsWritten :
      (fuel : ℕ) (path contents : Bytes) (mode : ℕ) (s : State P) {u : Unit {0}} {t : State P}
      → write_file_atomic P X fuel path contents mode s ≡ (ok u, t)
      → IsWritten path contents mode t
  unfolding write_file_atomic
  write_file_atomic-IsWritten fuel path contents mode s h = bind-ok _ _ _ h λ _ s₁ _ h₁.
      ask-check-ok P _ _ _ _ h₁ λ _ h₂. try-ok _ _ _ h₂ λ y s₂ e₂ h₃.
        let (fine, at_end) = discard-ok (tmp_of path) y s₂ h₃ in
        rw (← at_end) (
          write_and_move-IsWritten fuel (tmp_of path) path contents mode _
            (e₂ ∙ ap (λ z. (z, s₂)) fine))
