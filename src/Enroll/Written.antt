-- ===== src/Enroll/Written.antt =====
-- What `write_file_atomic` leaves at the path, whatever happens.
use mathlib.Core.List.{append-nil, append_assoc}
use ota_fetch.Base.{
  ℕ, zero, suc, ◌≡◌, refl, ◌∙◌, ap, Bytes, take, drop, take-append-drop, Option, none, some, [],
  ◌∷◌, ◌++◌, ok, pure, raise, ◌>>=◌,
}
use ota_fetch.Platform.{Platform, IsLawful, State, act}
use ota_fetch.Platform.Steps.{Steps, Steps-bind, Steps-check, Steps-pure, only_reads, read_rules}
use ota_fetch.Platform.Inversion.{acted, act-ok, pure-ok}
use ota_fetch.Platform.Posix.{Posix, IsPosix, Written, wrote, interrupted, broken_off}
use ota_fetch.Fetch.Paths.{before_last_slash}
use ota_fetch.Enroll.Paths.{Enrolling, on_parent, sync_dir, fsync_parent_dir}
use ota_fetch.Enroll.Write.{after_write, write_all}

module _ (P : Platform) where
  pub on_parent-Steps :
      {r : _} (dir : Option Bytes) (k : Bytes → Enrolling P (Unit {0}))
      → ((d : Bytes) → Steps r (k d))
      → Steps r (on_parent P dir k)
  on_parent-Steps none k h = Steps-pure tt
  on_parent-Steps (some []) k h = Steps-pure tt
  on_parent-Steps (some (c ∷ d)) k h = h (c ∷ d)

  sync_dir-only_reads : (X : Posix P) (dir : Bytes) → Steps (only_reads P) (sync_dir P X dir)
  sync_dir-only_reads X dir = search read_rules depth 20

  pub fsync_parent_dir-only_reads :
      (X : Posix P) (path : Bytes) → Steps (only_reads P) (fsync_parent_dir P X path)
  unfolding fsync_parent_dir
  fsync_parent_dir-only_reads X path =
      Steps-bind _ _ (Steps-check _ _)
        λ _. on_parent-Steps (before_last_slash path) (sync_dir P X) (sync_dir-only_reads X)

module _ (P : Platform) (L : IsLawful P) (X : Posix P) (D : IsPosix X) where
  -- Running `m` appends the text to the file at `fd`.
  abbrev Appends : Bytes → Bytes → Enrolling P (Unit {0}) → Type 0
  Appends fd left m =
      (c : Bytes) (s : State P) (u : Unit {0}) (t : State P)
      → P.file s.world fd ≡ some c
      → m s ≡ (ok u, t)
      → P.file t.world fd ≡ some (c ++ left)

  pure-Appends : (fd : Bytes) → Appends fd [] (pure tt)
  pure-Appends fd c s u t is_c h = pure-ok _ _ h λ _ same. rw (append-nil c) (rw (← same) is_c)

  write-Appends :
      (fd left : Bytes) (rest : Bytes → Enrolling P (Unit {0}))
      → ((d : Bytes) → Appends fd d (rest d))
      → Appends fd left (act P (X.write fd left) >>= after_write P X rest left)
  unfolding raise
  write-Appends fd left rest ih c s u t is_c h =
      act-ok P _ _ _ h λ h₁. go (X.write fd left s.world s.oracle).0 refl h₁
    where
      go :
          (w : Written)
          → (X.write fd left s.world s.oracle).0 ≡ w
          → after_write P X rest left w (acted P (X.write fd left) s) ≡ (ok u, t)
          → P.file t.world fd ≡ some (c ++ left)
      go (wrote n) e k =
          ih (drop n left) (c ++ take n left) _ u t
            (D.write_wrote fd left s.world s.oracle n c e is_c) k
          ∙ ap some (
              append_assoc c (take n left) (drop n left)
              ∙ ap (λ l. c ++ l) (take-append-drop n left))
      go interrupted e k =
          ih left c _ u t (D.write_interrupted fd left s.world s.oracle fd e ∙ is_c) k
      go broken_off e k = absurd (cc)

  -- A loop that ends has appended all that it was given.
  pub write_all-Appends :
      (fuel : ℕ) (fd left : Bytes) → Appends fd left (write_all P X fuel fd left)
  unfolding write_all raise
  write_all-Appends zero fd [] = pure-Appends fd
  write_all-Appends zero fd (d ∷ left) = λ c s u t is_c h. absurd (cc)
  write_all-Appends (suc fuel) fd [] = pure-Appends fd
  write_all-Appends (suc fuel) fd (d ∷ left) =
      write-Appends fd (d ∷ left) (write_all P X fuel fd) (write_all-Appends fuel fd)
