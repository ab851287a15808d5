-- ===== src/Enroll/Paths.antt =====
-- Paths and directories of src/enroll.c: `file_exists`, `mkdir_p`, `ensure_parent_dir` and
-- `fsync_parent_dir`. Its `mkdir_p` is a copy of the one in src/ota_fetch.c.
use ota_fetch.Base.{
  ℕ, Bytes, length, leb, Option, none, some, Bool, true, false, [], ◌∷◌, if◌then◌else◌, Result, ok,
  err, Exec, pure, raise, check, try, ◌>>=◌, ◌>>◌, ℤ,
}
use ota_fetch.Platform.{Platform, State, ask}
use ota_fetch.Platform.Posix.{Posix}
use ota_fetch.Fetch.Paths.{path_max, before_last_slash, mkdir_p}

-- -1, and the end of the fuel.
pub data EnrollError : Type 0 where
  failed out_of_fuel : EnrollError

module _ (P : Platform) where
  abbrev pub Enrolling : Type 0 → Type 0
  Enrolling A = Exec (State P) EnrollError A

  abbrev pub is_there : Option Bool → Bool
  is_there none = false
  is_there (some directory) = true

  -- `file_exists`, of a path that is not NULL.
  unfoldable pub path_exists : Bytes → Enrolling Bool
  path_exists path = do st ← ask P (P.stat path); pure (is_there st)

  abbrev pub or_failed : {A : Type 0} → Result ℤ A → Enrolling A
  or_failed (ok a) = pure a
  or_failed (err e) = raise failed

  -- `mkdir_p`, whose only error is -1.
  unfoldable pub make_dirs : Bytes → ℕ → Enrolling (Unit {0})
  unfolding mkdir_p
  make_dirs path mode = do made ← try (mkdir_p P (some path) mode); or_failed made

  -- `len == 0 || len >= PATH_MAX`
  abbrev pub has_path_length : Bytes → Bool
  has_path_length [] = false
  has_path_length (c ∷ s) = if leb path_max (length (c ∷ s)) then false else true

  -- What is done to the directory above, if the path names one that is not the root.
  abbrev pub on_parent : Option Bytes → (Bytes → Enrolling (Unit {0})) → Enrolling (Unit {0})
  on_parent none k = pure tt
  on_parent (some []) k = pure tt
  on_parent (some (c ∷ dir)) k = k (c ∷ dir)

  unfoldable pub ensure_parent_dir : Bytes → ℕ → Enrolling (Unit {0})
  unfolding make_dirs before_last_slash
  ensure_parent_dir path mode = do
    check (has_path_length path) failed
    on_parent (before_last_slash path) (λ dir. make_dirs dir mode)

  abbrev pub sync_dir : Posix P → Bytes → Enrolling (Unit {0})
  sync_dir X dir = do
    opened ← ask P (X.open_dir dir)
    check opened failed
    synced ← ask P (X.fsync_dir dir)
    check synced failed

  unfoldable pub fsync_parent_dir : Posix P → Bytes → Enrolling (Unit {0})
  unfolding before_last_slash
  fsync_parent_dir X path = do
    check (has_path_length path) failed
    on_parent (before_last_slash path) (sync_dir X)
