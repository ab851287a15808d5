-- ===== src/Fetch/Paths.antt =====
-- Paths and directories of src/ota_fetch.c: `build_path`, `mkdir_p` and
-- `ensure_parent_dir_exists`.
use ota_fetch.Base.{
  ℕ, ◌+◌, Bytes, length, take, Option, none, some, [], ◌∷◌, ◌++◌, ◌==◌, leb, if◌then◌else◌, Exec,
  pure, raise, ◌>>=◌, ◌>>◌, ℤ, minus_one,
}
use ota_fetch.Platform.{Platform, State, ask, act, Mkdir, made, exists, refused}

abbrev pub path_max : ℕ
path_max = 4096

-- `dir/file`, as `snprintf(result, len, "%s/%s", dir, file)` writes it.
unfoldable pub join : Bytes → Bytes → Bytes
join dir file = dir ++ b'/' ∷ file

-- Drops the last character if it is a slash.
unfoldable pub drop_slash : Bytes → Bytes
drop_slash [] = []
drop_slash (c ∷ []) = if c == b'/' then [] else c ∷ []
drop_slash (c ∷ d ∷ s) = c ∷ drop_slash (d ∷ s)

-- `temp` of `mkdir_p`: the path without one trailing slash, unless the path is one character.
unfoldable pub trim_slash : Bytes → Bytes
unfolding drop_slash
trim_slash [] = []
trim_slash (c ∷ s) = c ∷ drop_slash s

-- The text before the last slash; `none` if there is no slash.
unfoldable pub before_last_slash : Bytes → Option Bytes
before_last_slash [] = none
before_last_slash (c ∷ s) = elim (before_last_slash s) [
  | some d ↦ some (c ∷ d)
  | none ↦ if c == b'/' then some [] else none
]

module _ (P : Platform) where
  unfoldable pub build_path :
      {E : Type 0} → Option Bytes → Option Bytes → Exec (State P) E (Option Bytes)
  unfolding join
  build_path none file = pure none
  build_path (some dir) none = pure none
  build_path (some dir) (some file) = do
    got ← ask P (λ w. P.malloc (length dir + length file + 2))
    pure (if got then some (join dir file) else none)

  abbrev pub mkdir_rc : Mkdir → Exec (State P) ℤ (Unit {0})
  mkdir_rc made = pure tt
  mkdir_rc exists = pure tt
  mkdir_rc refused = raise minus_one

  unfoldable pub mkdir_one : ℕ → Bytes → Exec (State P) ℤ (Unit {0})
  mkdir_one mode dir = do r ← act P (P.mkdir dir mode); mkdir_rc r

  -- The loop over `p`: `before` is `temp` up to `p`, `rest` is the string at `p`.
  unfoldable pub mkdir_loop : ℕ → Bytes → Bytes → Exec (State P) ℤ (Unit {0})
  unfolding mkdir_one
  mkdir_loop mode before [] = mkdir_one mode before
  mkdir_loop mode before (c ∷ rest) =
      let later = mkdir_loop mode (before ++ c ∷ []) rest in
      if c == b'/' then (mkdir_one mode before >> later) else later

  abbrev pub mkdir_temp : ℕ → Bytes → Exec (State P) ℤ (Unit {0})
  mkdir_temp mode [] = raise minus_one
  mkdir_temp mode (c ∷ s) = mkdir_loop mode (c ∷ []) s

  -- `errno` is not kept: EINVAL, ENAMETOOLONG and a refused `mkdir` all return -1.
  unfoldable pub mkdir_p : Option Bytes → ℕ → Exec (State P) ℤ (Unit {0})
  unfolding mkdir_loop trim_slash
  mkdir_p none mode = raise minus_one
  mkdir_p (some path) mode =
      if leb path_max (length path) then raise minus_one else mkdir_temp mode (trim_slash path)

  abbrev pub mkdir_parent : Option Bytes → Exec (State P) ℤ (Unit {0})
  mkdir_parent none = pure tt
  mkdir_parent (some []) = pure tt
  mkdir_parent (some (c ∷ d)) = mkdir_p (some (c ∷ d)) 0o755

  -- `strncpy` keeps the first PATH_MAX - 1 characters.
  unfoldable pub ensure_parent_dir_exists : Option Bytes → Exec (State P) ℤ (Unit {0})
  unfolding mkdir_p before_last_slash
  ensure_parent_dir_exists none = raise minus_one
  ensure_parent_dir_exists (some dest_path) = mkdir_parent (before_last_slash (take 4095 dest_path))
