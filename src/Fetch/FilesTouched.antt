-- ===== src/Fetch/FilesTouched.antt =====
-- Which paths `mkdir_p`, `fetch_file` and the functions that they call may change.
use ota_fetch.Base.{
  ℕ, Bytes, Option, none, some, Bool, true, false, [], ◌∷◌, ◌++◌, ◌==◌, Result, ok, err, take,
}
use ota_fetch.Platform.{Platform, State, act, Request, Mkdir, made, exists, refused}
use ota_fetch.Platform.Steps.{Preorder, Steps, Steps-if, Steps-bind, step_rules}
use ota_fetch.Platform.Footprint.{Tolerates}
use ota_fetch.Config.{Config}
use ota_fetch.Fetch.Paths.{
  build_path, mkdir_rc, mkdir_one, mkdir_loop, mkdir_temp, mkdir_p, mkdir_parent,
  ensure_parent_dir_exists, before_last_slash,
}
use ota_fetch.Fetch.Download.{download, cleanup, tmp_of, fetch_file}

module _ {P : Platform} {r : Preorder (State P)}
    (mkdirs : (E : Type 0) (p : Bytes) (m : ℕ) → Steps r (act P {E = E} (P.mkdir p m))) where
  mkdir_rc-Steps : (x : Mkdir) → Steps r (mkdir_rc P x)
  mkdir_rc-Steps made = search step_rules
  mkdir_rc-Steps exists = search step_rules
  mkdir_rc-Steps refused = search step_rules

  mkdir_one-Steps : (mode : ℕ) (dir : Bytes) → Steps r (mkdir_one P mode dir)
  unfolding mkdir_one
  mkdir_one-Steps mode dir = search (step_rules, mkdirs, mkdir_rc-Steps)

  mkdir_loop-Steps : (mode : ℕ) (before rest : Bytes) → Steps r (mkdir_loop P mode before rest)
  unfolding mkdir_loop
  mkdir_loop-Steps mode before [] = mkdir_one-Steps mode before
  mkdir_loop-Steps mode before (c ∷ rest) =
      let later = mkdir_loop-Steps mode (before ++ c ∷ []) rest in
      Steps-if (c == b'/') _ _ (Steps-bind _ _ (mkdir_one-Steps mode before) λ u. later) later

  mkdir_temp-Steps : (mode : ℕ) (temp : Bytes) → Steps r (mkdir_temp P mode temp)
  mkdir_temp-Steps mode [] = search step_rules
  mkdir_temp-Steps mode (c ∷ s) = mkdir_loop-Steps mode (c ∷ []) s

  pub mkdir_p-Steps : (path : Option Bytes) (mode : ℕ) → Steps r (mkdir_p P path mode)
  unfolding mkdir_p
  mkdir_p-Steps none mode = search step_rules
  mkdir_p-Steps (some path) mode = search (step_rules, mkdir_temp-Steps) depth 10

module _ {P : Platform} {r : Preorder (State P)} {Allowed : Bytes → Type 0}
    (T : Tolerates P r Allowed) where
  pub build_path-Steps :
      {E : Type 0} (dir file : Option Bytes) → Steps r (build_path P {E = E} dir file)
  unfolding build_path
  build_path-Steps none file = search step_rules
  build_path-Steps (some dir) none = search step_rules
  build_path-Steps (some dir) (some file) = search (step_rules, T.ask_ok) depth 10

  mkdir_parent-Steps : (dir : Option Bytes) → Steps r (mkdir_parent P dir)
  mkdir_parent-Steps none = search step_rules
  mkdir_parent-Steps (some []) = search step_rules
  mkdir_parent-Steps (some (c ∷ d)) = mkdir_p-Steps T.mkdir_ok (some (c ∷ d)) 0o755

  pub ensure_parent_dir_exists-Steps :
      (path : Option Bytes) → Steps r (ensure_parent_dir_exists P path)
  unfolding ensure_parent_dir_exists
  ensure_parent_dir_exists-Steps none = search step_rules
  ensure_parent_dir_exists-Steps (some path) =
      mkdir_parent-Steps (before_last_slash (take 4095 path))

  pub cleanup-Steps :
      (tmp_path : Bytes) (x : Result Bool (Unit {0}))
      → Allowed tmp_path
      → Steps r (cleanup P tmp_path x)
  unfolding cleanup
  cleanup-Steps tmp_path (ok u) allowed = search step_rules
  cleanup-Steps tmp_path (err true) allowed = search (step_rules, T.fclose_ok, T.unlink_ok) depth 10
  cleanup-Steps tmp_path (err false) allowed = search (step_rules, T.unlink_ok) depth 10

  download-Steps :
      (q : Request) (tmp_path dest_path : Bytes)
      → Allowed tmp_path
      → Allowed dest_path
      → Steps r (download P q tmp_path dest_path)
  unfolding download
  download-Steps q tmp_path dest_path a b =
      search
        (step_rules, T.ask_ok, T.fopen_wb_ok, T.perform_ok, T.fflush_ok, T.fclose_ok, T.rename_ok)
        depth 40

  -- A download changes the destination and its temporary file, and no other.
  pub fetch_file-Steps :
      (url dest_path : Bytes) (cfg : Config) (progress : Bool)
      → Allowed (tmp_of dest_path)
      → Allowed dest_path
      → Steps r (fetch_file P url dest_path cfg progress)
  unfolding fetch_file
  fetch_file-Steps url dest_path cfg progress a b =
      search (step_rules, T.ask_ok, ensure_parent_dir_exists-Steps, download-Steps, cleanup-Steps)
        depth 20
