-- ===== src/Enroll/Kept.antt =====
-- What `write_file_atomic` of src/enroll.c leaves alone: one set of lemmas for every relation that its
-- calls keep.
use ota_fetch.Base.{
  ℕ, zero, suc, ◌≡◌, ap, ◌∙◌, Bytes, drop, false, some, [], ◌∷◌, Exec, Result, ok, err, try, ◌>>=◌,
}
use ota_fetch.Platform.{Platform, IsLawful, State, ask, act}
use ota_fetch.Platform.Steps.{
  Preorder, Steps, step_rules, Steps-bind, Steps-check, Steps-try, Steps-raise, Steps-pure,
  keeps_file, act-keeps_file, ask-keeps_file, only_reads, only_reads-keeps_file,
}
use ota_fetch.Platform.Posix.{Posix, IsPosix, Written, wrote, interrupted, broken_off}
use ota_fetch.Fetch.Download.{tmp_of}
use ota_fetch.Fetch.Paths.{before_last_slash}
use ota_fetch.Fetch.FilesTouched.{mkdir_p-Steps}
use ota_fetch.Enroll.Paths.{
  EnrollError, failed, out_of_fuel, Enrolling, or_failed, make_dirs, ensure_parent_dir,
  fsync_parent_dir,
}
use ota_fetch.Enroll.Write.{
  Stop, fd_open, fd_closed, unending, after_write, write_all, or_stop, write_and_move, discard,
  write_file_atomic,
}
use ota_fetch.Enroll.Written.{on_parent-Steps, fsync_parent_dir-only_reads}

-- The calls on the temporary file, but for the renaming, keep the relation, and so do those that change
-- no file.
pub record Spares (P : Platform) (X : Posix P) (r : Preorder (State P)) (tmp_path : Bytes)
    : Type 1 where
  pub asks : (E A : Type 0) (f : P.World → P.Oracle → A × P.Oracle) → Steps r (ask P {E = E} f)
  pub reads : (E A : Type 0) (m : Exec (State P) E A) → Steps (only_reads P) m → Steps r m
  pub mkdirs : (E : Type 0) (p : Bytes) (m : ℕ) → Steps r (act P {E = E} (P.mkdir p m))
  pub opens : (E : Type 0) (m : ℕ) → Steps r (act P {E = E} (X.open_trunc tmp_path m))
  pub writes : (E : Type 0) (b : Bytes) → Steps r (act P {E = E} (X.write tmp_path b))
  pub fchmods : (E : Type 0) (m : ℕ) → Steps r (act P {E = E} (X.fchmod tmp_path m))
  pub fsyncs : (E : Type 0) → Steps r (act P {E = E} (X.fsync tmp_path))
  pub closes : (E : Type 0) → Steps r (act P {E = E} (X.close tmp_path))
  pub unlinks : (E : Type 0) → Steps r (act P {E = E} (P.unlink tmp_path))

module _ (P : Platform) (X : Posix P) where
  pub or_stop-Steps :
      {r : _} (stop : Stop) (y : Result EnrollError (Unit {0})) → Steps r (or_stop P X stop y)
  or_stop-Steps stop (ok u) = Steps-pure tt
  or_stop-Steps stop (err failed) = Steps-raise stop
  or_stop-Steps stop (err out_of_fuel) = Steps-raise unending

  or_failed-Steps : {r : _} (y : _) → Steps r (or_failed P {A = Unit {0}} y)
  or_failed-Steps (ok u) = Steps-pure u
  or_failed-Steps (err e) = Steps-raise failed

  module _ (r : Preorder (State P)) (tmp_path : Bytes) (V : Spares P X r tmp_path) where
    pub ensure_parent_dir-Steps :
        (path : Bytes) (mode : ℕ) → Steps r (ensure_parent_dir P path mode)
    unfolding ensure_parent_dir make_dirs
    ensure_parent_dir-Steps path mode = Steps-bind _ _ (Steps-check _ _) λ _.
        on_parent-Steps P (before_last_slash path) (λ dir. make_dirs P dir mode)
          λ dir.
            Steps-bind _ _ (Steps-try _ (mkdir_p-Steps V.mkdirs (some dir) mode)) or_failed-Steps

    after_write-Steps :
        (rest : Bytes → Enrolling P (Unit {0})) (left : Bytes) (w : Written)
        → ((d : Bytes) → Steps r (rest d))
        → Steps r (after_write P X rest left w)
    after_write-Steps rest left (wrote n) h = h (drop n left)
    after_write-Steps rest left interrupted h = h left
    after_write-Steps rest left broken_off h = Steps-raise failed

    pub write_all-Steps : (fuel : ℕ) (left : Bytes) → Steps r (write_all P X fuel tmp_path left)
    unfolding write_all
    write_all-Steps zero [] = Steps-pure tt
    write_all-Steps zero (c ∷ left) = Steps-raise out_of_fuel
    write_all-Steps (suc fuel) [] = Steps-pure tt
    write_all-Steps (suc fuel) (c ∷ left) =
        Steps-bind _ _ (V.writes _ (c ∷ left))
          λ w. after_write-Steps (write_all P X fuel tmp_path) (c ∷ left) w (write_all-Steps fuel)

    pub sync-Steps :
        (path : Bytes) → Steps r (try (fsync_parent_dir P X path) >>= or_stop P X fd_closed)
    sync-Steps path =
        Steps-bind _ _ (Steps-try _ (V.reads _ _ _ (fsync_parent_dir-only_reads P X path)))
          (or_stop-Steps fd_closed)

    pub discard-Steps : (y : Result Stop (Unit {0})) → Steps r (discard P X tmp_path y)
    unfolding discard
    discard-Steps (ok u) = Steps-pure tt
    discard-Steps (err fd_open) = search (step_rules, V.closes, V.unlinks) depth 20
    discard-Steps (err fd_closed) = search (step_rules, V.unlinks) depth 20
    discard-Steps (err unending) = Steps-raise out_of_fuel

    write_and_move-Steps :
        (fuel : ℕ) (path contents : Bytes) (mode : ℕ)
        → ((E : Type 0) → Steps r (act P {E = E} (P.rename tmp_path path)))
        → Steps r (write_and_move P X fuel tmp_path path contents mode)
    unfolding write_and_move
    write_and_move-Steps fuel path contents mode renames =
        search
          (
            step_rules, V.opens, write_all-Steps, or_stop-Steps, V.fchmods, V.fsyncs, V.closes,
            renames, sync-Steps,
          )
          depth 60

  pub write_file_atomic-Steps :
      (r : Preorder (State P)) (path : Bytes) (V : Spares P X r (tmp_of path)) (fuel : ℕ)
      (contents : Bytes) (mode : ℕ)
      → ((E : Type 0) → Steps r (act P {E = E} (P.rename (tmp_of path) path)))
      → Steps r (write_file_atomic P X fuel path contents mode)
  unfolding write_file_atomic
  write_file_atomic-Steps r path V fuel contents mode renames =
      Steps-bind _ _ (ensure_parent_dir-Steps r (tmp_of path) V path 0o700) λ _.
        Steps-bind _ _ (V.asks _ _ _) λ got. Steps-bind _ _ (Steps-check got failed) λ _.
          Steps-bind _ _
            (Steps-try _ (write_and_move-Steps r (tmp_of path) V fuel path contents mode renames))
            (discard-Steps r (tmp_of path) V)

module _ (P : Platform) (L : IsLawful P) (X : Posix P) (D : IsPosix X) where
  -- Another file.
  pub keeps_file-Spares :
      (q tmp_path : Bytes) → P.same q tmp_path ≡ false → Spares P X (keeps_file P q) tmp_path
  keeps_file-Spares q tmp_path away = record {
    asks = λ E A f. ask-keeps_file P q f;
    reads = λ E A m h. only_reads-keeps_file P q h;
    mkdirs = λ E p m. act-keeps_file P q _ (λ w o. L.mkdir_file p m w o q);
    opens = λ E m. act-keeps_file P q _ (λ w o. D.open_trunc_file tmp_path m w o q away);
    writes = λ E b. act-keeps_file P q _ (λ w o. D.write_file tmp_path b w o q away);
    fchmods = λ E m. act-keeps_file P q _ (λ w o. D.fchmod_file tmp_path m w o q);
    fsyncs = λ E. act-keeps_file P q _ (λ w o. D.fsync_file tmp_path w o q);
    closes = λ E. act-keeps_file P q _ (λ w o. D.close_file tmp_path w o q);
    unlinks = λ E. act-keeps_file P q _ (λ w o. L.unlink_file tmp_path w o q away);
  }

  -- A write changes no file but the one at the path and the temporary one.
  pub write_file_atomic-keeps :
      (q path : Bytes)
      → P.same q path ≡ false
      → P.same q (tmp_of path) ≡ false
      → (fuel : ℕ) (contents : Bytes) (mode : ℕ)
      → Steps (keeps_file P q) (write_file_atomic P X fuel path contents mode)
  write_file_atomic-keeps q path apart away fuel contents mode =
      write_file_atomic-Steps P X (keeps_file P q) path (keeps_file-Spares q (tmp_of path) away)
        fuel contents mode
        λ E. act-keeps_file P q _ (λ w o. L.rename_file (tmp_of path) path w o q away apart)

  -- The mode of another file.
  abbrev pub keeps_mode : Bytes → ℕ → Preorder (State P)
  keeps_mode q n = record {
    rel = λ s t. X.mode s.world q ≡ some n → X.mode t.world q ≡ some n;
    rel_refl = λ s h. h;
    rel_trans = λ s t u h k e. k (h e);
  }

  ask-keeps_mode :
      (q : Bytes) (n : ℕ) {E A : Type 0} (f : P.World → P.Oracle → A × P.Oracle)
      → Steps (keeps_mode q n) (ask P {E = E} f)
  unfolding ask
  ask-keeps_mode q n f = record { at = λ s h. h }

  act-keeps_mode :
      (q : Bytes) (n : ℕ) {E A : Type 0} (f : P.World → P.Oracle → A × P.World × P.Oracle)
      → ((w : P.World) (o : P.Oracle) → X.mode w q ≡ some n → X.mode (f w o).1 q ≡ some n)
      → Steps (keeps_mode q n) (act P {E = E} f)
  unfolding act
  act-keeps_mode q n f h = record { at = λ s. h s.world s.oracle }

  only_reads-keeps_mode :
      (q : Bytes) (n : ℕ) {E A : Type 0} {m : Exec (State P) E A}
      → Steps (only_reads P) m
      → Steps (keeps_mode q n) m
  only_reads-keeps_mode q n h = record { at = λ s e. ap (λ w. X.mode w q) (h.at s).0 ∙ e }

  keeps_mode-Spares :
      (q : Bytes) (n : ℕ) (tmp_path : Bytes)
      → P.same q tmp_path ≡ false
      → Spares P X (keeps_mode q n) tmp_path
  keeps_mode-Spares q n tmp_path away = record {
    asks = λ E A f. ask-keeps_mode q n f;
    reads = λ E A m h. only_reads-keeps_mode q n h;
    mkdirs = λ E p m. act-keeps_mode q n _ (λ w o h. D.mkdir_mode p m w o q n h);
    opens = λ E m. act-keeps_mode q n _ (λ w o h. D.open_trunc_mode tmp_path m w o q away ∙ h);
    writes = λ E b. act-keeps_mode q n _ (λ w o h. D.write_mode tmp_path b w o q away ∙ h);
    fchmods = λ E m. act-keeps_mode q n _ (λ w o h. D.fchmod_mode_other tmp_path m w o q away ∙ h);
    fsyncs = λ E. act-keeps_mode q n _ (λ w o h. D.fsync_mode tmp_path w o q ∙ h);
    closes = λ E. act-keeps_mode q n _ (λ w o h. D.close_mode tmp_path w o q ∙ h);
    unlinks = λ E. act-keeps_mode q n _ (λ w o h. D.unlink_mode tmp_path w o q away ∙ h);
  }

  pub write_file_atomic-keeps_mode :
      (q : Bytes) (n : ℕ) (path : Bytes)
      → P.same q path ≡ false
      → P.same q (tmp_of path) ≡ false
      → (fuel : ℕ) (contents : Bytes) (mode : ℕ)
      → Steps (keeps_mode q n) (write_file_atomic P X fuel path contents mode)
  write_file_atomic-keeps_mode q n path apart away fuel contents mode =
      write_file_atomic-Steps P X (keeps_mode q n) path (keeps_mode-Spares q n (tmp_of path) away)
        fuel contents mode
        λ E.
          act-keeps_mode q n _
            (λ w o h. D.rename_mode_other (tmp_of path) path w o q away apart ∙ h)
