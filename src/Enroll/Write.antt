-- ===== src/Enroll/Write.antt =====
-- `write_all` and `write_file_atomic` of src/enroll.c. The loop over `write` runs on fuel: `write` may
-- be interrupted, or write nothing, any number of times.
use ota_fetch.Base.{
  ℕ, zero, suc, ◌+◌, Bytes, length, drop, [], ◌∷◌, Result, ok, err, Exec, pure, raise, check, try,
  ◌>>=◌, ◌>>◌,
}
use ota_fetch.Platform.{Platform, State, ask, act}
use ota_fetch.Platform.Posix.{Posix, Written, wrote, interrupted, broken_off}
use ota_fetch.Fetch.Download.{tmp_of}
use ota_fetch.Enroll.Paths.{
  EnrollError, failed, out_of_fuel, Enrolling, ensure_parent_dir, fsync_parent_dir,
}

-- How the writing of the temporary file stopped: with the descriptor open, with it closed, or not.
pub data Stop : Type 0 where
  fd_open fd_closed unending : Stop

module _ (P : Platform) (X : Posix P) where
  abbrev pub after_write :
      (Bytes → Enrolling P (Unit {0})) → Bytes → Written → Enrolling P (Unit {0})
  after_write rest left (wrote n) = rest (drop n left)
  after_write rest left interrupted = rest left
  after_write rest left broken_off = raise failed

  -- `while (offset < len)`: the list is what is left from `offset` on.
  unfoldable pub write_all : ℕ → Bytes → Bytes → Enrolling P (Unit {0})
  write_all zero fd [] = pure tt
  write_all zero fd (c ∷ left) = raise out_of_fuel
  write_all (suc fuel) fd [] = pure tt
  write_all (suc fuel) fd (c ∷ left) = do
    written ← act P (X.write fd (c ∷ left))
    after_write (write_all fuel fd) (c ∷ left) written

  abbrev pub or_stop : Stop → Result EnrollError (Unit {0}) → Exec (State P) Stop (Unit {0})
  or_stop stop (ok u) = pure tt
  or_stop stop (err failed) = raise stop
  or_stop stop (err out_of_fuel) = raise unending

  -- From `open` to the `fsync` of the directory.
  unfoldable pub write_and_move : ℕ → Bytes → Bytes → Bytes → ℕ → Exec (State P) Stop (Unit {0})
  unfolding write_all fsync_parent_dir
  write_and_move fuel tmp_path path contents mode = do
    opened ← act P (X.open_trunc tmp_path mode)
    check opened fd_closed
    written ← try (write_all fuel tmp_path contents)
    or_stop fd_open written
    moded ← act P (X.fchmod tmp_path mode)
    check moded fd_open
    synced ← act P (X.fsync tmp_path)
    check synced fd_open
    closed ← act P (X.close tmp_path)
    check closed fd_closed
    moved ← act P (P.rename tmp_path path)
    check moved fd_closed
    durable ← try (fsync_parent_dir P X path)
    or_stop fd_closed durable

  -- The label `cleanup`.
  unfoldable pub discard : Bytes → Result Stop (Unit {0}) → Enrolling P (Unit {0})
  discard tmp_path (ok u) = pure tt
  discard tmp_path (err fd_open) = do
    act P (X.close tmp_path)
    act P (P.unlink tmp_path)
    raise failed
  discard tmp_path (err fd_closed) = do act P (P.unlink tmp_path); raise failed
  discard tmp_path (err unending) = raise out_of_fuel

  unfoldable pub write_file_atomic : ℕ → Bytes → Bytes → ℕ → Enrolling P (Unit {0})
  unfolding ensure_parent_dir tmp_of write_and_move discard
  write_file_atomic fuel path contents mode = do
    ensure_parent_dir P path 0o700
    got ← ask P (λ w. P.malloc (length path + 5))
    check got failed
    outcome ← try (write_and_move fuel (tmp_of path) path contents mode)
    discard (tmp_of path) outcome
