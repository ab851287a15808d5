-- ===== src/Platform/Posix.antt =====
-- The system calls of src/enroll.c that src/ota_fetch.c does not make: descriptors, modes and fsync. A
-- descriptor is named by the path that it was opened with.
use ota_fetch.Base.{ℕ, ◌≡◌, Bytes, take, Option, none, some, Bool, true, false, [], ◌∷◌, ◌++◌}
use ota_fetch.Platform.Defs.{Platform}

-- What `write` returned: a count, -1 with EINTR, or -1 with another `errno`.
pub data Written : Type 0 where
  wrote : ℕ → Written
  interrupted broken_off : Written

pub record Posix (P : Platform) : Type 0 where
  -- The permission bits of the file at a path.
  pub mode : P.World → Bytes → Option ℕ
  -- `fgetc`, `none` for EOF.
  pub fgetc : P.Stream → Option ℕ × P.Stream
  -- `open(path, O_WRONLY | O_CREAT | O_TRUNC, mode)`.
  pub open_trunc : Bytes → ℕ → P.World → P.Oracle → Bool × P.World × P.Oracle
  pub write : Bytes → Bytes → P.World → P.Oracle → Written × P.World × P.Oracle
  pub fchmod : Bytes → ℕ → P.World → P.Oracle → Bool × P.World × P.Oracle
  pub fsync : Bytes → P.World → P.Oracle → Bool × P.World × P.Oracle
  pub close : Bytes → P.World → P.Oracle → Bool × P.World × P.Oracle
  -- `open(path, O_RDONLY | O_DIRECTORY)`, and `fsync` of what it opened.
  pub open_dir : Bytes → P.World → P.Oracle → Bool × P.Oracle
  pub fsync_dir : Bytes → P.World → P.Oracle → Bool × P.Oracle

-- The documented behaviour that the program relies on.
pub record IsPosix {P : Platform} (X : Posix P) : Type 0 where
  pub fgetc_unread :
      (s : P.Stream) (c : ℕ) → (X.fgetc s).0 ≡ some c → c ∷ P.unread (X.fgetc s).1 ≡ P.unread s
  pub fgetc_end :
      (s : P.Stream) → (X.fgetc s).0 ≡ none → P.ferror (X.fgetc s).1 ≡ false → P.unread s ≡ []
  pub open_trunc_empty :
      (p : Bytes) (m : ℕ) (w : P.World) (o : P.Oracle)
      → (X.open_trunc p m w o).0 ≡ true
      → P.file (X.open_trunc p m w o).1 p ≡ some []
  pub open_trunc_file :
      (p : Bytes) (m : ℕ) (w : P.World) (o : P.Oracle) (q : Bytes)
      → P.same q p ≡ false
      → P.file (X.open_trunc p m w o).1 q ≡ P.file w q
  pub write_wrote :
      (p b : Bytes) (w : P.World) (o : P.Oracle) (n : ℕ) (c : Bytes)
      → (X.write p b w o).0 ≡ wrote n
      → P.file w p ≡ some c
      → P.file (X.write p b w o).1 p ≡ some (c ++ take n b)
  pub write_interrupted :
      (p b : Bytes) (w : P.World) (o : P.Oracle) (q : Bytes)
      → (X.write p b w o).0 ≡ interrupted
      → P.file (X.write p b w o).1 q ≡ P.file w q
  pub write_file :
      (p b : Bytes) (w : P.World) (o : P.Oracle) (q : Bytes)
      → P.same q p ≡ false
      → P.file (X.write p b w o).1 q ≡ P.file w q
  pub fchmod_file :
      (p : Bytes) (m : ℕ) (w : P.World) (o : P.Oracle) (q : Bytes)
      → P.file (X.fchmod p m w o).1 q ≡ P.file w q
  pub fchmod_mode :
      (p : Bytes) (m : ℕ) (w : P.World) (o : P.Oracle)
      → (X.fchmod p m w o).0 ≡ true
      → X.mode (X.fchmod p m w o).1 p ≡ some m
  pub fsync_file :
      (p : Bytes) (w : P.World) (o : P.Oracle) (q : Bytes) → P.file (X.fsync p w o).1 q ≡ P.file w q
  pub fsync_mode :
      (p : Bytes) (w : P.World) (o : P.Oracle) (q : Bytes) → X.mode (X.fsync p w o).1 q ≡ X.mode w q
  pub close_file :
      (p : Bytes) (w : P.World) (o : P.Oracle) (q : Bytes) → P.file (X.close p w o).1 q ≡ P.file w q
  pub close_mode :
      (p : Bytes) (w : P.World) (o : P.Oracle) (q : Bytes) → X.mode (X.close p w o).1 q ≡ X.mode w q
  pub rename_mode :
      (a b : Bytes) (w : P.World) (o : P.Oracle)
      → (P.rename a b w o).0 ≡ true
      → X.mode (P.rename a b w o).1 b ≡ X.mode w a
  -- No call changes the mode of a file that it does not name.
  pub mkdir_mode :
      (p : Bytes) (m : ℕ) (w : P.World) (o : P.Oracle) (q : Bytes) (n : ℕ)
      → X.mode w q ≡ some n
      → X.mode (P.mkdir p m w o).1 q ≡ some n
  pub unlink_mode :
      (p : Bytes) (w : P.World) (o : P.Oracle) (q : Bytes)
      → P.same q p ≡ false
      → X.mode (P.unlink p w o).1 q ≡ X.mode w q
  pub rename_mode_other :
      (a b : Bytes) (w : P.World) (o : P.Oracle) (q : Bytes)
      → P.same q a ≡ false
      → P.same q b ≡ false
      → X.mode (P.rename a b w o).1 q ≡ X.mode w q
  pub open_trunc_mode :
      (p : Bytes) (m : ℕ) (w : P.World) (o : P.Oracle) (q : Bytes)
      → P.same q p ≡ false
      → X.mode (X.open_trunc p m w o).1 q ≡ X.mode w q
  pub write_mode :
      (p b : Bytes) (w : P.World) (o : P.Oracle) (q : Bytes)
      → P.same q p ≡ false
      → X.mode (X.write p b w o).1 q ≡ X.mode w q
  pub fchmod_mode_other :
      (p : Bytes) (m : ℕ) (w : P.World) (o : P.Oracle) (q : Bytes)
      → P.same q p ≡ false
      → X.mode (X.fchmod p m w o).1 q ≡ X.mode w q
