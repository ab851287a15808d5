-- ===== src/Platform/Defs.antt =====
-- The operating system and libcurl, as the program calls them. What a call answers may depend on
-- memory, time, other processes and the network: all of that is the `Oracle`, which every call
-- advances. Only an `Action` can change a file. An open input file is a `Stream`, a value that
-- holds what later reads deliver.
use ota_fetch.Base.{ℕ, ◌<◌, ◌≡◌, Bytes, length, Option, none, some, Bool, true, false}
use ota_fetch.Base.{List, [], ◌∷◌, ◌++◌, ◌==◌, if◌then◌else◌, Exec, ok, ◌⊎◌}
use ota_fetch.Platform.Types.{
  Mkdir, Unlink, removed, missing, stuck, Child, Request, Transfer, Event,
}

pub record Platform : Type 1 where
  pub World : Type 0
  pub Oracle : Type 0
  pub Stream : Type 0
  -- The contents of the regular file at a path, and whether two paths name one directory entry.
  pub file : World → Bytes → Option Bytes
  pub same : Bytes → Bytes → Bool
  -- The bytes of an open file that are not read yet.
  pub unread : Stream → Bytes
  pub malloc : ℕ → Oracle → Bool × Oracle
  pub fopen_rb : Bytes → World → Oracle → Option Stream × Oracle
  -- `fseek` to the end and `ftell`, `none` if one of them fails; and `fseek` back to the start.
  pub file_size : Stream → Option ℕ
  pub rewind : Stream → Bool
  pub fread : ℕ → Stream → Bytes × Stream
  pub ferror : Stream → Bool
  -- `none` if `stat` fails; otherwise S_ISDIR of the mode.
  pub stat : Bytes → World → Oracle → Option Bool × Oracle
  -- The names that `readdir` lists; `none` if `opendir` fails.
  pub readdir : Bytes → World → Oracle → Option (List Bytes) × Oracle
  pub curl_easy_init : Oracle → Bool × Oracle
  -- Reads the flag that the signal handler sets.
  pub g_terminate : Oracle → Bool × Oracle
  pub mkdir : Bytes → ℕ → World → Oracle → Mkdir × World × Oracle
  pub unlink : Bytes → World → Oracle → Unlink × World × Oracle
  pub rename : Bytes → Bytes → World → Oracle → Bool × World × Oracle
  -- `fopen(path, "wb")`, and `fflush` and `fclose` of the file so opened.
  pub fopen_wb : Bytes → World → Oracle → Bool × World × Oracle
  pub fflush : Bytes → World → Oracle → Bool × World × Oracle
  pub fclose : Bytes → World → Oracle → Bool × World × Oracle
  -- `curl_easy_perform` with the file at the path as CURLOPT_WRITEDATA.
  pub curl_easy_perform : Request → Bytes → World → Oracle → Transfer × World × Oracle
  -- `fork`, `execvp("rauc", {"rauc", "install", path})` in the child, and `waitpid`.
  pub rauc_install : Bytes → World → Oracle → Child × World × Oracle
  -- `sync` and `reboot(RB_AUTOBOOT)`.
  pub reboot : World → Oracle → Unit {0} × World × Oracle
  pub sleep : ℕ → World → Oracle → Unit {0} × World × Oracle

abbrev pub is_name : Bytes → Bool
is_name [] = true
is_name (c ∷ s) = if c == b'/' then false else is_name s

abbrev pub AreNames : List Bytes → Type 0
AreNames [] = Unit {0}
AreNames (name ∷ names) = (is_name name ≡ true) × AreNames names

-- What the program relies on: each call changes only the files that its documentation names.
pub record IsLawful (P : Platform) : Type 0 where
  pub fopen_rb_unread :
      (p : Bytes) (w : P.World) (o : P.Oracle) (s : P.Stream)
      → (P.fopen_rb p w o).0 ≡ some s
      → P.file w p ≡ some (P.unread s)
  -- Reads deliver the file in order, and nothing only at the end or after an error.
  pub fread_unread :
      (n : ℕ) (s : P.Stream) → (P.fread n s).0 ++ P.unread (P.fread n s).1 ≡ P.unread s
  pub fread_end :
      (n : ℕ) (s : P.Stream)
      → 0 < n
      → (P.fread n s).0 ≡ []
      → (P.ferror (P.fread n s).1 ≡ true) ⊎ (P.unread s ≡ [])
  -- A read delivers fewer bytes than it was asked for only at the end or after an error.
  pub fread_count :
      (n : ℕ) (s : P.Stream)
      → (length (P.fread n s).0 ≡ n)
        ⊎ (P.ferror (P.fread n s).1 ≡ true)
        ⊎ (P.unread (P.fread n s).1 ≡ [])
  pub file_size_unread : (s : P.Stream) (n : ℕ) → P.file_size s ≡ some n → length (P.unread s) ≡ n
  -- A directory entry has no slash in its name.
  pub readdir_names :
      (p : Bytes) (w : P.World) (o : P.Oracle) (names : List Bytes)
      → (P.readdir p w o).0 ≡ some names
      → AreNames names
  pub mkdir_file :
      (p : Bytes) (m : ℕ) (w : P.World) (o : P.Oracle) (q : Bytes)
      → P.file (P.mkdir p m w o).1 q ≡ P.file w q
  pub unlink_file :
      (p : Bytes) (w : P.World) (o : P.Oracle) (q : Bytes)
      → P.same q p ≡ false
      → P.file (P.unlink p w o).1 q ≡ P.file w q
  pub unlink_removed :
      (p : Bytes) (w : P.World) (o : P.Oracle)
      → (P.unlink p w o).0 ≡ removed
      → P.file (P.unlink p w o).1 p ≡ none
  pub unlink_missing :
      (p : Bytes) (w : P.World) (o : P.Oracle)
      → (P.unlink p w o).0 ≡ missing
      → P.file (P.unlink p w o).1 p ≡ none
  pub unlink_stuck :
      (p : Bytes) (w : P.World) (o : P.Oracle) (q : Bytes)
      → (P.unlink p w o).0 ≡ stuck
      → P.file (P.unlink p w o).1 q ≡ P.file w q
  pub rename_file :
      (a b : Bytes) (w : P.World) (o : P.Oracle) (q : Bytes)
      → P.same q a ≡ false
      → P.same q b ≡ false
      → P.file (P.rename a b w o).1 q ≡ P.file w q
  pub rename_moves :
      (a b : Bytes) (w : P.World) (o : P.Oracle)
      → (P.rename a b w o).0 ≡ true
      → P.file (P.rename a b w o).1 b ≡ P.file w a
  pub rename_fails :
      (a b : Bytes) (w : P.World) (o : P.Oracle) (q : Bytes)
      → (P.rename a b w o).0 ≡ false
      → P.file (P.rename a b w o).1 q ≡ P.file w q
  pub fopen_wb_file :
      (p : Bytes) (w : P.World) (o : P.Oracle) (q : Bytes)
      → P.same q p ≡ false
      → P.file (P.fopen_wb p w o).1 q ≡ P.file w q
  pub fflush_file :
      (p : Bytes) (w : P.World) (o : P.Oracle) (q : Bytes)
      → P.same q p ≡ false
      → P.file (P.fflush p w o).1 q ≡ P.file w q
  pub fclose_file :
      (p : Bytes) (w : P.World) (o : P.Oracle) (q : Bytes)
      → P.same q p ≡ false
      → P.file (P.fclose p w o).1 q ≡ P.file w q
  pub curl_easy_perform_file :
      (r : Request) (p : Bytes) (w : P.World) (o : P.Oracle) (q : Bytes)
      → P.same q p ≡ false
      → P.file (P.curl_easy_perform r p w o).1 q ≡ P.file w q

-- The state that every function of the program threads: what the platform holds, and the trace of
-- installations, reboots and sleeps so far.
pub record State (P : Platform) : Type 0 where
  pub world : P.World
  pub oracle : P.Oracle
  pub trace : List Event

module _ (P : Platform) {E A : Type 0} where
  -- A call that changes no file.
  unfoldable pub ask : (P.World → P.Oracle → A × P.Oracle) → Exec (State P) E A
  ask f s = let (a, o) = f s.world s.oracle in (ok a, record s { oracle = o })

  unfoldable pub act : (P.World → P.Oracle → A × P.World × P.Oracle) → Exec (State P) E A
  act f s = let (a, w, o) = f s.world s.oracle in (ok a, record s { world = w; oracle = o })

unfoldable pub event : (P : Platform) {E : Type 0} → Event → Exec (State P) E (Unit {0})
event P e s = (ok tt, record s { trace = s.trace ++ e ∷ [] })
