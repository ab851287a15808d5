-- ===== src/Platform/Footprint.antt =====
-- Which calls keep a relation between states, so that one set of lemmas about the program's
-- functions serves every such relation.
use ota_fetch.Base.{ℕ, ◌≡◌, Bytes, false, Exec}
use ota_fetch.Platform.Types.{Request}
use ota_fetch.Platform.Defs.{Platform, IsLawful, State, ask, act}
use ota_fetch.Platform.Steps.{
  Preorder, Steps, keeps_file, quiet, ask-keeps_file, act-keeps_file, ask-quiet, act-quiet,
  only_reads, only_reads-quiet, only_reads-keeps_file,
}

-- Calls that change no file keep the relation, and calls that change files do if the paths that
-- they are given are allowed.
pub record Tolerates (P : Platform) (r : Preorder (State P)) (Allowed : Bytes → Type 0)
    : Type 1 where
  pub ask_ok : (E A : Type 0) (f : P.World → P.Oracle → A × P.Oracle) → Steps r (ask P {E = E} f)
  pub reads_ok : (E A : Type 0) (m : Exec (State P) E A) → Steps (only_reads P) m → Steps r m
  pub mkdir_ok : (E : Type 0) (p : Bytes) (m : ℕ) → Steps r (act P {E = E} (P.mkdir p m))
  pub unlink_ok : (E : Type 0) (p : Bytes) → Allowed p → Steps r (act P {E = E} (P.unlink p))
  pub rename_ok :
      (E : Type 0) (a b : Bytes) → Allowed a → Allowed b → Steps r (act P {E = E} (P.rename a b))
  pub fopen_wb_ok : (E : Type 0) (p : Bytes) → Allowed p → Steps r (act P {E = E} (P.fopen_wb p))
  pub fflush_ok : (E : Type 0) (p : Bytes) → Allowed p → Steps r (act P {E = E} (P.fflush p))
  pub fclose_ok : (E : Type 0) (p : Bytes) → Allowed p → Steps r (act P {E = E} (P.fclose p))
  pub perform_ok :
      (E : Type 0) (q : Request) (p : Bytes)
      → Allowed p
      → Steps r (act P {E = E} (P.curl_easy_perform q p))

-- Anywhere, these calls install nothing, do not reboot and do not wait.
abbrev pub Anywhere : Bytes → Type 0
Anywhere p = Unit {0}

pub quiet-Tolerates : (P : Platform) → Tolerates P (quiet P) Anywhere
quiet-Tolerates P = record {
  ask_ok = λ E A f. ask-quiet P f;
  reads_ok = λ E A m h. only_reads-quiet P h;
  mkdir_ok = λ E p m. act-quiet P _;
  unlink_ok = λ E p h. act-quiet P _;
  rename_ok = λ E a b h k. act-quiet P _;
  fopen_wb_ok = λ E p h. act-quiet P _;
  fflush_ok = λ E p h. act-quiet P _;
  fclose_ok = λ E p h. act-quiet P _;
  perform_ok = λ E q p h. act-quiet P _;
}

-- Away from `q`, they leave the file at `q` alone.
abbrev pub AwayFrom : Platform → Bytes → Bytes → Type 0
AwayFrom P q p = P.same q p ≡ false

pub keeps_file-Tolerates :
    (P : Platform) (L : IsLawful P) (q : Bytes) → Tolerates P (keeps_file P q) (AwayFrom P q)
keeps_file-Tolerates P L q = record {
  ask_ok = λ E A f. ask-keeps_file P q f;
  reads_ok = λ E A m h. only_reads-keeps_file P q h;
  mkdir_ok = λ E p m. act-keeps_file P q _ (λ w o. L.mkdir_file p m w o q);
  unlink_ok = λ E p h. act-keeps_file P q _ (λ w o. L.unlink_file p w o q h);
  rename_ok = λ E a b h k. act-keeps_file P q _ (λ w o. L.rename_file a b w o q h k);
  fopen_wb_ok = λ E p h. act-keeps_file P q _ (λ w o. L.fopen_wb_file p w o q h);
  fflush_ok = λ E p h. act-keeps_file P q _ (λ w o. L.fflush_file p w o q h);
  fclose_ok = λ E p h. act-keeps_file P q _ (λ w o. L.fclose_file p w o q h);
  perform_ok = λ E r p h. act-keeps_file P q _ (λ w o. L.curl_easy_perform_file r p w o q h);
}
