-- ===== src/Fetch/Safety.antt =====
-- What an update check may do, and what it must have checked first.
use ota_fetch.Base.{◌≡◌, ◌∙◌, Bytes, Option, some, true, false, Result, ok, pure, raise, ℤ}
use ota_fetch.Platform.{Platform, IsLawful, State, Crypto, IsSound, Cjson, is_name}
use ota_fetch.Platform.Steps.{Steps-after, broken-bind, keeps_file, quiet}
use ota_fetch.Platform.Footprint.{quiet-Tolerates, keeps_file-Tolerates}
use ota_fetch.Config.{Config}
use ota_fetch.Manifest.{Manifest}
use ota_fetch.Manifest.Load.{manifest_load}
use ota_fetch.Manifest.Parsed.{IsParsed, manifest_load-IsParsed}
use ota_fetch.Fetch.Paths.{join}
use ota_fetch.Fetch.Context.{Context, manifest_json}
use ota_fetch.Fetch.Stages.{
  FilesEqual, files_eq, files_neq, files_err, validate_new_manifest, compare_manifests,
}
use ota_fetch.Fetch.StagesTouched.{
  validate_new_manifest-Steps, compare_manifests-Steps, prepare-Steps,
}
use ota_fetch.Fetch.Prepared.{IsPrepared, prepare-ok}
use ota_fetch.Fetch.Apply.{apply_release}
use ota_fetch.Fetch.Run.{update_if, update_check}
use ota_fetch.Fetch.Verified.{context_at, arrive, IsVerified}
use ota_fetch.Fetch.Gate.{AllowsCheck, update_check-IsVerified}

-- All that stands behind an update that `apply_release` started in a check from `s`: the state
-- `fetched`, in which the manifest, its signature and its certificate had arrived and were authentic, the manifest `m` that was parsed
-- from the authentic bytes, the context with the payload that has the digest named in `m`, and the
-- state from which `apply_release` led to the outcome.
pub record IsCleared (P : Platform) (C : Crypto P) (J : Cjson P) (cfg : Config) (s : State P)
    (x : Result ℤ (Unit {0})) (s' : State P) : Type 0 where
  pub current : Bytes
  pub inbox : Bytes
  pub fetched : State P
  pub is_current : cfg.current_manifest_dir ≡ some current
  pub arrived : arrive P cfg s ≡ (ok (context_at cfg current inbox), fetched)
  pub verified : IsVerified P C cfg inbox fetched.world
  pub m : Manifest
  pub parsed : IsParsed P J verified.authentic.contents m
  pub ctx : Context
  pub start : State P
  pub prepared : IsPrepared P C (context_at cfg current inbox) ctx m start.world
  pub applied : apply_release P ctx start ≡ (x, s')

module _ (P : Platform) (L : IsLawful P) (C : Crypto P) (D : IsSound C) (J : Cjson P)
    (cfg : Config) where
  -- The manifest file that was verified is the one that is loaded.
  manifest-kept :
      (current inbox q : Bytes) (v v' t : State P) {u : Unit {0}} {c : FilesEqual}
      → validate_new_manifest P C (context_at cfg current inbox) v ≡ (ok u, v')
      → compare_manifests P C (context_at cfg current inbox) v' ≡ (ok c, t)
      → P.file t.world q ≡ P.file v.world q
  manifest-kept current inbox q v v' t h k =
      Steps-after (keeps_file P q) _
        (compare_manifests-Steps C (keeps_file-Tolerates P L q) (context_at cfg current inbox)) k
      ∙ Steps-after (keeps_file P q) _
          (validate_new_manifest-Steps C (keeps_file-Tolerates P L q)
            (context_at cfg current inbox))
          h

  same-IsParsed :
      (o p : Option Bytes) (c d : Bytes) (m : Manifest)
      → o ≡ some c
      → p ≡ some d
      → o ≡ p
      → IsParsed P J c m
      → IsParsed P J d m
  same-IsParsed o p c d m hc hd e h = let same : c ≡ d = cc in rw same at h

  update_if-IsCleared :
      (current inbox : Bytes) (s v v' t : State P) (cmp_rc : FilesEqual) {u : Unit {0}}
      {x : Result ℤ (Unit {0})} {s' : State P}
      → cfg.current_manifest_dir ≡ some current
      → arrive P cfg s ≡ (ok (context_at cfg current inbox), v)
      → IsVerified P C cfg inbox v.world
      → P.file t.world (join inbox manifest_json) ≡ P.file v.world (join inbox manifest_json)
      → update_if P C J (context_at cfg current inbox) cmp_rc t ≡ (x, s')
      → ¬ (s'.trace ≡ t.trace)
      → IsCleared P C J cfg s x s'
  unfolding pure raise
  update_if-IsCleared current inbox s v v' t files_eq is_current arrived ver kept h bad =
      absurd (bad (cc))
  update_if-IsCleared current inbox s v v' t files_err is_current arrived ver kept h bad =
      absurd (bad (cc))
  update_if-IsCleared current inbox s v v' t files_neq is_current arrived ver kept h bad =
      broken-bind (quiet P) _ _
        (prepare-Steps C J (quiet-Tolerates P) (λ p. tt) (context_at cfg current inbox)) h bad
        λ ctx t' e h₁ _.
          let (m, loaded, prepared) = prepare-ok P L C D J (context_at cfg current inbox) ctx t e in
          let (contents, is_contents, parsed) =
            manifest_load-IsParsed P L J (join inbox manifest_json) t
              (λ i. (loaded i, (manifest_load P J (join inbox manifest_json) t).1)) in
          record {
            current = current;
            inbox = inbox;
            fetched = v;
            is_current = is_current;
            arrived = arrived;
            verified = ver;
            m = m;
            parsed = same-IsParsed _ _ _ _ m is_contents ver.authentic.is_contents kept parsed;
            ctx = ctx;
            start = t';
            prepared = prepared;
            applied = h₁;
          }

  everywhere : AllowsCheck cfg (λ p. Unit {0})
  everywhere = record { inbox_entry = λ inbox name d n. tt }

  -- A check that installs a bundle or reboots has verified the manifest, with the signature and the
  -- certificate beside it, against the configured authorities; it acts on the manifest parsed from
  -- the verified bytes and on a payload whose SHA-256 is the one that this manifest names.
  pub update_check-IsCleared :
      (s : State P) {x : Result ℤ (Unit {0})} {s' : State P}
      → update_check P C J cfg s ≡ (x, s')
      → ¬ (s'.trace ≡ s.trace)
      → IsCleared P C J cfg s x s'
  update_check-IsCleared s h bad =
      update_check-IsVerified P L C D J cfg (quiet P) (quiet-Tolerates P) everywhere s h bad
        λ current inbox v t u v' cmp_rc is_current arrived ver e e' h' bad'.
          update_if-IsCleared current inbox s v v' t cmp_rc is_current arrived ver
            (manifest-kept current inbox (join inbox manifest_json) v v' t e e') h' bad'

  -- A check that changes a file at a path `q` that names no entry of the inbox directory has first
  -- verified the manifest in the inbox, with the signature and the certificate beside it, against the
  -- configured authorities.
  pub update_check-IsVerified_of_change :
      (q : Bytes)
      → ((inbox name : Bytes)
          → cfg.inbox_manifest_dir ≡ some inbox
          → is_name name ≡ true
          → P.same q (join inbox name) ≡ false)
      → (s : State P) {x : Result ℤ (Unit {0})} {s' : State P} → update_check P C J cfg s ≡ (x, s')
      → ¬ (P.file s'.world q ≡ P.file s.world q)
      → (current inbox : Bytes) × (v : State P) × (arrive P cfg s
          ≡ (ok (context_at cfg current inbox), v))
        × IsVerified P C cfg inbox v.world
  update_check-IsVerified_of_change q away s h bad =
      update_check-IsVerified P L C D J cfg (keeps_file P q) (keeps_file-Tolerates P L q)
        (record { inbox_entry = away }) s h bad
        λ current inbox v t u v' cmp_rc is_current arrived ver e e' h' bad'.
          (current, inbox, v, arrived, ver)
