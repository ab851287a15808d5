-- ===== src/Fetch/StagesTouched.antt =====
-- Which paths the stages of an update check may change.
use ota_fetch.Base.{
  Bytes, Option, none, some, Bool, true, false, List, [], ◌∷◌, ◌≡◌, refl, Result, ok, err,
  if◌then◌else◌, pure, ◌>>=◌, ◌+◌, length, ℤ,
}
use ota_fetch.Platform.{Platform, IsLawful, State, Crypto, Cjson, ask, is_name, AreNames}
use ota_fetch.Platform.Steps.{
  Preorder, Steps, Steps-if, Steps-bind, Steps-pure, Steps-try, Steps-check, step_rules,
}
use ota_fetch.Platform.Footprint.{Tolerates}
use ota_fetch.Config.{Config}
use ota_fetch.Manifest.{Manifest, ManifestRelease}
use ota_fetch.Manifest.Load.{NoManifest}
use ota_fetch.Manifest.Reads.{manifest_load-only_reads}
use ota_fetch.Hash.Hex.{HexResult, encoded, failed}
use ota_fetch.Hash.Digest.{HashError}
use ota_fetch.Hash.Reads.{sha256sum_file-only_reads}
use ota_fetch.Verify.Defs.{VerifyError}
use ota_fetch.Verify.Reads.{verify_signature_with_cert-only_reads}
use ota_fetch.Fetch.Paths.{join, build_path}
use ota_fetch.Fetch.Download.{tmp_of}
use ota_fetch.Fetch.FilesTouched.{build_path-Steps, fetch_file-Steps}
use ota_fetch.Fetch.Context.{
  Context, context_of, ota_ctx_init, is_tmp_name, remove, remove_built, remove_tmp, remove_listed,
  ota_inbox_cleanup,
}
use ota_fetch.Fetch.Stages.{
  Payload, all_fetched, fetch_three, fetch_new_manifest, fetch_payload, fetch_entry, fetch_release,
  verified, validate_new_manifest, files_equal, file_exists, compare_manifests, check_hex,
  check_hash, validate_against, validate_release, release_sha256,
}
use ota_fetch.Fetch.Run.{or_no_manifest, prepare}

-- The answer of a call comes with the law that it obeys.
Steps-ask-bind :
    {P : Platform} {E A B : Type 0} {r : Preorder (State P)} (f : P.World → P.Oracle → A × P.Oracle)
    (g : A → State P → Result E B × State P)
    → Steps r (ask P {E = E} f)
    → ((w : P.World) (o : P.Oracle) → Steps r (g (f w o).0))
    → Steps r (ask P f >>= g)
unfolding ask ◌>>=◌
Steps-ask-bind {r} f g hf hg = record {
  at = λ s. r.rel_trans s _ _ (hf.at s) ((hg s.world s.oracle).at _);
}

module _ {P : Platform} {r : Preorder (State P)} {Allowed : Bytes → Type 0}
    (T : Tolerates P r Allowed) where
  context_of-Steps : (cfg : Config) (a b c d : Option Bytes) → Steps r (context_of P cfg a b c d)
  context_of-Steps cfg (some a) (some b) (some c) (some d) = search step_rules
  context_of-Steps cfg _ _ _ _ = search step_rules

  pub ota_ctx_init-Steps : (cfg : Config) → Steps r (ota_ctx_init P cfg)
  unfolding ota_ctx_init
  ota_ctx_init-Steps cfg = search (step_rules, build_path-Steps T, context_of-Steps) depth 10

  module _ {E : Type 0} where
    remove-Steps : (path : Bytes) → Allowed path → Steps r (remove P {E = E} path)
    unfolding remove
    remove-Steps path a = search (step_rules, T.unlink_ok)

    remove_joined-Steps :
        (dir name : Bytes)
        → Allowed (join dir name)
        → (got : Bool)
        → Steps r (remove_built P {E = E} (if got then some (join dir name) else none))
    remove_joined-Steps dir name a true = remove-Steps (join dir name) a
    remove_joined-Steps dir name a false = Steps-pure tt

    remove_one-Steps :
        (dir : Option Bytes) (name : Bytes)
        → ((d : Bytes) → dir ≡ some d → Allowed (join d name))
        → Steps r (build_path P {E = E} dir (some name) >>= remove_built P)
    unfolding build_path ◌>>=◌ ask pure
    remove_one-Steps none name a = record { at = λ s. r.rel_refl s }
    remove_one-Steps (some d) name a = record {
      at =
          (Steps-bind _ _ (T.ask_ok E Bool (λ w. P.malloc (length d + length name + 2)))
            (remove_joined-Steps d name (a d refl))).at;
    }

    -- Only entries of the inbox directory itself are removed.
    remove_tmp-Steps :
        (dir : Option Bytes)
        → ((d name : Bytes) → dir ≡ some d → is_name name ≡ true → Allowed (join d name))
        → (names : List Bytes) → AreNames names
        → Steps r (remove_tmp P {E = E} dir names)
    unfolding remove_tmp
    remove_tmp-Steps dir a [] h = Steps-pure tt
    remove_tmp-Steps dir a (name ∷ names) (h, hs) =
        Steps-bind _ _
          (Steps-if (is_tmp_name name) _ _ (remove_one-Steps dir name (λ d e. a d name e h))
            (Steps-pure tt))
          λ _. remove_tmp-Steps dir a names hs

    remove_listed-Steps :
        (dir : Option Bytes)
        → ((d name : Bytes) → dir ≡ some d → is_name name ≡ true → Allowed (join d name))
        → (names : Option (List Bytes)) → ((l : List Bytes) → names ≡ some l → AreNames l)
        → Steps r (remove_listed P {E = E} dir names)
    remove_listed-Steps dir a none h = Steps-pure tt
    remove_listed-Steps dir a (some names) h = remove_tmp-Steps dir a names (h names refl)

    pub ota_inbox_cleanup-Steps :
        IsLawful P
        → (ctx : Context) → Allowed ctx.inbox_manifest_path
        → Allowed ctx.inbox_sig_path
        → Allowed ctx.inbox_cert_path
        → ((d name : Bytes)
            → ctx.config.inbox_manifest_dir ≡ some d
            → is_name name ≡ true
            → Allowed (join d name))
        → Steps r (ota_inbox_cleanup P {E = E} ctx)
    unfolding ota_inbox_cleanup
    ota_inbox_cleanup-Steps L ctx m s c a =
        Steps-bind _ _ (remove-Steps ctx.inbox_manifest_path m) λ _.
          Steps-bind _ _ (remove-Steps ctx.inbox_sig_path s) λ _.
            Steps-bind _ _ (remove-Steps ctx.inbox_cert_path c) λ _.
              Steps-ask-bind _ _ (T.ask_ok E _ _) λ w o.
                remove_listed-Steps ctx.config.inbox_manifest_dir a _
                  (λ l e. L.readdir_names _ w o l e)

  all_fetched-Steps : (a b c : Result ℤ (Unit {0})) → Steps r (all_fetched P a b c)
  all_fetched-Steps (ok a) (ok b) (ok c) = search step_rules
  all_fetched-Steps _ _ _ = search step_rules

  -- The three files of a manifest and their temporary files.
  pub record AllowsFetch (ctx : Context) : Type 0 where
    pub manifest : Allowed ctx.inbox_manifest_path
    pub sig : Allowed ctx.inbox_sig_path
    pub cert : Allowed ctx.inbox_cert_path
    pub manifest_tmp : Allowed (tmp_of ctx.inbox_manifest_path)
    pub sig_tmp : Allowed (tmp_of ctx.inbox_sig_path)
    pub cert_tmp : Allowed (tmp_of ctx.inbox_cert_path)

  fetch_three-Steps :
      (ctx : Context) (a b c : Option Bytes) → AllowsFetch ctx → Steps r (fetch_three P ctx a b c)
  fetch_three-Steps ctx (some a) (some b) (some c) h =
      Steps-bind _ _
        (Steps-try _ (fetch_file-Steps T a _ ctx.config false h.manifest_tmp h.manifest))
        λ x.
          Steps-bind _ _ (Steps-try _ (fetch_file-Steps T b _ ctx.config false h.sig_tmp h.sig))
            λ y.
              Steps-bind _ _
                (Steps-try _ (fetch_file-Steps T c _ ctx.config false h.cert_tmp h.cert))
                λ z. all_fetched-Steps x y z
  fetch_three-Steps ctx _ _ _ h = search step_rules

  pub fetch_new_manifest-Steps :
      (ctx : Context) → AllowsFetch ctx → Steps r (fetch_new_manifest P ctx)
  unfolding fetch_new_manifest
  fetch_new_manifest-Steps ctx h = Steps-bind _ _ (build_path-Steps T _ _) λ a.
      Steps-bind _ _ (build_path-Steps T _ _)
        λ b. Steps-bind _ _ (build_path-Steps T _ _) λ c. fetch_three-Steps ctx a b c h

  fetch_payload-Steps :
      (ctx : Context) (release : Option ManifestRelease) (a b : Option Bytes)
      → ((p : Bytes) → a ≡ some p → Allowed (tmp_of p) × Allowed p)
      → Steps r (fetch_payload P ctx release a b)
  fetch_payload-Steps ctx release (some a) (some b) h =
      Steps-bind _ _ (fetch_file-Steps T b a ctx.config true (h a refl).0 (h a refl).1)
        λ u. Steps-pure _
  fetch_payload-Steps ctx release (some a) none h = search step_rules
  fetch_payload-Steps ctx release none _ h = search step_rules

module _ {P : Platform} {r : Preorder (State P)} (C : Crypto P) {Allowed : Bytes → Type 0}
    (T : Tolerates P r Allowed) where
  verified-Steps : (x : Result VerifyError (Unit {0})) → Steps r (verified P C x)
  verified-Steps (ok u) = search step_rules
  verified-Steps (err e) = search step_rules

  pub validate_new_manifest-Steps : (ctx : Context) → Steps r (validate_new_manifest P C ctx)
  unfolding validate_new_manifest
  validate_new_manifest-Steps ctx =
      Steps-bind _ _
        (Steps-try _ (
          T.reads_ok _ _ _ (
            verify_signature_with_cert-only_reads P C (some ctx.inbox_manifest_path)
              (some ctx.inbox_sig_path) (some ctx.inbox_cert_path) ctx.config.manifest_ca_cert)))
        verified-Steps

  files_equal-Steps : (a b : Option Bytes) → Steps r (files_equal P C a b)
  unfolding files_equal
  files_equal-Steps none b = search step_rules
  files_equal-Steps (some a) none = search step_rules
  files_equal-Steps (some a) (some b) =
      Steps-bind _ _ (Steps-try _ (T.reads_ok _ _ _ (sha256sum_file-only_reads P C (some a)))) λ x.
        Steps-bind _ _ (Steps-try _ (T.reads_ok _ _ _ (sha256sum_file-only_reads P C (some b))))
          λ y. Steps-pure _

  pub compare_manifests-Steps : (ctx : Context) → Steps r (compare_manifests P C ctx)
  unfolding compare_manifests file_exists
  compare_manifests-Steps ctx = search (step_rules, T.ask_ok, files_equal-Steps) depth 20

  check_hex-Steps : (expected : Bytes) (x : HexResult) → Steps r (check_hex P C expected x)
  check_hex-Steps expected (failed e) = search step_rules
  check_hex-Steps expected (encoded t) = search step_rules

  check_hash-Steps :
      (expected : Bytes) (x : Result HashError Bytes) → Steps r (check_hash P C expected x)
  check_hash-Steps expected (err e) = search step_rules
  check_hash-Steps expected (ok d) = check_hex-Steps expected _

  validate_against-Steps :
      (ctx : Context) (expected : Option Bytes) → Steps r (validate_against P C ctx expected)
  validate_against-Steps ctx none = search step_rules
  validate_against-Steps ctx (some expected) =
      Steps-bind _ _
        (Steps-try _ (T.reads_ok _ _ _ (sha256sum_file-only_reads P C ctx.payload_path)))
        (check_hash-Steps expected)

  pub validate_release-Steps : (ctx : Context) → Steps r (validate_release P C ctx)
  unfolding validate_release
  validate_release-Steps ctx = validate_against-Steps ctx (release_sha256 P C ctx.release)

module _ {P : Platform} {r : Preorder (State P)} (C : Crypto P) (J : Cjson P)
    {Allowed : Bytes → Type 0} (T : Tolerates P r Allowed) (any : (p : Bytes) → Allowed p) where
  fetch_entry-Steps :
      (ctx : Context) (release : Option ManifestRelease) (p : Option Payload)
      → Steps r (fetch_entry P ctx release p)
  fetch_entry-Steps ctx release none = search step_rules
  fetch_entry-Steps ctx release (some file) = Steps-bind _ _ (build_path-Steps T _ _) λ a.
      Steps-bind _ _ (Steps-check _ _) λ _.
        Steps-bind _ _ (build_path-Steps T _ _)
          λ b. fetch_payload-Steps T ctx release a b (λ p _. (any (tmp_of p), any p))

  fetch_release-Steps : (ctx : Context) → Steps r (fetch_release P ctx)
  unfolding fetch_release
  fetch_release-Steps ctx = fetch_entry-Steps ctx _ _

  or_no_manifest-Steps : (x : Result NoManifest Manifest) → Steps r (or_no_manifest P C J x)
  or_no_manifest-Steps (ok m) = search step_rules
  or_no_manifest-Steps (err e) = search step_rules

  -- Where every path is allowed, so is the preparation of an update.
  pub prepare-Steps : (ctx : Context) → Steps r (prepare P C J ctx)
  unfolding prepare
  prepare-Steps ctx =
      Steps-bind _ _
        (Steps-try _ (T.reads_ok _ _ _ (manifest_load-only_reads P J ctx.inbox_manifest_path)))
        λ x. Steps-bind _ _ (or_no_manifest-Steps x) λ m.
          Steps-bind _ _ (fetch_release-Steps (record ctx { inbox_manifest = some m }))
            λ ctx'. Steps-bind _ _ (validate_release-Steps C T ctx') λ _. Steps-pure ctx'
