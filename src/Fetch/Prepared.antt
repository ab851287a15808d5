-- ===== src/Fetch/Prepared.antt =====
-- What the context holds, and which payload lies in the inbox, when `apply_release` is reached.
use ota_fetch.Base.{
  ◌≡◌, refl, sym, ◌∙◌, ap, Bytes, Option, none, some, true, List, [], ◌∷◌, arith, Result, ok, err,
  pure, raise,
}
use ota_fetch.Platform.{Platform, IsLawful, State, Crypto, IsSound, Cjson}
use ota_fetch.Platform.Steps.{Steps-after, keeps_file}
use ota_fetch.Platform.Footprint.{keeps_file-Tolerates}
use ota_fetch.Platform.Inversion.{pure-ok, check-ok, bind-ok, try-ok, ask-ok}
use ota_fetch.Manifest.{Manifest, ManifestRelease, ManifestFile}
use ota_fetch.Manifest.Load.{NoManifest, manifest_load}
use ota_fetch.Manifest.Select.{manifest_select_release}
use ota_fetch.Hash.Hex.{hex_text}
use ota_fetch.Fetch.Paths.{join, build_path}
use ota_fetch.Fetch.Context.{Context}
use ota_fetch.Fetch.Stages.{
  Payload, payload_of, payload_entry, is_set, with_payload, fetch_payload, fetch_entry,
  fetch_release, validate_release,
}
use ota_fetch.Fetch.StagesTouched.{validate_release-Steps}
use ota_fetch.Fetch.Apply.{release_type}
use ota_fetch.Fetch.Run.{or_no_manifest, prepare}
use ota_fetch.Fetch.Digested.{release_sha256-entry, HasDigest, validate_release-digest}

-- `ctx'` is `ctx` with the manifest `m`, the release that it has for the device, and the path of that
-- release's first file, which lies there with the digest that the manifest names.
pub record IsPrepared (P : Platform) (C : Crypto P) (ctx ctx' : Context) (m : Manifest)
    (w : P.World) : Type 0 where
  pub inbox : Bytes
  pub release : ManifestRelease
  pub payload : Payload
  pub contents : Bytes
  pub is_inbox : ctx.config.inbox_manifest_dir ≡ some inbox
  pub selected : manifest_select_release (some m) ctx.config.device_id ≡ some release
  pub entry : payload_entry (some release) ≡ some payload
  pub context : ctx' ≡ record ctx {
    inbox_manifest = some m;
    release = some release;
    payload_path = some (join inbox payload.filename);
  }
  pub is_contents : P.file w (join inbox payload.filename) ≡ some contents
  pub digest : hex_text (C.sha256 contents) ≡ payload.sha256

payload_entry-none : payload_entry none ≡ none
unfolding payload_entry
payload_entry-none = refl

-- The hash and the type that the later stages read are those of the entry.
pub payload_entry-type :
    (release : ManifestRelease) (p : Payload)
    → payload_entry (some release) ≡ some p
    → release_type (some release) ≡ some p.file_type
unfolding payload_entry
payload_entry-type release p h = go release.files h
  where
    go :
        (fs : List ManifestFile)
        → payload_entry (some (record release { files = fs })) ≡ some p
        → release_type (some (record release { files = fs })) ≡ some p.file_type
    go [] e = cc
    go (f ∷ fs) e = fields f.file_type f.filename f.path f.sha256 e
      where
        fields : (a b c d : Option Bytes) → payload_of a b c d ≡ some p → a ≡ some p.file_type
        fields (some a) (some b) (some c) (some d) q = ground arith
        fields _ _ _ _ q = cc

module _ (P : Platform) where
  -- A path that was built is the directory and the file, joined.
  pub build_path-join :
      {E : Type 0} (dir : Option Bytes) (file : Bytes) (s : State P) {x : Option Bytes}
      {t : State P}
      → build_path P {E = E} dir (some file) s ≡ (ok x, t)
      → is_set x ≡ true
      → (d : Bytes) × (dir ≡ some d) × (x ≡ some (join d file))
  unfolding build_path pure
  build_path-join none file s h set = absurd (ground arith)
  build_path-join (some d) file s h set =
      ask-ok P _ _ _ h λ h₁. pure-ok _ _ h₁ λ same _. (d, refl, ground arith)

  -- A payload entry that is fetched is fetched to the inbox.
  abbrev FetchedTo : Context → Context → ManifestRelease → Payload → Type 0
  FetchedTo ctx ctx' release p =
      (d : Bytes) × (ctx.config.inbox_manifest_dir ≡ some d)
      × (ctx' ≡ with_payload P ctx (some release) (join d p.filename))

  fetch_payload-context :
      (ctx ctx' : Context) (release : Option ManifestRelease) (a : Bytes) (b : Option Bytes)
      (s : State P) {t : State P}
      → fetch_payload P ctx release (some a) b s ≡ (ok ctx', t)
      → ctx' ≡ with_payload P ctx release a
  unfolding raise
  fetch_payload-context ctx ctx' release a none s h = absurd (cc)
  fetch_payload-context ctx ctx' release a (some b) s h =
      bind-ok _ _ _ h λ _ _ _ h₁. pure-ok _ _ h₁ λ same _. sym same

  fetch_entry-FetchedTo :
      (ctx ctx' : Context) (release : ManifestRelease) (p : Payload) (s : State P) {t : State P}
      → fetch_entry P ctx (some release) (some p) s ≡ (ok ctx', t)
      → FetchedTo ctx ctx' release p
  fetch_entry-FetchedTo ctx ctx' release p s h = bind-ok _ _ _ h λ a s₁ e₁ h₁.
      check-ok _ _ _ _ h₁ λ set h₂. bind-ok _ _ _ h₂ λ b s₂ _ h₃.
        let (d, is_dir, is_path) =
          build_path-join ctx.config.inbox_manifest_dir p.filename s e₁ set in
        (d, is_dir, fetch_payload-context ctx ctx' (some release) _ b s₂ (rw is_path at h₃))

  -- A release that is fetched was selected, and has a whole first file.
  fetch_entry-some :
      (ctx ctx' : Context) (release : Option ManifestRelease) (p : Option Payload) (s : State P)
      {t : State P}
      → payload_entry release ≡ p
      → fetch_entry P ctx release p s ≡ (ok ctx', t)
      → (r : ManifestRelease) × (q : Payload) × (release ≡ some r)
        × (payload_entry (some r) ≡ some q)
        × FetchedTo ctx ctx' r q
  unfolding raise
  fetch_entry-some ctx ctx' release none s e h = absurd (cc)
  fetch_entry-some ctx ctx' none (some p) s e h = absurd (cc payload_entry-none)
  fetch_entry-some ctx ctx' (some r) (some p) s e h =
      (r, p, refl, e, fetch_entry-FetchedTo ctx ctx' r p s h)

module _ (P : Platform) (L : IsLawful P) (C : Crypto P) (D : IsSound C) where
  -- The release that `fetch_release` leaves in the context, beside its first file.
  fetch_release-some :
      (ctx ctx' : Context) (s : State P) {t : State P}
      → fetch_release P ctx s ≡ (ok ctx', t)
      → (r : ManifestRelease) × (q : Payload) × (manifest_select_release ctx.inbox_manifest
            ctx.config.device_id
          ≡ some r)
        × (payload_entry (some r) ≡ some q)
        × FetchedTo P ctx ctx' r q
  unfolding fetch_release
  fetch_release-some ctx ctx' s h = fetch_entry-some P ctx ctx' _ _ s refl h

  or_no_manifest-ok :
      (J : Cjson P) (x : Result NoManifest Manifest) (s : State P) {m : Manifest} {t : State P}
      → or_no_manifest P C J x s ≡ (ok m, t)
      → x ≡ ok m
  unfolding pure raise
  or_no_manifest-ok J (ok m) s h = cc
  or_no_manifest-ok J (err e) s h = absurd (cc)

  validated-IsPrepared :
      (ctx ctx' : Context) (m : Manifest) (s₃ : State P) {u : Unit {0}} {t : State P}
      → (r : ManifestRelease) × (q : Payload) × (manifest_select_release
            (some m)
            ctx.config.device_id
          ≡ some r)
        × (payload_entry (some r) ≡ some q)
        × FetchedTo P (record ctx { inbox_manifest = some m }) ctx' r q
      → validate_release P C ctx' s₃ ≡ (ok u, t)
      → IsPrepared P C ctx ctx' m t.world
  unfolding HasDigest
  validated-IsPrepared ctx ctx' m s₃ {t} (r, q, chosen, first, fetched) h =
      let (d, is_dir, is_ctx) = fetched in
      let (contents, is_file, digest) =
        validate_release-digest P L C D ctx' (join d q.filename) q.sha256 s₃
          (ap (λ c. c.payload_path) is_ctx) (rw is_ctx (release_sha256-entry P L C D r q first))
          h in
      let kept =
        Steps-after (keeps_file P (join d q.filename)) _
          (validate_release-Steps C (keeps_file-Tolerates P L (join d q.filename)) ctx') h in
      record {
        inbox = d;
        release = r;
        payload = q;
        contents = contents;
        is_inbox = is_dir;
        selected = chosen;
        entry = first;
        context = is_ctx;
        is_contents = kept ∙ is_file;
        digest = digest;
      }

  -- A preparation that succeeds has loaded the manifest in the inbox and prepared its release.
  pub prepare-ok :
      (J : Cjson P) (ctx ctx' : Context) (s : State P) {t : State P}
      → prepare P C J ctx s ≡ (ok ctx', t)
      → (m : Manifest) × ((manifest_load P J ctx.inbox_manifest_path s).0 ≡ ok m)
        × IsPrepared P C ctx ctx' m t.world
  unfolding prepare
  prepare-ok J ctx ctx' s {t} h = try-ok _ _ _ h λ x s₁ loaded h₁. bind-ok _ _ _ h₁ λ m s₂ is_ok h₂.
      bind-ok _ _ _ h₂ λ c s₃ fetched h₃. bind-ok _ _ _ h₃ λ u s₄ valid h₄.
        pure-ok _ _ h₄ λ same_ctx same_state. (
          m,
          ap (λ p. p.0) loaded ∙ or_no_manifest-ok J x s₁ is_ok,
          validated-IsPrepared ctx ctx' m s₃
              (rw same_ctx at
                (fetch_release-some (record ctx { inbox_manifest = some m }) c s₂ fetched))
              (rw same_state at (rw same_ctx at valid)),
        )
