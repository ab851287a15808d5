-- ===== src/Fetch/Verified.antt =====
-- The context of an update check of src/ota_fetch.c, and the manifest that is verified in it.
use mathlib.Core.List.{append_assoc}
use ota_fetch.Base.{
  ◌≡◌, refl, sym, ◌∙◌, ap, Bytes, codes, Option, none, some, Result, ok, err, Exec, pure, raise,
  ◌>>=◌, ◌>>◌, ℤ, [], ◌∷◌,
}
use ota_fetch.Platform.{Platform, IsLawful, State, Crypto, IsSound}
use ota_fetch.Platform.Inversion.{bind-ok, try-ok}
use ota_fetch.Config.{Config}
use ota_fetch.Verify.Defs.{VerifyError}
use ota_fetch.Verify.Pipeline.{verify_signature_with_cert}
use ota_fetch.Verify.Soundness.{IsAuthentic}
use ota_fetch.Verify.Authentic.{verify_signature_with_cert-IsAuthentic}
use ota_fetch.Fetch.Paths.{join}
use ota_fetch.Fetch.Download.{tmp_of}
use ota_fetch.Fetch.Context.{
  Context, context_of, manifest_json, manifest_json_sig, signer_crt, ota_ctx_init,
  ota_inbox_cleanup,
}
use ota_fetch.Fetch.Stages.{is_set, fetch_new_manifest, verified, validate_new_manifest}
use ota_fetch.Fetch.Prepared.{build_path-join}

-- The context that a configuration with both directories set leads to.
abbrev pub context_at : Config → Bytes → Bytes → Context
context_at cfg current inbox = record {
  config = cfg;
  current_manifest_path = join current manifest_json;
  inbox_manifest_path = join inbox manifest_json;
  inbox_sig_path = join inbox manifest_json_sig;
  inbox_cert_path = join inbox signer_crt;
  inbox_manifest = none;
  payload_path = none;
  release = none;
}

-- The part of an update check that ends with the manifest, its signature and its certificate in the
-- inbox.
abbrev pub arrive : (P : Platform) → Config → Exec (State P) ℤ Context
arrive P cfg = do
  ctx ← ota_ctx_init P cfg
  ota_inbox_cleanup P ctx
  fetch_new_manifest P ctx
  pure ctx

-- The manifest in the inbox is authentic, with the signature and the certificate that lie beside it
-- and the authorities of the configuration.
pub record IsVerified (P : Platform) (C : Crypto P) (cfg : Config) (inbox : Bytes) (w : P.World)
    : Type 0 where
  pub ca_path : Bytes
  pub is_ca : cfg.manifest_ca_cert ≡ some ca_path
  pub is_inbox : cfg.inbox_manifest_dir ≡ some inbox
  pub authentic :
      IsAuthentic P C w
        (join inbox manifest_json)
        (join inbox manifest_json_sig)
        (join inbox signer_crt)
        ca_path

pub tmp_of-join : (d name : Bytes) → tmp_of (join d name) ≡ join d (tmp_of name)
unfolding tmp_of join
tmp_of-join d name = append_assoc d (b'/' ∷ name) (codes ".tmp")

pub pure-eq : {S E A : Type 0} (a : A) (s : S) → pure {E = E} a s ≡ (ok a, s)
unfolding pure
pure-eq a s = refl

pub some-path : {x y : Bytes} → some x ≡ some y → x ≡ y
some-path e = cc

module _ (P : Platform) where
  context_of-some :
      (cfg : Config) (a b c d : Option Bytes) (s : State P) {ctx : Context} {t : State P}
      → context_of P cfg a b c d s ≡ (ok ctx, t)
      → (w x y z : Bytes) × (a ≡ some w)
        × (b ≡ some x)
        × (c ≡ some y)
        × (d ≡ some z)
        × (ctx ≡ record (context_at cfg [] []) {
          current_manifest_path = w;
          inbox_manifest_path = x;
          inbox_sig_path = y;
          inbox_cert_path = z;
        })
  unfolding raise pure
  context_of-some cfg (some w) (some x) (some y) (some z) s h =
      (w, x, y, z, refl, refl, refl, refl, cc)
  context_of-some cfg _ _ _ _ s h = absurd (cc)

  pub ota_ctx_init-context_at :
      (cfg : Config) (s : State P) {ctx : Context} {t : State P}
      → ota_ctx_init P cfg s ≡ (ok ctx, t)
      → (current inbox : Bytes) × (cfg.current_manifest_dir ≡ some current)
        × (cfg.inbox_manifest_dir ≡ some inbox)
        × (ctx ≡ context_at cfg current inbox)
  unfolding ota_ctx_init
  ota_ctx_init-context_at cfg s h = bind-ok _ _ _ h λ a s₁ e₁ h₁. bind-ok _ _ _ h₁ λ b s₂ e₂ h₂.
      bind-ok _ _ _ h₂ λ c s₃ e₃ h₃. bind-ok _ _ _ h₃ λ d s₄ e₄ h₄.
        let (w, x, y, z, is_w, is_x, is_y, is_z, is_ctx) = context_of-some cfg a b c d s₄ h₄ in
        let (current, is_current, at_current) =
          build_path-join P cfg.current_manifest_dir manifest_json s e₁ (ap is_set is_w) in
        let (inbox, is_inbox, at_inbox) =
          build_path-join P cfg.inbox_manifest_dir manifest_json s₁ e₂ (ap is_set is_x) in
        let (i₂, is_i₂, at_sig) =
          build_path-join P cfg.inbox_manifest_dir manifest_json_sig s₂ e₃ (ap is_set is_y) in
        let (i₃, is_i₃, at_cert) =
          build_path-join P cfg.inbox_manifest_dir signer_crt s₃ e₄ (ap is_set is_z) in
        (
          current,
          inbox,
          is_current,
          is_inbox,
          is_ctx ∙ λ i. record (context_at cfg [] []) {
            current_manifest_path = some-path (sym is_w ∙ at_current) i;
            inbox_manifest_path = some-path (sym is_x ∙ at_inbox) i;
            inbox_sig_path =
                (some-path (sym is_y ∙ at_sig)
                    ∙ ap (λ k. join k manifest_json_sig) (some-path (sym is_i₂ ∙ is_inbox)))
                  i;
            inbox_cert_path =
                (some-path (sym is_z ∙ at_cert)
                    ∙ ap (λ k. join k signer_crt) (some-path (sym is_i₃ ∙ is_inbox)))
                  i;
          },
        )

  verified-ok :
      (C : Crypto P) (x : Result VerifyError (Unit {0})) (s : State P) {u : Unit {0}} {t : State P}
      → verified P C x s ≡ (ok u, t)
      → x ≡ ok tt
  unfolding raise
  verified-ok C (ok u) s h = refl
  verified-ok C (err e) s h = absurd (cc)

  -- Verification with a path for the authorities that may be NULL.
  accepted-IsVerified :
      (L : IsLawful P) (C : Crypto P) (D : IsSound C) (cfg : Config) (inbox : Bytes)
      (ca : Option Bytes) (s : State P) {u : Unit {0}} {t : State P}
      → cfg.inbox_manifest_dir ≡ some inbox
      → cfg.manifest_ca_cert ≡ ca
      → verify_signature_with_cert P C
          (some (join inbox manifest_json))
          (some (join inbox manifest_json_sig))
          (some (join inbox signer_crt))
          ca
          s
        ≡ (ok u, t)
      → IsVerified P C cfg inbox s.world
  unfolding verify_signature_with_cert raise
  accepted-IsVerified L C D cfg inbox none s is_inbox is_ca h = absurd (cc)
  accepted-IsVerified L C D cfg inbox (some ca) s is_inbox is_ca h = record {
    ca_path = ca;
    is_ca = is_ca;
    is_inbox = is_inbox;
    authentic = verify_signature_with_cert-IsAuthentic P L C D _ _ _ ca s h;
  }

  pub validate_new_manifest-IsVerified :
      (L : IsLawful P) (C : Crypto P) (D : IsSound C) (cfg : Config) (current inbox : Bytes)
      (s : State P) {u : Unit {0}} {t : State P}
      → cfg.inbox_manifest_dir ≡ some inbox
      → validate_new_manifest P C (context_at cfg current inbox) s ≡ (ok u, t)
      → IsVerified P C cfg inbox s.world
  unfolding validate_new_manifest
  validate_new_manifest-IsVerified L C D cfg current inbox s is_inbox h =
      try-ok _ _ _ h λ x s₁ e h₁.
        accepted-IsVerified L C D cfg inbox cfg.manifest_ca_cert s is_inbox refl
          (e ∙ ap (λ y. (y, s₁)) (verified-ok C x s₁ h₁))
