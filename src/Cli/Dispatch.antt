-- ===== src/Cli/Dispatch.antt =====
-- What `main` of src/main.c needs before it fetches or enrols, and what it then runs.
use ota_fetch.Base.{
  ℕ, ◌≡◌, ◌≢◌, refl, sym, ap, ◌∙◌, Bytes, codes, bytes_eq, bytes_eq→eq, bytes_eq_refl, Bool, true,
  false, minus_one, Option, none, some, List, [], ◌∷◌, pos, ℤ, Result, ok, err, pure, try, ◌>>=◌,
}
use ota_fetch.Platform.{Platform, State, Crypto, Cjson}
use ota_fetch.Platform.Steps.{Steps-after, only_reads}
use ota_fetch.Platform.Posix.{Posix}
use ota_fetch.Platform.Keygen.{Keygen}
use ota_fetch.Platform.Http.{Http, CjsonPrint}
use ota_fetch.Config.{Config}
use ota_fetch.Config.Load.{Ini, config_load}
use ota_fetch.Config.Reads.{config_load-only_reads}
use ota_fetch.Config.Complete.{IsComplete, config_load-IsComplete}
use ota_fetch.Fetch.Run.{ota_fetch_run}
use ota_fetch.Enroll.Paths.{EnrollError, failed, out_of_fuel}
use ota_fetch.Enroll.Run.{ota_fetch_enroll}
use ota_fetch.Cli.Args.{
  Parse, parse_ok, usage, bad_usage, Args, defaults, parse_fetch_args, parse_enroll_args,
}
use ota_fetch.Cli.Options.{
  All, LastOf, path_of, daemon_of, token_of, force_of, IsFetchOpt, IsEnrollOpt,
  parse_fetch_args-IsFetchArgs, parse_enroll_args-IsEnrollArgs,
}
use ota_fetch.Cli.Main.{
  Getopt, Command, cmd_fetch, cmd_enroll, is_daemon, exit_code, parse_fetch, parse_command,
  run_command, if_parsed, main,
}

not_word :
    (word : Bytes) (argv : List Bytes)
    → bytes_eq word (codes "enroll") ≡ false
    → (rest : List Bytes) → word ∷ argv ≢ codes "enroll" ∷ rest
not_word word argv other rest e =
    let same : word ≡ codes "enroll" = cc in
    let clash : true ≡ false = sym (bytes_eq_refl (codes "enroll")) ∙ (rw same at other) in
    absurd (cc)

module _ (P : Platform) (C : Crypto P) (I : Ini P) (X : Posix P) (K : Keygen P) (N : Http P)
    (J : Cjson P) (W : CjsonPrint P J) where
  -- The code of the process that enrols.
  pub data Exits : Result EnrollError (Unit {0}) → Option ℤ → Type 0 where
    enrolled : Exits (ok tt) (some (pos 0))
    not_enrolled : Exits (err failed) (some minus_one)
    no_end : Exits (err out_of_fuel) none

  exit_code-Exits : (y : Result EnrollError (Unit {0})) → Exits y (exit_code y)
  exit_code-Exits (ok tt) = enrolled
  exit_code-Exits (err failed) = not_enrolled
  exit_code-Exits (err out_of_fuel) = no_end

  -- The configuration at the path is complete, and this is the state behind its loading.
  pub record IsLoaded (path : Bytes) (cfg : Config) (s loaded : State P) : Type 0 where
    pub is_loaded : config_load P I path s ≡ (ok cfg, loaded)
    pub is_complete : IsComplete cfg

  -- What a command line that was understood asks for was done: a run of the updater, or an enrolment.
  pub data IsRun (G : Getopt) (fuel : ℕ) (argv : List Bytes) (s : State P) (x : Result ℤ (Option ℤ))
      (t : State P) : Type 0 where
    fetched :
        (path : Bytes) (daemon_mode : Bool) (cfg : Config) (loaded : State P)
        → ((rest : List Bytes) → argv ≢ codes "enroll" ∷ rest)
        → All IsFetchOpt (G.fetch_opts argv)
        → LastOf path_of (codes "/etc/ota-fetch/ota-fetch.conf") (G.fetch_opts argv) path
        → LastOf daemon_of false (G.fetch_opts argv) daemon_mode
        → IsLoaded path cfg s loaded
        → ota_fetch_run P C J fuel daemon_mode cfg loaded ≡ (x, t)
        → IsRun G fuel argv s x t
    enrolling :
        (rest : List Bytes) (path token : Bytes) (forced : Bool) (cfg : Config) (loaded : State P)
        (y : Result EnrollError (Unit {0})) (code : Option ℤ)
        → argv ≡ codes "enroll" ∷ rest
        → All IsEnrollOpt (G.enroll_opts rest)
        → LastOf path_of (codes "/etc/ota-fetch/ota-fetch.conf") (G.enroll_opts rest) path
        → LastOf token_of
            (codes "/var/lib/ota-fetch/identity/enroll.token")
            (G.enroll_opts rest)
            token
        → LastOf force_of false (G.enroll_opts rest) forced
        → IsLoaded path cfg s loaded
        → ota_fetch_enroll P X K N J W fuel cfg (some token) forced loaded ≡ (y, t)
        → Exits y code
        → x ≡ ok code
        → IsRun G fuel argv s x t

  -- A command line that acts was understood, and its configuration was loaded.
  record IsBegun (fuel : ℕ) (command : Command) (p : Parse) (args : Args) (s : State P)
      (x : Result ℤ (Option ℤ)) (t : State P) : Type 0 where
    is_ok : p ≡ parse_ok
    cfg : Config
    loaded : State P
    is_loaded : IsLoaded args.config_path cfg s loaded
    ran : run_command P C I X K N J W fuel command args cfg loaded ≡ (x, t)

  if_parsed-IsBegun :
      (fuel : ℕ) (command : Command) (p : Parse) (args : Args) (s : State P)
      {x : Result ℤ (Option ℤ)} {t : State P}
      → if_parsed P C I X K N J W fuel (command, (p, args)) s ≡ (x, t)
      → ¬ ((only_reads P).rel s t)
      → IsBegun fuel command p args s x t
  unfolding pure try ◌>>=◌
  if_parsed-IsBegun fuel command usage args s h acts =
      let same : s ≡ _ = ap (λ r. r.1) h in absurd (acts (rw (← same) (refl, refl)))
  if_parsed-IsBegun fuel command bad_usage args s h acts =
      let same : s ≡ _ = ap (λ r. r.1) h in absurd (acts (rw (← same) (refl, refl)))
  if_parsed-IsBegun fuel command parse_ok args s {x} {t} h acts =
      go (config_load P I args.config_path s) refl
    where
      go :
          (r : Result ℤ Config × State P)
          → config_load P I args.config_path s ≡ r
          → IsBegun fuel command parse_ok args s x t
      go (ok cfg, s₁) r = record {
        is_ok = refl;
        cfg = cfg;
        loaded = s₁;
        is_loaded = record {
          is_loaded = r;
          is_complete = config_load-IsComplete P I args.config_path s r;
        };
        ran = rw r at h;
      }
      go (err rc, s₁) r =
          let same : s₁ ≡ t = ap (λ p. p.1) (rw r at h) in
          absurd (
            acts (
              rw (← same)
                (Steps-after (only_reads P) _ (config_load-only_reads P I args.config_path) r)))

  fetch-IsRun :
      (G : Getopt) (fuel : ℕ) (argv : List Bytes) (s : State P) {x : Result ℤ (Option ℤ)}
      {t : State P}
      → ((rest : List Bytes) → argv ≢ codes "enroll" ∷ rest)
      → if_parsed P C I X K N J W fuel (parse_fetch G argv) s ≡ (x, t)
      → ¬ ((only_reads P).rel s t)
      → IsRun G fuel argv s x t
  unfolding run_command
  fetch-IsRun G fuel argv s no_word h acts =
      let (p, args) = parse_fetch_args defaults (G.fetch_opts argv) in
      let b = if_parsed-IsBegun fuel cmd_fetch p args s h acts in
      let a =
        parse_fetch_args-IsFetchArgs defaults (G.fetch_opts argv) args
          (ap (λ q. (q, args)) b.is_ok) in
      fetched args.config_path (is_daemon args.mode) b.cfg b.loaded no_word a.known a.path a.mode
        b.is_loaded b.ran

  enroll-IsRun :
      (G : Getopt) (fuel : ℕ) (rest : List Bytes) (s : State P) {x : Result ℤ (Option ℤ)}
      {t : State P}
      → if_parsed P C I X K N J W fuel
          (cmd_enroll, parse_enroll_args defaults (G.enroll_opts rest))
          s
        ≡ (x, t)
      → ¬ ((only_reads P).rel s t)
      → IsRun G fuel (codes "enroll" ∷ rest) s x t
  unfolding run_command pure try ◌>>=◌
  enroll-IsRun G fuel rest s h acts =
      let (p, args) = parse_enroll_args defaults (G.enroll_opts rest) in
      let b = if_parsed-IsBegun fuel cmd_enroll p args s h acts in
      let a =
        parse_enroll_args-IsEnrollArgs defaults (G.enroll_opts rest) args
          (ap (λ q. (q, args)) b.is_ok) in
      let run =
        ota_fetch_enroll P X K N J W fuel b.cfg (some args.token_path) args.forced b.loaded in
      enrolling rest args.config_path args.token_path args.forced b.cfg b.loaded run.0
        (exit_code run.0) refl a.known a.path a.token a.forced b.is_loaded
        (ap (λ r. (run.0, r.1)) b.ran) (exit_code-Exits run.0) (ap (λ r. r.0) (sym b.ran))

  -- A process that changes any file, installs, reboots or waits has been given only options that its
  -- command knows, and has loaded a configuration in which every required value is given, from the path
  -- of the last --config or else from the default path. If the first word is not "enroll", what it did
  -- is a run of the updater, as a daemon if the last of --daemon and --oneshot is --daemon. If it is,
  -- what it did is an enrolment with the token file of the last --token-file or else the default one,
  -- forced if --force is given, and the process returns 0 if that succeeded and -1 if it failed.
  pub main-IsRun_of_change :
      (G : Getopt) (fuel : ℕ) (argv : List Bytes) (s : State P) {x : Result ℤ (Option ℤ)}
      {t : State P}
      → main P C I X K N J W G fuel argv s ≡ (x, t)
      → ¬ ((only_reads P).rel s t)
      → IsRun G fuel argv s x t
  unfolding main parse_command
  main-IsRun_of_change G fuel [] s h acts = fetch-IsRun G fuel [] s (λ rest e. absurd (cc)) h acts
  main-IsRun_of_change G fuel (word ∷ argv) s {x} {t} h acts =
      by_word (bytes_eq word (codes "enroll")) refl h
    where
      by_word :
          (b : Bool)
          → bytes_eq word (codes "enroll") ≡ b
          → if_parsed P C I X K N J W fuel
              (elim b [
                | true ↦ (cmd_enroll, parse_enroll_args defaults (G.enroll_opts argv))
                | false ↦ parse_fetch G (word ∷ argv)
              ])
              s
            ≡ (x, t)
          → IsRun G fuel (word ∷ argv) s x t
      by_word true is_word k =
          rw (bytes_eq→eq word (codes "enroll") is_word) (enroll-IsRun G fuel argv s k acts)
      by_word false other k = fetch-IsRun G fuel (word ∷ argv) s (not_word word argv other) k acts
