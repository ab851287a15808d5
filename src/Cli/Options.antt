-- ===== src/Cli/Options.antt =====
-- What the options of src/main.c mean, told apart from the order in which the parsers read them: the last
-- option that gives a value decides.
use ota_fetch.Base.{
  ◌≡◌, refl, ap, Bytes, Bool, true, false, Option, none, some, List, [], ◌∷◌, ◌++◌,
}
use ota_fetch.Cli.Args.{
  Opt, daemon, oneshot, debug, help, force, config, token_file, unknown, mode_oneshot, mode_daemon,
  parse_ok, Args, parse_fetch_args, parse_enroll_args,
}
use ota_fetch.Cli.Main.{is_daemon}

abbrev pub All : (Opt → Type 0) → List Opt → Type 0
All Q [] = Unit {0}
All Q (o ∷ opts) = Q o × All Q opts

-- The value of the last option that gives one, or the default if there is none.
pub data LastOf {A : Type 0} (given : Opt → Option A) (default : A) (opts : List Opt) (v : A)
    : Type 0 where
  by_default : All (λ o. given o ≡ none) opts → v ≡ default → LastOf given default opts v
  by_option :
      (before after : List Opt) (o : Opt)
      → opts ≡ before ++ o ∷ after
      → given o ≡ some v
      → All (λ p. given p ≡ none) after
      → LastOf given default opts v

LastOf-other :
    {A : Type 0} {given : Opt → Option A} {default v : A} {o : Opt} {opts : List Opt}
    → given o ≡ none
    → LastOf given default opts v
    → LastOf given default (o ∷ opts) v
LastOf-other {o = o} h (by_default nothing e) = by_default (h, nothing) e
LastOf-other {o = o} h (by_option before after p e g nothing) =
    by_option (o ∷ before) after p (ap (λ l. o ∷ l) e) g nothing

LastOf-given :
    {A : Type 0} {given : Opt → Option A} {default w v : A} {o : Opt} {opts : List Opt}
    → given o ≡ some w
    → LastOf given w opts v
    → LastOf given default (o ∷ opts) v
LastOf-given {o = o} {opts = opts} h (by_default nothing e) =
    by_option [] opts o refl (rw e h) nothing
LastOf-given {o = o} h (by_option before after p e g nothing) =
    by_option (o ∷ before) after p (ap (λ l. o ∷ l) e) g nothing

-- What each option gives.
abbrev pub path_of : Opt → Option Bytes
path_of (config path) = some path
path_of _ = none

abbrev pub daemon_of : Opt → Option Bool
daemon_of daemon = some true
daemon_of oneshot = some false
daemon_of _ = none

abbrev pub token_of : Opt → Option Bytes
token_of (token_file path) = some path
token_of _ = none

abbrev pub force_of : Opt → Option Bool
force_of force = some true
force_of _ = none

-- The options with which each command runs.
pub data IsFetchOpt : Opt → Type 0 where
  opt_daemon : IsFetchOpt daemon
  opt_oneshot : IsFetchOpt oneshot
  opt_config : (path : Bytes) → IsFetchOpt (config path)
  opt_debug : IsFetchOpt debug

pub data IsEnrollOpt : Opt → Type 0 where
  opt_config : (path : Bytes) → IsEnrollOpt (config path)
  opt_token_file : (path : Bytes) → IsEnrollOpt (token_file path)
  opt_force : IsEnrollOpt force
  opt_debug : IsEnrollOpt debug

pub record IsFetchArgs (args : Args) (opts : List Opt) (args' : Args) : Type 0 where
  pub known : All IsFetchOpt opts
  pub path : LastOf path_of args.config_path opts args'.config_path
  pub mode : LastOf daemon_of (is_daemon args.mode) opts (is_daemon args'.mode)

pub record IsEnrollArgs (args : Args) (opts : List Opt) (args' : Args) : Type 0 where
  pub known : All IsEnrollOpt opts
  pub path : LastOf path_of args.config_path opts args'.config_path
  pub token : LastOf token_of args.token_path opts args'.token_path
  pub forced : LastOf force_of args.forced opts args'.forced

pub parse_fetch_args-IsFetchArgs :
    (args : Args) (opts : List Opt) (args' : Args)
    → parse_fetch_args args opts ≡ (parse_ok, args')
    → IsFetchArgs args opts args'
unfolding parse_fetch_args
parse_fetch_args-IsFetchArgs args [] args' h =
    let same : args ≡ args' = ap (λ r. r.1) h in
    rw same (record { known = tt; path = by_default tt refl; mode = by_default tt refl })
parse_fetch_args-IsFetchArgs args (daemon ∷ opts) args' h =
    let rest = parse_fetch_args-IsFetchArgs (record args { mode = mode_daemon }) opts args' h in
    record {
      known = (opt_daemon, rest.known);
      path = LastOf-other refl rest.path;
      mode = LastOf-given refl rest.mode;
    }
parse_fetch_args-IsFetchArgs args (oneshot ∷ opts) args' h =
    let rest = parse_fetch_args-IsFetchArgs (record args { mode = mode_oneshot }) opts args' h in
    record {
      known = (opt_oneshot, rest.known);
      path = LastOf-other refl rest.path;
      mode = LastOf-given refl rest.mode;
    }
parse_fetch_args-IsFetchArgs args (config path ∷ opts) args' h =
    let rest = parse_fetch_args-IsFetchArgs (record args { config_path = path }) opts args' h in
    record {
      known = (opt_config path, rest.known);
      path = LastOf-given refl rest.path;
      mode = LastOf-other refl rest.mode;
    }
parse_fetch_args-IsFetchArgs args (debug ∷ opts) args' h =
    let rest = parse_fetch_args-IsFetchArgs (record args { debug_enabled = true }) opts args' h in
    record {
      known = (opt_debug, rest.known);
      path = LastOf-other refl rest.path;
      mode = LastOf-other refl rest.mode;
    }
parse_fetch_args-IsFetchArgs args (help ∷ opts) args' h = absurd (cc)
parse_fetch_args-IsFetchArgs args (force ∷ opts) args' h = absurd (cc)
parse_fetch_args-IsFetchArgs args (token_file path ∷ opts) args' h = absurd (cc)
parse_fetch_args-IsFetchArgs args (unknown ∷ opts) args' h = absurd (cc)

pub parse_enroll_args-IsEnrollArgs :
    (args : Args) (opts : List Opt) (args' : Args)
    → parse_enroll_args args opts ≡ (parse_ok, args')
    → IsEnrollArgs args opts args'
unfolding parse_enroll_args
parse_enroll_args-IsEnrollArgs args [] args' h =
    let same : args ≡ args' = ap (λ r. r.1) h in
    rw same (record {
      known = tt;
      path = by_default tt refl;
      token = by_default tt refl;
      forced = by_default tt refl;
    })
parse_enroll_args-IsEnrollArgs args (config path ∷ opts) args' h =
    let rest = parse_enroll_args-IsEnrollArgs (record args { config_path = path }) opts args' h in
    record {
      known = (opt_config path, rest.known);
      path = LastOf-given refl rest.path;
      token = LastOf-other refl rest.token;
      forced = LastOf-other refl rest.forced;
    }
parse_enroll_args-IsEnrollArgs args (token_file path ∷ opts) args' h =
    let rest = parse_enroll_args-IsEnrollArgs (record args { token_path = path }) opts args' h in
    record {
      known = (opt_token_file path, rest.known);
      path = LastOf-other refl rest.path;
      token = LastOf-given refl rest.token;
      forced = LastOf-other refl rest.forced;
    }
parse_enroll_args-IsEnrollArgs args (force ∷ opts) args' h =
    let rest = parse_enroll_args-IsEnrollArgs (record args { forced = true }) opts args' h in
    record {
      known = (opt_force, rest.known);
      path = LastOf-other refl rest.path;
      token = LastOf-other refl rest.token;
      forced = LastOf-given refl rest.forced;
    }
parse_enroll_args-IsEnrollArgs args (debug ∷ opts) args' h =
    let rest = parse_enroll_args-IsEnrollArgs (record args { debug_enabled = true }) opts args' h in
    record {
      known = (opt_debug, rest.known);
      path = LastOf-other refl rest.path;
      token = LastOf-other refl rest.token;
      forced = LastOf-other refl rest.forced;
    }
parse_enroll_args-IsEnrollArgs args (daemon ∷ opts) args' h = absurd (cc)
parse_enroll_args-IsEnrollArgs args (oneshot ∷ opts) args' h = absurd (cc)
parse_enroll_args-IsEnrollArgs args (help ∷ opts) args' h = absurd (cc)
parse_enroll_args-IsEnrollArgs args (unknown ∷ opts) args' h = absurd (cc)
