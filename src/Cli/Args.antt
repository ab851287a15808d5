-- ===== src/Cli/Args.antt =====
-- `parse_fetch_args` and `parse_enroll_args` of src/main.c. `getopt_long` is not modelled: its results are
-- the list of what each call returned, with `optarg`, up to -1.
use ota_fetch.Base.{Bytes, codes, Bool, true, false, List, [], ◌∷◌}

-- What a call of `getopt_long` returned; `unknown` is '?'.
pub data Opt : Type 0 where
  daemon oneshot debug help force : Opt
  config token_file : Bytes → Opt
  unknown : Opt

pub data RunMode : Type 0 where
  mode_oneshot mode_daemon : RunMode

-- 0, 1 and -1.
pub data Parse : Type 0 where
  parse_ok usage bad_usage : Parse

-- What `main` passes by reference.
pub record Args : Type 0 where
  pub config_path : Bytes
  pub token_path : Bytes
  pub mode : RunMode
  pub forced : Bool
  pub debug_enabled : Bool

abbrev pub defaults : Args
defaults = record {
  config_path = codes "/etc/ota-fetch/ota-fetch.conf";
  token_path = codes "/var/lib/ota-fetch/identity/enroll.token";
  mode = mode_oneshot;
  forced = false;
  debug_enabled = false;
}

unfoldable pub parse_fetch_args : Args → List Opt → Parse × Args
parse_fetch_args args [] = (parse_ok, args)
parse_fetch_args args (daemon ∷ opts) = parse_fetch_args (record args { mode = mode_daemon }) opts
parse_fetch_args args (oneshot ∷ opts) = parse_fetch_args (record args { mode = mode_oneshot }) opts
parse_fetch_args args (config path ∷ opts) =
    parse_fetch_args (record args { config_path = path }) opts
parse_fetch_args args (debug ∷ opts) = parse_fetch_args (record args { debug_enabled = true }) opts
parse_fetch_args args (help ∷ opts) = (usage, args)
parse_fetch_args args (_ ∷ opts) = (bad_usage, args)

unfoldable pub parse_enroll_args : Args → List Opt → Parse × Args
parse_enroll_args args [] = (parse_ok, args)
parse_enroll_args args (config path ∷ opts) =
    parse_enroll_args (record args { config_path = path }) opts
parse_enroll_args args (token_file path ∷ opts) =
    parse_enroll_args (record args { token_path = path }) opts
parse_enroll_args args (force ∷ opts) = parse_enroll_args (record args { forced = true }) opts
parse_enroll_args args (debug ∷ opts) =
    parse_enroll_args (record args { debug_enabled = true }) opts
parse_enroll_args args (help ∷ opts) = (usage, args)
parse_enroll_args args (_ ∷ opts) = (bad_usage, args)
