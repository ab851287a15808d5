-- ===== src/Cli/Main.antt =====
-- `main` of src/main.c. The parser of the command line is a parameter: it gives what `getopt_long` returns
-- for each of the two tables of options. Logging is not modelled. `none` says that the fuel ran out with
-- the program still running.
use ota_fetch.Base.{
  ℕ, Bytes, codes, bytes_eq, Option, none, some, Bool, true, false, List, [], ◌∷◌, pos, ℤ,
  minus_one, Exec, Result, ok, err, pure, try, ◌>>=◌,
}
use ota_fetch.Platform.{Platform, State, Crypto, Cjson}
use ota_fetch.Platform.Posix.{Posix}
use ota_fetch.Platform.Keygen.{Keygen}
use ota_fetch.Platform.Http.{Http, CjsonPrint}
use ota_fetch.Config.{Config}
use ota_fetch.Config.Load.{Ini, config_load}
use ota_fetch.Fetch.Run.{ota_fetch_run}
use ota_fetch.Enroll.Paths.{EnrollError, failed, out_of_fuel}
use ota_fetch.Enroll.Run.{ota_fetch_enroll}
use ota_fetch.Cli.Args.{
  Opt, RunMode, mode_oneshot, mode_daemon, Parse, parse_ok, usage, bad_usage, Args, defaults,
  parse_fetch_args, parse_enroll_args,
}

pub record Getopt : Type 0 where
  pub fetch_opts : List Bytes → List Opt
  pub enroll_opts : List Bytes → List Opt

pub data Command : Type 0 where
  cmd_fetch cmd_enroll : Command

abbrev pub is_daemon : RunMode → Bool
is_daemon mode_oneshot = false
is_daemon mode_daemon = true

-- The command, and what its options say; `argv` is what follows the name of the program.
abbrev pub parse_fetch : Getopt → List Bytes → Command × (Parse × Args)
parse_fetch G argv = (cmd_fetch, parse_fetch_args defaults (G.fetch_opts argv))

unfoldable pub parse_command : Getopt → List Bytes → Command × (Parse × Args)
unfolding parse_fetch_args parse_enroll_args bytes_eq
parse_command G [] = parse_fetch G []
parse_command G (word ∷ argv) = elim (bytes_eq word (codes "enroll")) [
  | true ↦ (cmd_enroll, parse_enroll_args defaults (G.enroll_opts argv))
  | false ↦ parse_fetch G (word ∷ argv)
]

-- The code of the process; `none` is no end.
abbrev pub exit_code : Result EnrollError (Unit {0}) → Option ℤ
exit_code (ok u) = some (pos 0)
exit_code (err failed) = some minus_one
exit_code (err out_of_fuel) = none

module _ (P : Platform) (C : Crypto P) (I : Ini P) (X : Posix P) (K : Keygen P) (N : Http P)
    (J : Cjson P) (W : CjsonPrint P J) where
  unfoldable pub run_command : ℕ → Command → Args → Config → Exec (State P) ℤ (Option ℤ)
  unfolding ota_fetch_run ota_fetch_enroll
  run_command fuel cmd_fetch args cfg = ota_fetch_run P C J fuel (is_daemon args.mode) cfg
  run_command fuel cmd_enroll args cfg = do
    outcome ← try (ota_fetch_enroll P X K N J W fuel cfg (some args.token_path) args.forced)
    pure (exit_code outcome)

  abbrev pub if_loaded : ℕ → Command → Args → Result ℤ Config → Exec (State P) ℤ (Option ℤ)
  if_loaded fuel command args (ok cfg) = run_command fuel command args cfg
  if_loaded fuel command args (err rc) = pure (some (pos 1))

  abbrev pub if_parsed : ℕ → Command × (Parse × Args) → Exec (State P) ℤ (Option ℤ)
  if_parsed fuel (command, (parse_ok, args)) = do
    loaded ← try (config_load P I args.config_path)
    if_loaded fuel command args loaded
  if_parsed fuel (command, (usage, args)) = pure (some (pos 0))
  if_parsed fuel (command, (bad_usage, args)) = pure (some (pos 1))

  unfoldable pub main : Getopt → ℕ → List Bytes → Exec (State P) ℤ (Option ℤ)
  unfolding parse_command config_load run_command
  main G fuel argv = if_parsed fuel (parse_command G argv)
