-- ===== src/Config/Reads.antt =====
-- The functions of src/config.c change no file.
use ota_fetch.Base.{Bytes, Option, List, [], ◌∷◌, pos, zero, suc, negsuc, ℤ}
use ota_fetch.Platform.{Platform}
use ota_fetch.Platform.Steps.{Steps, Steps-bind, Steps-pure, Steps-raise, only_reads, read_rules}
use ota_fetch.Config.Defs.{Config}
use ota_fetch.Config.Load.{
  Ini, Entry, dup, config_handler, handle_all, validate_required_string, parsed as ini_parsed,
  config_load,
}

module _ (P : Platform) (I : Ini P) where
  config_handler-only_reads :
      (cfg : Config) (e : Entry) → Steps (only_reads P) (config_handler P I cfg e)
  unfolding config_handler dup
  config_handler-only_reads cfg e = search read_rules depth 60

  handle_all-only_reads :
      (cfg : Config) (es : List Entry) → Steps (only_reads P) (handle_all P I cfg es)
  unfolding handle_all
  handle_all-only_reads cfg [] = Steps-pure cfg
  handle_all-only_reads cfg (e ∷ es) =
      Steps-bind _ _ (config_handler-only_reads cfg e) λ cfg'. handle_all-only_reads cfg' es

  validate_required_string-only_reads :
      (value : Option Bytes) → Steps (only_reads P) (validate_required_string P I value)
  unfolding validate_required_string
  validate_required_string-only_reads value = search read_rules

  ini_parsed-only_reads : (rc : ℤ) → Steps (only_reads P) (ini_parsed P I rc)
  ini_parsed-only_reads (pos zero) = Steps-pure tt
  ini_parsed-only_reads (pos (suc n)) = Steps-raise (pos (suc n))
  ini_parsed-only_reads (negsuc n) = Steps-raise (negsuc n)

  pub config_load-only_reads : (filename : Bytes) → Steps (only_reads P) (config_load P I filename)
  unfolding config_load
  config_load-only_reads filename =
      search
        (
          read_rules, handle_all-only_reads, validate_required_string-only_reads,
          ini_parsed-only_reads,
        )
        depth 60
