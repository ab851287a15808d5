-- ===== src/Config/Load.antt =====
-- `config_handler` and `config_load` of src/config.c. The INI parser and `atoi` are parameters: the
-- parser gives the entries of the file in order, each to the handler, and its own return code.
use ota_fetch.Base.{
  Bytes, codes, bytes_eq, is_blank, length, ◌+◌, Option, none, some, Bool, ◌&&◌, List, [], ◌∷◌,
  if◌then◌else◌, Exec, pure, raise, ◌>>=◌, ◌>>◌, ℤ, pos, zero, minus_one,
}
use ota_fetch.Platform.{Platform, State, ask}
use ota_fetch.Config.Defs.{Config, zeroed}

-- A `section`, `name` and `value` that the parser hands to the handler.
pub record Entry : Type 0 where
  pub section : Bytes
  pub name : Bytes
  pub value : Bytes

-- The calls of src/ini.h and of the C library.
pub record Ini (P : Platform) : Type 0 where
  -- The entries that the parser hands over before it ends, and 0 or another code.
  pub ini_parse : Bytes → P.World → P.Oracle → (List Entry × ℤ) × P.Oracle
  pub atoi : Bytes → ℤ

-- `MATCH(sec, key)`
unfoldable pub matches : Entry → Bytes → Bytes → Bool
unfolding bytes_eq
matches e sec key = bytes_eq e.section sec && bytes_eq e.name key

abbrev pub network : Bytes
network = codes "network"

abbrev pub system : Bytes
system = codes "system"

module _ (P : Platform) (I : Ini P) where
  abbrev pub Loading : Type 0 → Type 0
  Loading A = Exec (State P) ℤ A

  -- `DUP(value)`, of a value that is not NULL.
  unfoldable pub dup : Bytes → Loading (Option Bytes)
  dup value = do
    got ← ask P (λ w. P.malloc (length value + 1))
    pure (if got then some value else none)

  -- The key that an entry has decides which field it sets; other entries are ignored.
  unfoldable pub config_handler : Config → Entry → Loading Config
  unfolding matches dup
  config_handler cfg e =
      if matches e network (codes "server_url")
      then dup e.value >>= (λ v. pure (record cfg { server_url = v }))
      else if matches e network (codes "enroll_url")
      then dup e.value >>= (λ v. pure (record cfg { enroll_url = v }))
      else if matches e network (codes "tls_ca_cert")
      then dup e.value >>= (λ v. pure (record cfg { tls_ca_cert = v }))
      else if matches e network (codes "tls_client_cert")
      then dup e.value >>= (λ v. pure (record cfg { tls_client_cert = v }))
      else if matches e network (codes "tls_client_key")
      then dup e.value >>= (λ v. pure (record cfg { tls_client_key = v }))
      else if matches e network (codes "connect_timeout")
      then pure (record cfg { connect_timeout = I.atoi e.value })
      else if matches e network (codes "transfer_timeout")
      then pure (record cfg { transfer_timeout = I.atoi e.value })
      else if matches e network (codes "low_speed_limit")
      then pure (record cfg { low_speed_limit = I.atoi e.value })
      else if matches e network (codes "low_speed_time")
      then pure (record cfg { low_speed_time = I.atoi e.value })
      else if matches e network (codes "retry_attempts")
      then pure (record cfg { retry_attempts = I.atoi e.value })
      else if matches e system (codes "update_interval_sec")
      then pure (record cfg { update_interval_sec = I.atoi e.value })
      else if matches e system (codes "inbox_manifest_dir")
      then dup e.value >>= (λ v. pure (record cfg { inbox_manifest_dir = v }))
      else if matches e system (codes "current_manifest_dir")
      then dup e.value >>= (λ v. pure (record cfg { current_manifest_dir = v }))
      else if matches e system (codes "manifest_ca_cert")
      then dup e.value >>= (λ v. pure (record cfg { manifest_ca_cert = v }))
      else if matches e system (codes "log_file")
      then dup e.value >>= (λ v. pure (record cfg { log_file = v }))
      else if matches e system (codes "device_id")
      then dup e.value >>= (λ v. pure (record cfg { device_id = v }))
      else pure cfg

  unfoldable pub handle_all : Config → List Entry → Loading Config
  unfolding config_handler
  handle_all cfg [] = pure cfg
  handle_all cfg (e ∷ es) = do cfg' ← config_handler cfg e; handle_all cfg' es

  unfoldable pub validate_required_string : Option Bytes → Loading (Unit {0})
  validate_required_string value = if is_blank value then raise minus_one else pure tt

  abbrev pub parsed : ℤ → Loading (Unit {0})
  parsed (pos zero) = pure tt
  parsed rc = raise rc

  -- A configuration that is refused is freed, and the caller gets the code only.
  unfoldable pub config_load : Bytes → Loading Config
  unfolding handle_all validate_required_string
  config_load filename = do
    answer ← ask P (I.ini_parse filename)
    config ← handle_all zeroed answer.0
    parsed answer.1
    validate_required_string config.server_url
    validate_required_string config.tls_ca_cert
    validate_required_string config.tls_client_cert
    validate_required_string config.tls_client_key
    validate_required_string config.inbox_manifest_dir
    validate_required_string config.current_manifest_dir
    validate_required_string config.manifest_ca_cert
    pure config
