-- ===== src/Config/Defs.antt =====
-- `struct ota_config` of src/config.h. A `char *` that may be NULL is an `Option`.
use ota_fetch.Base.{Bytes, Option, none, ℤ, pos}

pub record Config : Type 0 where
  pub server_url : Option Bytes
  pub enroll_url : Option Bytes
  pub tls_ca_cert : Option Bytes
  pub tls_client_cert : Option Bytes
  pub tls_client_key : Option Bytes
  pub connect_timeout : ℤ
  pub transfer_timeout : ℤ
  pub low_speed_limit : ℤ
  pub low_speed_time : ℤ
  pub retry_attempts : ℤ
  pub update_interval_sec : ℤ
  pub inbox_manifest_dir : Option Bytes
  pub current_manifest_dir : Option Bytes
  pub manifest_ca_cert : Option Bytes
  pub log_file : Option Bytes
  pub device_id : Option Bytes

-- `memset(config, 0, sizeof(*config))`
abbrev pub zeroed : Config
zeroed = record {
  server_url = none;
  enroll_url = none;
  tls_ca_cert = none;
  tls_client_cert = none;
  tls_client_key = none;
  connect_timeout = pos 0;
  transfer_timeout = pos 0;
  low_speed_limit = pos 0;
  low_speed_time = pos 0;
  retry_attempts = pos 0;
  update_interval_sec = pos 0;
  inbox_manifest_dir = none;
  current_manifest_dir = none;
  manifest_ca_cert = none;
  log_file = none;
  device_id = none;
}
