-- ===== src/Tests/Site.antt =====
-- A cJSON for the tests, an update server, and a device.
use ota_fetch.Base.{
  ℕ, zero, suc, Bytes, bytes_eq, codes, Option, none, some, Bool, true, false, [], ◌∷◌,
  if◌then◌else◌, pos,
}
use ota_fetch.Platform.{Platform, State, exited, Crypto, Cjson}
use ota_fetch.Config.{Config, zeroed}
use ota_fetch.Hash.Hex.{hex_text}
use ota_fetch.Tests.Machine.{Files, lookup, machine}
use ota_fetch.Tests.Keys.{toy_sha256, keys}

-- A value of JSON; the key of an item of an array is empty.
mutual
  pub data Json : Type 0 where
    object array : Items → Json
    text : Bytes → Json
    number : ℕ → Json

  pub data Items : Type 0 where
    end : Items
    item : Bytes → Json → Items → Items

abbrev find_key : Bytes → Items → Option Json
find_key key end = none
find_key key (item k v rest) = if bytes_eq key k then some v else find_key key rest

abbrev item_at : Items → ℕ → Option Json
item_at end i = none
item_at (item k v rest) zero = some v
item_at (item k v rest) (suc i) = item_at rest i

abbrev count : Items → ℕ
count end = 0
count (item k v rest) = suc (count rest)

abbrev is_object : Json → Bool
is_object (object items) = true
is_object _ = false

abbrev is_array : Json → Bool
is_array (array items) = true
is_array _ = false

abbrev items_of : Json → Items
items_of (object items) = items
items_of (array items) = items
items_of _ = end

abbrev text_in : Json → Option Bytes
text_in (text s) = some s
text_in _ = none

abbrev number_in : Json → Option ℕ
number_in (number n) = some n
number_in _ = none

abbrev bundle : Bytes
bundle = codes "x"

-- The manifest of the site, for the device `d` and a default.
abbrev site_json : Json
site_json = object (
    item (codes "releases")
      (array (
        item [] (object (item (codes "device_id") (text (codes "default")) end)) (
          item []
            (object (
              item (codes "device_id") (text (codes "d")) (
                item (codes "files")
                  (array (
                    item []
                      (object (
                        item (codes "file_type") (text (codes "rauc_bundle")) (
                          item (codes "filename") (text (codes "b")) (
                            item (codes "sha256") (text (hex_text (toy_sha256 bundle)))
                              (item (codes "path") (text (codes "p")) end)))))
                      end))
                  end)))
            end)))
      end)

abbrev pub site : Bytes → Option Bytes
site url = lookup url (
    (codes "u/manifest.json", codes "m")
    ∷ (codes "u/manifest.json.sig", codes "cam")
    ∷ (codes "u/signer.crt", codes "ca")
    ∷ (codes "u/p", bundle)
    ∷ [])

abbrev pub device : Platform
device = machine site (exited 0)

abbrev pub libcrypto : Crypto device
libcrypto = keys site (exited 0)

abbrev pub cjson : Cjson device
cjson = record {
  Value = Json;
  Double = ℕ;
  parse = λ s o. (if bytes_eq s (codes "m") then some site_json else none, o);
  is_object = is_object;
  is_array = is_array;
  string_of = text_in;
  number_of = number_in;
  get_object_item = λ v key. find_key key (items_of v);
  get_array_size = λ v. count (items_of v);
  get_array_item = λ v i. item_at (items_of v) i;
  is_negative = λ n. false;
  to_u64 = λ n. n;
}

abbrev pub config : Config
config = record zeroed {
  server_url = some (codes "u");
  inbox_manifest_dir = some (codes "i");
  current_manifest_dir = some (codes "c");
  manifest_ca_cert = some (codes "ca");
  device_id = some (codes "d");
  retry_attempts = pos 2;
}

abbrev pub boot : Files → State device
boot w = record { world = w; oracle = []; trace = [] }
