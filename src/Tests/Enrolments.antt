-- ===== src/Tests/Enrolments.antt =====
-- Enrolments of the test device.
use ota_fetch.Base.{
  ◌≡◌, refl, bytes_eq, codes, none, some, false, [], ◌∷◌, ◌++◌, ok, err, pure, raise, try, check,
  ◌>>=◌,
}
use ota_fetch.Platform.{ask, act}
use ota_fetch.Config.{Config, zeroed}
use ota_fetch.Enroll.Paths.{failed}
use ota_fetch.Enroll.Write.{write_file_atomic}
use ota_fetch.Enroll.Run.{obtain, ota_fetch_enroll}
use ota_fetch.Enroll.Token.{read_chars, empty_buffer, read_token_file}
use ota_fetch.Enroll.Keys.{generate_key_and_csr}
use ota_fetch.Enroll.Request.{
  derive_enroll_url, build_enroll_request_json, post_enroll_request, parse_enroll_response,
}
use ota_fetch.Tests.Machine.{Files, lookup, erase}
use ota_fetch.Tests.Site.{device, boot}
use ota_fetch.Tests.Posix.{posix}
use ota_fetch.Tests.Bureau.{keygen, bureau, mistaken, notes, pen}

abbrev pub enrolment : Config
enrolment = record zeroed {
  server_url = some (codes "u/");
  tls_client_key = some (codes "key");
  tls_client_cert = some (codes "crt");
  device_id = some (codes "d");
}

-- The device with its token.
abbrev pub supplied : Files
supplied = (codes "tok", codes " s\n") ∷ []

abbrev pub enrolled : Files
enrolled = (codes "crt", codes "crt\nca") ∷ (codes "key", codes "Key" ++ 2048 ∷ []) ∷ []

pub enrols :
    ota_fetch_enroll device posix keygen bureau notes pen 9 enrolment
      (some (codes "tok"))
      false
      (boot supplied)
    ≡ (ok tt, boot enrolled)
unfolding ota_fetch_enroll bytes_eq lookup erase pure raise try check ◌>>=◌ ask act
enrols = refl

-- The key is in place, and its certificate is not.
abbrev pub half_enrolled : Files
half_enrolled = (codes "key", codes "Key" ++ 2048 ∷ []) ∷ supplied

pub half_enrols :
    ota_fetch_enroll device posix keygen mistaken notes pen 9 enrolment
      (some (codes "tok"))
      false
      (boot supplied)
    ≡ (err failed, boot half_enrolled)
unfolding ota_fetch_enroll bytes_eq lookup erase pure raise try check ◌>>=◌ ask act
half_enrols = refl

-- A second enrolment is refused without `force`.
refuses :
    ota_fetch_enroll device posix keygen bureau notes pen 9 enrolment
      (some (codes "tok"))
      false
      (boot half_enrolled)
    ≡ (err failed, boot half_enrolled)
unfolding ota_fetch_enroll bytes_eq lookup pure raise try check ◌>>=◌ ask act
refuses = refl

pub replaces :
    write_file_atomic device posix 2 (codes "key") (codes "Key2") 0o600 (boot half_enrolled)
    ≡ (ok tt, boot ((codes "key", codes "Key2") ∷ supplied))
unfolding write_file_atomic bytes_eq lookup erase pure raise try check ◌>>=◌ ask act
replaces = refl

pub obtains :
    obtain device posix keygen bureau notes pen enrolment (codes "tok") (boot supplied) ≡ (
      ok (record { key_pem = codes "Key" ++ 2048 ∷ []; csr_pem = codes "req d" }, codes "crt\nca"),
      boot supplied,
    )
unfolding obtain bytes_eq lookup pure raise try check ◌>>=◌ ask act
obtains = refl

pub reads_token :
    read_token_file device posix (codes "tok") (boot supplied) ≡ (ok (codes "s"), boot supplied)
unfolding read_token_file bytes_eq lookup pure raise check ◌>>=◌ ask
reads_token = refl

pub collects :
    read_chars device posix 4 (codes " s\n") empty_buffer (boot supplied)
    ≡ (ok (record { chars = codes " s\n"; cap = 256 }, []), boot supplied)
unfolding read_chars pure raise check ◌>>=◌ ask
collects = refl

generates : generate_key_and_csr device keygen none (boot supplied) ≡ (
  ok (record { key_pem = codes "Key" ++ 2048 ∷ []; csr_pem = codes "req ota-fetch" }),
  boot supplied,
)
unfolding generate_key_and_csr pure raise check ◌>>=◌ ask
generates = refl

pub derives :
    derive_enroll_url device (some (codes "u/")) (boot supplied)
    ≡ (ok (some (codes "u/enroll")), boot supplied)
unfolding derive_enroll_url pure ◌>>=◌ ask
derives = refl

pub answers :
    parse_enroll_response device notes (codes "{crt}") (boot supplied)
    ≡ (ok (codes "crt\nca"), boot supplied)
unfolding parse_enroll_response bytes_eq pure raise check ◌>>=◌ ask
answers = refl

asks :
    build_enroll_request_json device notes pen (codes "req d") (some (codes "d")) (boot supplied)
    ≡ (ok (codes "json"), boot supplied)
unfolding build_enroll_request_json bytes_eq pure raise check ◌>>=◌ ask
asks = refl

posts :
    post_enroll_request device bureau
      (codes "u/enroll")
      enrolment
      (codes "s")
      (codes "json")
      (boot supplied)
    ≡ (ok (codes "{crt}"), boot supplied)
unfolding post_enroll_request pure raise check ◌>>=◌ ask
posts = refl
