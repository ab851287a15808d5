-- ===== src/Tests/Enrolling.antt =====
-- The theorems on src/enroll.c at concrete data.
use ota_fetch.Base.{◌≡◌, ◌≢◌, refl, bytes_eq, codes, false, ◌∷◌, err, arith}
use ota_fetch.Platform.{exited, IsLawful}
use ota_fetch.Platform.Totality.{Never}
use ota_fetch.Fetch.Paths.{join, drop_slash}
use ota_fetch.Fetch.Download.{tmp_of}
use ota_fetch.Enroll.Paths.{out_of_fuel}
use ota_fetch.Enroll.Token.{empty_buffer, read_token_file}
use ota_fetch.Enroll.Write.{write_all, write_file_atomic}
use ota_fetch.Enroll.Atomic.{IsWritten, write_file_atomic-IsWritten}
use ota_fetch.Enroll.Settled.{OldOrNew, write_file_atomic-OldOrNew}
use ota_fetch.Enroll.Trimmed.{IsTokenOf, read_token_file-IsTokenOf}
use ota_fetch.Enroll.Room.{HasRoom, empty_buffer-HasRoom, read_chars-HasRoom}
use ota_fetch.Enroll.Ends.{is_out_of_fuel, read_token_file-Never, write_all-Concludes}
use ota_fetch.Enroll.Url.{derive_enroll_url-join}
use ota_fetch.Enroll.Response.{IsResponse, parse_enroll_response-IsResponse}
use ota_fetch.Enroll.Enrolled.{
  AreApart, IsVacant, IsEnrolled, ota_fetch_enroll-IsEnrolled, ota_fetch_enroll-IsVacant_of_change,
}
use ota_fetch.Enroll.Left.{IsLeft, ota_fetch_enroll-IsLeft}
use ota_fetch.Tests.Lawful.{machine-IsLawful}
use ota_fetch.Tests.Site.{site, device, boot}
use ota_fetch.Tests.Posix.{posix, posix-IsPosix, posix-Progresses}
use ota_fetch.Tests.Bureau.{keygen, bureau, mistaken, notes, pen}
use ota_fetch.Tests.Enrolments.{
  enrolment, supplied, enrolled, half_enrolled, enrols, half_enrols, replaces, reads_token,
  collects, derives, answers,
}

lawful : IsLawful device
lawful = machine-IsLawful site (exited 0)

paths_apart : AreApart device (codes "key") (codes "crt") (codes "tok")
unfolding bytes_eq tmp_of
paths_apart = record {
  key_tmp = refl;
  key_cert = refl;
  key_cert_tmp = refl;
  key_token = refl;
  cert_tmp = refl;
  cert_key = refl;
  cert_key_tmp = refl;
  cert_token = refl;
  token_key = refl;
  token_key_tmp = refl;
  token_cert = refl;
  token_cert_tmp = refl;
}

ota_fetch_enroll-IsEnrolled_example :
    IsEnrolled device posix keygen bureau notes pen lawful posix-IsPosix enrolment
      (codes "tok")
      (codes "key")
      (codes "crt")
      (boot supplied)
      (boot enrolled)
ota_fetch_enroll-IsEnrolled_example =
    ota_fetch_enroll-IsEnrolled device posix keygen bureau notes pen lawful posix-IsPosix 9
      enrolment (codes "tok") (codes "key") (codes "crt") false (boot supplied) refl refl
      paths_apart enrols

ota_fetch_enroll-IsLeft_example :
    IsLeft device posix keygen mistaken notes pen enrolment
      (codes "tok")
      (codes "key")
      (codes "crt")
      (boot supplied)
      (boot half_enrolled)
ota_fetch_enroll-IsLeft_example =
    ota_fetch_enroll-IsLeft device posix keygen mistaken notes pen lawful posix-IsPosix 9 enrolment
      (codes "tok") (codes "key") (codes "crt") false (boot supplied) (boot half_enrolled) refl refl
      paths_apart half_enrols

changed : ¬ (enrolled ≡ supplied)
changed e = cc

ota_fetch_enroll-IsVacant_of_change_example :
    IsVacant device (codes "key") (codes "crt") (boot supplied)
ota_fetch_enroll-IsVacant_of_change_example =
    ota_fetch_enroll-IsVacant_of_change device posix keygen bureau notes pen 9 enrolment
      (codes "tok") (codes "key") (codes "crt") (boot supplied) (boot enrolled) refl refl enrols
      changed

key_apart : bytes_eq (codes "key") (tmp_of (codes "key")) ≡ false
unfolding bytes_eq tmp_of
key_apart = refl

write_file_atomic-OldOrNew_example :
    OldOrNew device
      (codes "key")
      (codes "Key2")
      (boot half_enrolled)
      (write_file_atomic device posix 2 (codes "key") (codes "Key2") 0o600 (boot half_enrolled)).1
write_file_atomic-OldOrNew_example =
    write_file_atomic-OldOrNew device lawful posix posix-IsPosix (codes "key") key_apart 2
      (codes "Key2") 0o600 (boot half_enrolled)

write_file_atomic-IsWritten_example :
    IsWritten device lawful posix posix-IsPosix
      (codes "key")
      (codes "Key2")
      0o600
      (boot ((codes "key", codes "Key2") ∷ supplied))
write_file_atomic-IsWritten_example =
    write_file_atomic-IsWritten device lawful posix posix-IsPosix 2 (codes "key") (codes "Key2")
      0o600 (boot half_enrolled) replaces

read_token_file-IsTokenOf_example :
    IsTokenOf device lawful posix posix-IsPosix (codes "tok") (codes "s") (boot supplied)
read_token_file-IsTokenOf_example =
    read_token_file-IsTokenOf device lawful posix posix-IsPosix (codes "tok") (boot supplied)
      reads_token

read_chars-HasRoom_example : HasRoom (record { chars = codes " s\n"; cap = 256 })
read_chars-HasRoom_example =
    read_chars-HasRoom device posix posix-IsPosix 4 (codes " s\n") empty_buffer (boot supplied)
      empty_buffer-HasRoom (omega arith) collects

read_token_file-Never_example : Never is_out_of_fuel (read_token_file device posix (codes "tok"))
read_token_file-Never_example = read_token_file-Never device posix posix-IsPosix (codes "tok")

write_all-Concludes_example :
    (write_all device posix 9 (codes "key") (codes "Key") (boot supplied)).0 ≢ err out_of_fuel
write_all-Concludes_example =
    write_all-Concludes device posix (λ o. 0) posix-Progresses 9 (codes "key") (codes "Key")
      (boot supplied) (omega arith)

derive_enroll_url-join_example : codes "u/enroll" ≡ join (drop_slash (codes "u/")) (codes "enroll")
derive_enroll_url-join_example =
    derive_enroll_url-join device (codes "u/") (codes "u/enroll") (boot supplied) derives

parse_enroll_response-IsResponse_example : IsResponse device notes (codes "{crt}") (codes "crt\nca")
parse_enroll_response-IsResponse_example =
    parse_enroll_response-IsResponse device notes (codes "{crt}") (boot supplied) answers
