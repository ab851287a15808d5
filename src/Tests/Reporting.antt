-- ===== src/Tests/Reporting.antt =====
-- The theorems on the progress of a download, on the daemon and on the command line at concrete data.
use ota_fetch.Base.{
  ℕ, ◌+◌, ◌≤◌, ◌≡◌, refl, bytes_eq, codes, pos, some, false, true, [], ◌∷◌, ok, pure, raise, try,
  check, ◌>>=◌, arith,
}
use ota_fetch.Platform.{State, exited, installing, rebooted, slept, ask, act, event}
use ota_fetch.Platform.Steps.{only_reads}
use ota_fetch.Hash.Hex.{hex_text, hex_digit}
use ota_fetch.Manifest.Load.{manifest_load}
use ota_fetch.Verify.Defs.{read_signature_file}
use ota_fetch.Fetch.Run.{fetch_interval_sec, ota_fetch_run, update_check}
use ota_fetch.Fetch.Daemon.{Serves, stops, ota_fetch_run-Serves, ota_fetch_run-Serves_of_return}
use ota_fetch.Fetch.History.{History, ota_fetch_run-History}
use ota_fetch.Tests.Lawful.{machine-IsLawful}
use ota_fetch.Tests.Keys.{keys-IsSound}
use ota_fetch.Progress.Defs.{
  DownloadProgress, download_progress_init, download_progress_percent, download_progress_callback,
}
use ota_fetch.Progress.Percent.{IsPercent, download_progress_percent-IsPercent}
use ota_fetch.Progress.Lines.{begun, reported, Reports-at_most}
use ota_fetch.Progress.Spaced.{begun as started, silent, rendered, Renders-AreSpaced}
use ota_fetch.Cli.Args.{token_file}
use ota_fetch.Cli.Main.{Getopt, main}
use ota_fetch.Cli.Dispatch.{IsRun, main-IsRun_of_change}
use ota_fetch.Tests.Machine.{Files, lookup, erase}
use ota_fetch.Tests.Site.{site, device, libcrypto, cjson, config, boot}
use ota_fetch.Tests.Posix.{posix}
use ota_fetch.Tests.Bureau.{keygen, bureau, notes, pen}
use ota_fetch.Tests.Enrolments.{supplied}
use ota_fetch.Tests.Runs.{fresh, updated, ini}

-- A report of 15 of 100 bytes.
abbrev first_line : DownloadProgress
first_line = record (download_progress_init 7) {
  total = 100;
  transferred = 15;
  last_non_tty_percent_milestone = some 10;
}

reports :
    download_progress_callback true false 8 (pos 100) (pos 15) (download_progress_init 7)
    ≡ (first_line, true)
unfolding download_progress_callback
reports = refl

Reports-at_most_example : 1 ≤ 9
Reports-at_most_example =
    Reports-at_most 100 first_line 1 (omega arith) (omega arith)
      (reported (download_progress_init 7) 0 8 15 first_line true (begun 7) (omega arith) reports)

download_progress_percent-IsPercent_example :
    (percent : ℕ) × (download_progress_percent 15 40 ≡ some percent) × IsPercent 15 40 percent
download_progress_percent-IsPercent_example =
    download_progress_percent-IsPercent 15 40 (omega arith) (omega arith)

-- On a terminal, reports of 10, 12 and 15 of 100 bytes, at 1000, 1100 and 1300 ms.
abbrev at_10 : DownloadProgress
at_10 = record (download_progress_init 7) {
  total = 100;
  transferred = 10;
  last_emit_ms = some 1000;
  last_percent = some 10;
}

abbrev at_12 : DownloadProgress
at_12 = record at_10 { transferred = 12 }

abbrev at_15 : DownloadProgress
at_15 = record at_10 { transferred = 15; last_emit_ms = some 1300; last_percent = some 15 }

renders_10 :
    download_progress_callback true true 1000 (pos 100) (pos 10) (download_progress_init 7)
    ≡ (at_10, true)
unfolding download_progress_callback
renders_10 = refl

waits_12 : download_progress_callback true true 1100 (pos 100) (pos 12) at_10 ≡ (at_12, false)
unfolding download_progress_callback
waits_12 = refl

renders_15 : download_progress_callback true true 1300 (pos 100) (pos 15) at_12 ≡ (at_15, true)
unfolding download_progress_callback
renders_15 = refl

Renders-AreSpaced_example : (1000 + 200 ≤ 1300) × Unit {0}
Renders-AreSpaced_example = Renders-AreSpaced at_15 (1300 ∷ 1000 ∷ []) (
    rendered at_12 (1000 ∷ []) true 1300 (pos 100) (pos 15) at_15
      (silent at_10 (1000 ∷ []) true 1100 (pos 100) (pos 12) at_12
        (rendered (download_progress_init 7) [] true 1000 (pos 100) (pos 10) at_10 (started 7)
          renders_10)
        waits_12)
      renders_15)

-- A daemon that updates the device and is told to stop in the pause behind that.
abbrev stopped : State device
stopped = record {
  world = updated;
  oracle = [];
  trace = installing (codes "i/b") ∷ rebooted ∷ slept 3600 ∷ [];
}

serves : Serves device libcrypto cjson config 1 (boot fresh) stopped
unfolding update_check fetch_interval_sec bytes_eq lookup erase pure raise try check ◌>>=◌ ask act
    event hex_text hex_digit read_signature_file manifest_load
serves = stops (boot fresh) refl

runs :
    ota_fetch_run device libcrypto cjson 1 true config (boot fresh) ≡ (ok (some (pos 0)), stopped)
unfolding ota_fetch_run bytes_eq lookup erase pure raise try check ◌>>=◌ ask act event hex_text
    hex_digit read_signature_file manifest_load
runs = refl

ota_fetch_run-Serves_example :
    ota_fetch_run device libcrypto cjson 1 true config (boot fresh) ≡ (ok (some (pos 0)), stopped)
ota_fetch_run-Serves_example =
    ota_fetch_run-Serves device libcrypto cjson config 1 1 (boot fresh) stopped serves (omega arith)

ota_fetch_run-Serves_of_return_example :
    (pos 0 ≡ pos 0)
    × ((n : ℕ) × (n ≤ 1) × Serves device libcrypto cjson config n (boot fresh) stopped)
ota_fetch_run-Serves_of_return_example =
    ota_fetch_run-Serves_of_return device libcrypto cjson config 1 (boot fresh) stopped (pos 0) runs

ota_fetch_run-History_example :
    History device libcrypto cjson config
      (boot fresh)
      (ota_fetch_run device libcrypto cjson 1 true config (boot fresh)).1
ota_fetch_run-History_example =
    ota_fetch_run-History device libcrypto cjson config (machine-IsLawful site (exited 0))
      (keys-IsSound site (exited 0)) 1 true (boot fresh)

abbrev getopt : Getopt
getopt = record { fetch_opts = λ argv. []; enroll_opts = λ argv. token_file (codes "tok") ∷ [] }

abbrev enrolled_once : Files
enrolled_once = (codes "t", codes "crt\nca") ∷ []

enrols_once :
    main device libcrypto ini posix keygen bureau notes pen getopt 9
      (codes "enroll" ∷ [])
      (boot supplied)
    ≡ (ok (some (pos 0)), boot enrolled_once)
unfolding main bytes_eq lookup erase pure raise try check ◌>>=◌ ask act
enrols_once = refl

changed : ¬ ((only_reads device).rel (boot supplied) (boot enrolled_once))
changed (same, quiet) = let gone : enrolled_once ≡ supplied = same in absurd (cc)

main-IsRun_of_change_example :
    IsRun device libcrypto ini posix keygen bureau notes pen getopt 9
      (codes "enroll" ∷ [])
      (boot supplied)
      (ok (some (pos 0)))
      (boot enrolled_once)
main-IsRun_of_change_example =
    main-IsRun_of_change device libcrypto ini posix keygen bureau notes pen getopt 9
      (codes "enroll" ∷ []) (boot supplied) enrols_once changed
