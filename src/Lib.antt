-- ===== src/Lib.antt =====
-- ota-fetch: an updater that fetches a signed manifest from a server, verifies it, fetches the
-- payload that it names, checks the payload's digest, hands it to RAUC and reboots.
--
-- The parts and how they interact. `ota_fetch_run` (src/ota_fetch.c) repeats an update check: it
-- builds a context, clears the inbox directory, downloads the manifest, its signature and the
-- signer's certificate, has them verified by `verify_signature_with_cert`
-- (src/verify_libcrypto.c), compares the new manifest with the current one, loads it
-- (src/manifest.c), downloads the payload of the selected release, checks it with `sha256sum_file`
-- and `hex_encode` (src/hash.c), and applies it. `ota_fetch_enroll` (src/enroll.c) gives a device
-- its identity: it reads a token, makes a key and a certificate signing request, posts that with
-- the token, takes the certificate from the answer, writes the key and the certificate, each by
-- way of a temporary file, and removes the token. `main` (src/main.c) reads the command line,
-- loads the configuration and runs one of the two.
--
-- Base has the shared types: texts and file contents are lists of bytes, and a function with
-- effects is a function from a state to a result and a state, so what was done before an error
-- stays done. Platform has the operating system and libcurl as a record of calls with their
-- documented behaviour (`Platform`, `IsLawful`), and in the same way libcrypto (`Crypto`,
-- `IsSound`) and cJSON (`Cjson`); for enrolment, descriptors (`Posix`, `IsPosix`), the making of
-- keys (`Keygen`, `IsKeygen`), a POST (`Http`, `IsAppending`) and the printing of JSON (`CjsonPrint`,
-- `IsPrinting`). A state is the platform's world (its files), an oracle from which every answer
-- may depend that the program cannot know, and the trace of installations, reboots and pauses.
-- Platform/Steps, Footprint, Failing, Totality, Inversion and Onward hold the rules for the
-- relations that functions keep. Config has src/config.c, with the INI parser as a parameter. Hash
-- has src/hash.c, Manifest has src/manifest.c, Verify has src/verify_libcrypto.c and Fetch has
-- src/ota_fetch.c: Paths, Download, Context, Stages, Apply and Run hold the functions, under their
-- names in the source; the files beside them hold the proofs. Enroll has src/enroll.c in the same
-- way: Paths, Write, Keys, Token, Request and Run. Progress has the progress of downloads, of
-- src/ota_fetch.c and src/log.c; Log has the log lines and the progress line of src/log.c, and a
-- terminal that shows them. Cli has src/main.c. Tests has a concrete machine, libcrypto and site,
-- runs of the whole program on them, and the theorems at concrete data.
--
-- Fuel. The read loops of `sha256sum_file` and of `verify_rsa_ecdsa_signature` run on one round
-- more than the file has bytes, and end of fuel is an error of its own; so does the loop over
-- `fgetc` of `read_token_file`. The loop over `write` of `write_all` takes its rounds as an
-- argument: one for each byte and each interrupted call is enough. The loop of `ota_fetch_run`
-- takes its rounds as an argument, and `none` says that it would still run.
--
-- Not modelled: which log lines and error texts the functions write, the text of a progress line,
-- the release of memory, the options of libcurl that never vary, `errno` beyond the cases that the
-- code tells apart. The INI parser (src/ini.c) is a library that the sources carry. The log file
-- of src/log.c, a write to stderr that fails and `getopt_long` are outside the model. The log
-- level of a fetch is INFO or DEBUG, as `main` sets it, so `log_progress_enabled` holds there.
-- Allocation can fail wherever the source tests it.
pub mod Base
pub mod Platform
pub mod Config
pub mod Hash
pub mod Manifest
pub mod Verify
pub mod Fetch
pub mod Enroll
pub mod Progress
pub mod Log
pub mod Cli
pub mod Tests
