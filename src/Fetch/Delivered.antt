-- ===== src/Fetch/Delivered.antt =====
-- What `fetch_file` leaves at the destination: the old file after an error, and otherwise the whole
-- of what a successful transfer wrote.
use ota_fetch.Base.{
  ◌≡◌, refl, ◌∙◌, ap, arith, Bytes, true, false, Bool, Exec, Result, ok, err, pure, raise, check,
  try, ◌>>=◌, ℤ, ◌+◌, ◌≤◌, ◌<◌, length, some,
}
use ota_fetch.Platform.{Platform, IsLawful, State, Request, Transfer, act}
use ota_fetch.Platform.Steps.{Steps-after, Steps-check, keeps_file}
use ota_fetch.Platform.Footprint.{keeps_file-Tolerates}
use ota_fetch.Platform.Failing.{check-err, OnError, OnError-bind}
use ota_fetch.Platform.Inversion.{
  asked, acted, act-ok, ask-check-ok, check-ok, check_last-ok, bind-ok, try-ok,
}
use ota_fetch.Config.{Config}
use ota_fetch.Fetch.Paths.{ensure_parent_dir_exists}
use ota_fetch.Fetch.Download.{request_of, tmp_of, succeeded, download, cleanup, fetch_file}
use ota_fetch.Fetch.FilesTouched.{ensure_parent_dir_exists-Steps, cleanup-Steps}

module _ (P : Platform) (L : IsLawful P) where
  module _ (tmp_path dest_path : Bytes) where
    rename-OnError :
        OnError
          (keeps_file P dest_path)
          (act P {E = Bool} (P.rename tmp_path dest_path) >>= λ moved. check moved false)
    unfolding act ◌>>=◌
    rename-OnError = record {
      at = λ s t e h.
          let (stays, same) =
            check-err (P.rename tmp_path dest_path s.world s.oracle).0 false
              (acted P (P.rename tmp_path dest_path) s) h in
          rw (← same) (L.rename_fails tmp_path dest_path s.world s.oracle dest_path stays);
    }

    download-OnError :
        (request : Request)
        → P.same dest_path tmp_path ≡ false
        → OnError (keeps_file P dest_path) (download P request tmp_path dest_path)
    unfolding download
    download-OnError request away =
        let T = keeps_file-Tolerates P L dest_path in
        OnError-bind _ _ (T.fopen_wb_ok Bool tmp_path away) λ opened.
          OnError-bind _ _ (Steps-check opened false) λ _.
            OnError-bind _ _ (T.ask_ok Bool Bool _) λ curl.
              OnError-bind _ _ (Steps-check curl true) λ _.
                OnError-bind _ _ (T.perform_ok Bool request tmp_path away) λ answer.
                  OnError-bind _ _ (Steps-check (succeeded answer) true) λ _.
                    OnError-bind _ _ (T.fflush_ok Bool tmp_path away) λ flushed.
                      OnError-bind _ _ (Steps-check flushed true) λ _.
                        OnError-bind _ _ (T.fclose_ok Bool tmp_path away)
                          λ closed. OnError-bind _ _ (Steps-check closed false) λ _. rename-OnError

  cleaned-OnError :
      (tmp_path dest_path : Bytes) (m : Exec (State P) Bool (Unit {0}))
      → P.same dest_path tmp_path ≡ false
      → OnError (keeps_file P dest_path) m
      → OnError (keeps_file P dest_path) (try m >>= cleanup P tmp_path)
  unfolding try ◌>>=◌ cleanup pure
  cleaned-OnError tmp_path dest_path m away h = record { at = λ s t e k. go s t e (m s) refl k }
    where
      go :
          (s t : State P) (e : ℤ) (p : Result Bool (Unit {0}) × State P)
          → m s ≡ p
          → cleanup P tmp_path p.0 p.1 ≡ (err e, t)
          → P.file t.world dest_path ≡ P.file s.world dest_path
      go s t e (ok u, v) q k = absurd (cc)
      go s t e (err open_file, v) q k =
          Steps-after (keeps_file P dest_path) _
            (cleanup-Steps (keeps_file-Tolerates P L dest_path) tmp_path (err open_file) away) k
          ∙ h.at s v open_file q

  -- A download that fails leaves the destination as it was, unless the name of the temporary file is
  -- another name of the destination.
  pub fetch_file-keeps_dest :
      (url dest_path : Bytes) (cfg : Config) (progress : Bool) (s : State P) {e : ℤ} {t : State P}
      → P.same dest_path (tmp_of dest_path) ≡ false
      → fetch_file P url dest_path cfg progress s ≡ (err e, t)
      → P.file t.world dest_path ≡ P.file s.world dest_path
  unfolding fetch_file
  fetch_file-keeps_dest url dest_path cfg progress s {e} {t} away h =
      let T = keeps_file-Tolerates P L dest_path in
      let m = OnError-bind _ _ (ensure_parent_dir_exists-Steps T (some dest_path)) λ _.
        OnError-bind _ _ (T.ask_ok ℤ Bool _) λ got. OnError-bind _ _ (Steps-check got _) λ _.
          cleaned-OnError (tmp_of dest_path) dest_path _ away
            (download-OnError (tmp_of dest_path) dest_path (request_of url cfg progress) away) in
      m.at s t e h

module _ (P : Platform) (request : Request) (dest_path : Bytes) (s : State P) where
  -- The states of a download from `s`: when libcurl is called, when it has answered, when the
  -- temporary file is flushed, and when it is closed.
  abbrev pub ready : State P
  ready =
      asked P (λ w. P.curl_easy_init)
        (acted P (P.fopen_wb (tmp_of dest_path)) (
          asked P (λ w. P.malloc (length dest_path + 5))
            (ensure_parent_dir_exists P (some dest_path) s).1))

  abbrev pub transferred : State P
  transferred = acted P (P.curl_easy_perform request (tmp_of dest_path)) ready

  abbrev pub flushed_at : State P
  flushed_at = acted P (P.fflush (tmp_of dest_path)) transferred

  abbrev pub closed_at : State P
  closed_at = acted P (P.fclose (tmp_of dest_path)) flushed_at

  -- libcurl reported success with a 2xx code, the temporary file was flushed and closed without an
  -- error, and what it then held is at the destination in `t`.
  pub record IsDelivered (t : State P) : Type 0 where
    pub curle_ok :
        (P.curl_easy_perform request (tmp_of dest_path) ready.world ready.oracle).0.curle_ok ≡ true
    pub http_ge :
        200 ≤ (P.curl_easy_perform request (tmp_of dest_path) ready.world ready.oracle).0.http_code
    pub http_lt :
        (P.curl_easy_perform request (tmp_of dest_path) ready.world ready.oracle).0.http_code < 300
    pub flushed : (P.fflush (tmp_of dest_path) transferred.world transferred.oracle).0 ≡ true
    pub closed : (P.fclose (tmp_of dest_path) flushed_at.world flushed_at.oracle).0 ≡ true
    pub moved : P.file t.world dest_path ≡ P.file closed_at.world (tmp_of dest_path)

succeeded-range :
    (a : Transfer)
    → succeeded a ≡ true
    → (a.curle_ok ≡ true) × (200 ≤ a.http_code) × (a.http_code < 300)
unfolding succeeded
succeeded-range a h = ground arith

module _ (P : Platform) (L : IsLawful P) where
  cleanup-ok :
      (tmp_path : Bytes) (x : Result Bool (Unit {0})) (s : State P) {u : Unit {0}} {t : State P}
      → cleanup P tmp_path x s ≡ (ok u, t)
      → (x ≡ ok tt) × (s ≡ t)
  unfolding cleanup pure raise act ◌>>=◌
  cleanup-ok tmp_path (ok u) s h = (refl, cc)
  cleanup-ok tmp_path (err true) s h = absurd (cc)
  cleanup-ok tmp_path (err false) s h = absurd (cc)

  -- A download that succeeds has put in place the whole file that libcurl wrote: the transfer ended
  -- with a 2xx code, the file was flushed and closed without an error, and the destination holds what
  -- the temporary file held then.
  pub fetch_file-IsDelivered :
      (url dest_path : Bytes) (cfg : Config) (progress : Bool) (s : State P) {u : Unit {0}}
      {t : State P}
      → fetch_file P url dest_path cfg progress s ≡ (ok u, t)
      → IsDelivered P (request_of url cfg progress) dest_path s t
  unfolding fetch_file download
  fetch_file-IsDelivered url dest_path cfg progress s {u} {t} h = bind-ok _ _ _ h λ _ s₁ e₁ h₁.
      ask-check-ok P _ _ _ _ h₁ λ _ h₂. try-ok _ _ _ h₂ λ x s₂ e₂ h₃.
        let (is_ok, same) = cleanup-ok (tmp_of dest_path) x s₂ h₃ in
        let d : download P (request_of url cfg progress) (tmp_of dest_path) dest_path (
              asked P (λ w. P.malloc (length dest_path + 5))
                (ensure_parent_dir_exists P (some dest_path) s).1)
            ≡ (ok tt, t) =
          ap
            (λ v.
              download P (request_of url cfg progress) (tmp_of dest_path) dest_path
                (asked P (λ w. P.malloc (length dest_path + 5)) v))
            (ap (λ p. p.1) e₁)
          ∙ e₂
          ∙ ap (λ y. (y, s₂)) is_ok
          ∙ ap (λ v. (ok tt, v)) same in
        act-ok P _ _ _ d λ d₁. check-ok _ _ _ _ d₁ λ _ d₂. ask-check-ok P _ _ _ _ d₂ λ _ d₃.
          act-ok P _ _ _ d₃ λ d₄. check-ok _ _ _ _ d₄ λ good d₅. act-ok P _ _ _ d₅ λ d₆.
            check-ok _ _ _ _ d₆ λ flushed d₇. act-ok P _ _ _ d₇ λ d₈.
              check-ok _ _ _ _ d₈ λ closed d₉. act-ok P _ _ _ d₉ λ d₁₀.
                check_last-ok _ _ _ d₁₀ λ moved at_end.
                  let (curle_ok, ge, lt) = succeeded-range _ good in
                  record {
                    curle_ok = curle_ok;
                    http_ge = ge;
                    http_lt = lt;
                    flushed = flushed;
                    closed = closed;
                    moved = rw (← at_end) (L.rename_moves (tmp_of dest_path) dest_path _ _ moved);
                  }
