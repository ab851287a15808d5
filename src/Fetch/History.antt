-- ===== src/Fetch/History.antt =====
-- Whole runs of `ota_fetch_run` of src/ota_fetch.c: the rounds that they are made of, and what each did.
use ota_fetch.Base.{and_true}
use ota_fetch.Base.{
  ℕ, zero, suc, ◌+◌, ◌≡◌, refl, sym, ap, ◌∙◌, ℤ, lt_int, Bool, true, false, Bool-cases, ◌==◌,
  ==_iff, ◌&&◌, bytes_eq, bytes_eq→eq, bytes_eq_refl, ◌⊎◌, inl, inr, Option, List, [], ◌∷◌, ◌++◌,
  Exec, Result, ok, err, pure, try, ◌>>=◌,
}
use ota_fetch.Platform.{
  Platform, IsLawful, State, ask, act, event, Event, installing, rebooted, slept, Crypto, IsSound,
  Cjson,
}
use ota_fetch.Platform.Inversion.{asked, acted}
use ota_fetch.Config.{Config}
use ota_fetch.Fetch.Run.{
  retry_delay, fetch_interval_sec, update_check, pause, unless_terminated, oneshot_end, run_loop,
  ota_fetch_run,
}
use ota_fetch.Fetch.Safety.{IsCleared, update_check-IsCleared}

abbrev same_event : Event → Event → Bool
same_event (installing p) (installing q) = bytes_eq p q
same_event rebooted rebooted = true
same_event (slept m) (slept n) = m == n
same_event _ _ = false

abbrev same_events : List Event → List Event → Bool
same_events [] [] = true
same_events (e ∷ es) (f ∷ fs) = same_event e f && same_events es fs
same_events _ _ = false

same_event_refl : (e : Event) → same_event e e ≡ true
same_event_refl (installing p) = bytes_eq_refl p
same_event_refl rebooted = refl
same_event_refl (slept n) = (==_iff n n).1 refl

same_events_refl : (es : List Event) → same_events es es ≡ true
same_events_refl [] = refl
same_events_refl (e ∷ es) = rw (same_event_refl e) (same_events_refl es)

same_event→eq : (e f : Event) → same_event e f ≡ true → e ≡ f
same_event→eq (installing p) (installing q) h = ap (λ s. installing s) (bytes_eq→eq p q h)
same_event→eq rebooted rebooted h = refl
same_event→eq (slept m) (slept n) h = ap (λ s. slept s) ((==_iff m n).0 h)
same_event→eq (installing p) rebooted h = absurd (cc)
same_event→eq (installing p) (slept n) h = absurd (cc)
same_event→eq rebooted (installing q) h = absurd (cc)
same_event→eq rebooted (slept n) h = absurd (cc)
same_event→eq (slept m) (installing q) h = absurd (cc)
same_event→eq (slept m) rebooted h = absurd (cc)

same_events→eq : (es fs : List Event) → same_events es fs ≡ true → es ≡ fs
same_events→eq [] [] h = refl
same_events→eq [] (f ∷ fs) h = absurd (cc)
same_events→eq (e ∷ es) [] h = absurd (cc)
same_events→eq (e ∷ es) (f ∷ fs) h =
    let (first, rest) = and_true (same_event e f) (same_events es fs) h in
    ap (λ g. g ∷ es) (same_event→eq e f first) ∙ ap (λ gs. f ∷ gs) (same_events→eq es fs rest)

module _ (P : Platform) (C : Crypto P) (J : Cjson P) (cfg : Config) where
  -- A round did nothing but look and fetch, or it was cleared to do more.
  abbrev pub Cleared : State P → Result ℤ (Unit {0}) → State P → Type 0
  Cleared s x t = (t.trace ≡ s.trace) ⊎ IsCleared P C J cfg s x t

  -- Between rounds, the program at most sleeps: the world is as it was, or as `sleep` leaves it, and so
  -- is the trace.
  abbrev pub Waits : State P → State P → Type 0
  Waits s t =
      ((t.world ≡ s.world) × (t.trace ≡ s.trace))
      ⊎ ((n : ℕ) × (t.world ≡ (P.sleep n s.world s.oracle).1) × (t.trace ≡ s.trace ++ slept n ∷ []))

  -- A run: rounds of checks, each cleared, with the program waiting between them.
  pub data History : State P → State P → Type 0 where
    over : (s : State P) → History s s
    round :
        (s s₁ s₂ t : State P) (x : Result ℤ (Unit {0}))
        → update_check P C J cfg s ≡ (x, s₁)
        → Cleared s x s₁
        → Waits s₁ s₂
        → History s₂ t
        → History s t

  module _ (L : IsLawful P) (D : IsSound C) where
    update_check-Cleared :
        (s : State P) → Cleared s (update_check P C J cfg s).0 (update_check P C J cfg s).1
    update_check-Cleared s =
        elim (Bool-cases (same_events (update_check P C J cfg s).1.trace s.trace)) [
          | inl same ↦ inl (same_events→eq _ _ same)
          | inr other ↦ inr (
              update_check-IsCleared P L C D J cfg s refl λ e.
                let clash : false ≡ true =
                  sym other ∙ ap (λ es. same_events es s.trace) e ∙ same_events_refl s.trace in
                absurd (cc))
        ]

    -- A first round, and what follows it.
    first_round :
        (s s₂ t : State P) → Waits (update_check P C J cfg s).1 s₂ → History s₂ t → History s t
    first_round s s₂ t = round s _ s₂ t _ refl (update_check-Cleared s)

    unless_terminated-History :
        (next : Exec (State P) ℤ (Option ℤ)) (n : ℕ) (s : State P)
        → ((t : State P) → History t (next t).1)
        → History
            (asked P
              (λ w. P.g_terminate)
              (acted P (P.sleep n) (record s { trace = s.trace ++ slept n ∷ [] })))
            ((pause P C J n >>= λ _. unless_terminated P C J next) s).1
    unfolding pause pure ◌>>=◌ event act ask
    unless_terminated-History next n s ih =
        elim (Bool-cases
          (P.g_terminate
            (acted P (P.sleep n) (record s { trace = s.trace ++ slept n ∷ [] })).oracle).0) [
              | inl told ↦ rw told (over _)
              | inr untold ↦ rw untold (ih _)
            ]

    oneshot_end-History :
        (attempt : ℕ) (s : State P) (x : Result ℤ (Unit {0})) (next : Exec (State P) ℤ (Option ℤ))
        → ((t : State P) → History t (next t).1)
        → History s (oneshot_end P C J cfg attempt x next (update_check P C J cfg s).1).1
    unfolding pure
    oneshot_end-History attempt s (ok u) next ih = first_round s _ _ (inl (refl, refl)) (over _)
    oneshot_end-History attempt s (err rc) next ih =
        elim (Bool-cases (lt_int attempt cfg.retry_attempts)) [
          | inl again ↦ rw again (
              first_round s _ _ (inr (retry_delay, refl, refl))
                (unless_terminated-History next retry_delay (update_check P C J cfg s).1 ih))
          | inr last ↦ rw last (first_round s _ _ (inl (refl, refl)) (over _))
        ]

    run_loop-History :
        (fuel : ℕ) (daemon_mode : Bool) (attempt : ℕ) (s : State P)
        → History s (run_loop P C J fuel daemon_mode cfg attempt s).1
    unfolding run_loop try ◌>>=◌ pure
    run_loop-History zero daemon_mode attempt s = over s
    run_loop-History (suc fuel) true attempt s =
        first_round s _ _ (inr (fetch_interval_sec cfg, refl, refl)) (
          unless_terminated-History (run_loop P C J fuel true cfg attempt) (fetch_interval_sec cfg)
            (update_check P C J cfg s).1 (run_loop-History fuel true attempt))
    run_loop-History (suc fuel) false attempt s =
        oneshot_end-History (attempt + 1) s (update_check P C J cfg s).0
          (run_loop P C J fuel false cfg (attempt + 1)) (run_loop-History fuel false (attempt + 1))

    -- A run in either mode, however long it goes on, is a sequence of checks between which the program
    -- at most calls `sleep` once, which alone may have changed the world, and adds that to the trace.
    -- Each of the checks leaves no trace, or it has verified the manifest against the
    -- configured authorities, and it acts on what was parsed from the verified bytes and on a payload
    -- whose SHA-256 is the one that is named there.
    pub ota_fetch_run-History :
        (fuel : ℕ) (daemon_mode : Bool) (s : State P)
        → History s (ota_fetch_run P C J fuel daemon_mode cfg s).1
    unfolding ota_fetch_run
    ota_fetch_run-History fuel daemon_mode s = run_loop-History fuel daemon_mode 0 s
