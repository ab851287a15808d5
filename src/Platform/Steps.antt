-- ===== src/Platform/Steps.antt =====
-- Relations between the state before a function and the state after it, whether it succeeds or
-- returns an error: one rule for each way to build a function, for `search`.
use ota_fetch.Base.{◌≡◌, refl, ap, ◌∙◌, Bytes, Bool, true, false, Option, none, some, if◌then◌else◌}
use ota_fetch.Base.{Exec, Result, ok, err, pure, raise, try, check, ◌>>=◌}
use ota_fetch.Platform.Defs.{Platform, State, ask, act}
use ota_fetch.Platform.Inversion.{or_raise}

pub record Preorder (S : Type 0) : Type 1 where
  pub rel : S → S → Type 0
  pub rel_refl : (s : S) → rel s s
  pub rel_trans : (s t u : S) → rel s t → rel t u → rel s u

pub record Steps {S E A : Type 0} (r : Preorder S) (m : Exec S E A) : Type 0 where
  pub at : (s : S) → r.rel s (m s).1

module _ {S E A : Type 0} {r : Preorder S} where
  pub Steps-pure : (a : A) → Steps r (pure {E = E} a)
  unfolding pure
  Steps-pure a = record { at = λ s. r.rel_refl s }

  pub Steps-raise : (e : E) → Steps r (raise {A = A} e)
  unfolding raise
  Steps-raise e = record { at = λ s. r.rel_refl s }

  pub Steps-if :
      (b : Bool) (m n : Exec S E A) → Steps r m → Steps r n → Steps r (if b then m else n)
  Steps-if true m n hm hn = hm
  Steps-if false m n hm hn = hn

pub Steps-check : {S E : Type 0} {r : Preorder S} (b : Bool) (e : E) → Steps r (check {S = S} b e)
unfolding check
Steps-check {r} true e = record { at = λ s. r.rel_refl s }
Steps-check {r} false e = record { at = λ s. r.rel_refl s }

pub Steps-try :
    {S E F A : Type 0} {r : Preorder S} (m : Exec S E A) → Steps r m → Steps r (try {F = F} m)
unfolding try
Steps-try m h = record { at = h.at }

module _ {S E A B : Type 0} {r : Preorder S} where
  pub Steps-bind :
      (m : Exec S E A) (f : A → Exec S E B)
      → Steps r m
      → ((a : A) → Steps r (f a))
      → Steps r (m >>= f)
  unfolding ◌>>=◌
  Steps-bind m f hm hf = record { at = λ s. go s (m s) refl }
    where
      go : (s : S) (p : Result E A × S) → m s ≡ p → r.rel s ((m >>= f) s).1
      go s (ok a, t) e = rw e (r.rel_trans s t _ (rw e at (hm.at s)) ((hf a).at t))
      go s (err x, t) e = rw e (rw e at (hm.at s))

pub Steps-or_raise :
    {S E A : Type 0} {r : Preorder S} (e : E) (o : Option A) → Steps r (or_raise {S = S} e o)
Steps-or_raise e none = Steps-raise e
Steps-or_raise e (some a) = Steps-pure a

pub ruleset step_rules =
    (Steps-pure, Steps-raise, Steps-if, Steps-check, Steps-or_raise, Steps-try, Steps-bind)

module _ (P : Platform) where
  -- The file at the path `q` keeps its contents.
  abbrev pub keeps_file : Bytes → Preorder (State P)
  keeps_file q = record {
    rel = λ s t. P.file t.world q ≡ P.file s.world q;
    rel_refl = λ s. refl;
    rel_trans = λ s t u h k. k ∙ h;
  }

  -- Nothing is installed, the system is not rebooted, and nothing waits.
  abbrev pub quiet : Preorder (State P)
  quiet = record {
    rel = λ s t. t.trace ≡ s.trace;
    rel_refl = λ s. refl;
    rel_trans = λ s t u h k. k ∙ h;
  }

  -- No file changes and nothing is installed, rebooted or waited for: only the oracle moves on.
  abbrev pub only_reads : Preorder (State P)
  only_reads = record {
    rel = λ s t. (t.world ≡ s.world) × (t.trace ≡ s.trace);
    rel_refl = λ s. (refl, refl);
    rel_trans = λ s t u h k. (k.0 ∙ h.0, k.1 ∙ h.1);
  }

  module _ {E A : Type 0} where
    pub ask-only_reads :
        (f : P.World → P.Oracle → A × P.Oracle) → Steps only_reads (ask P {E = E} f)
    unfolding ask
    ask-only_reads f = record { at = λ s. (refl, refl) }

    pub ask-keeps_file :
        (q : Bytes) (f : P.World → P.Oracle → A × P.Oracle) → Steps (keeps_file q) (ask P {E = E} f)
    unfolding ask
    ask-keeps_file q f = record { at = λ s. refl }

    pub act-keeps_file :
        (q : Bytes) (f : P.World → P.Oracle → A × P.World × P.Oracle)
        → ((w : P.World) (o : P.Oracle) → P.file (f w o).1 q ≡ P.file w q)
        → Steps (keeps_file q) (act P {E = E} f)
    unfolding act
    act-keeps_file q f h = record { at = λ s. h s.world s.oracle }

    pub ask-quiet : (f : P.World → P.Oracle → A × P.Oracle) → Steps quiet (ask P {E = E} f)
    unfolding ask
    ask-quiet f = record { at = λ s. refl }

    pub act-quiet :
        (f : P.World → P.Oracle → A × P.World × P.Oracle) → Steps quiet (act P {E = E} f)
    unfolding act
    act-quiet f = record { at = λ s. refl }

pub ruleset read_rules = (step_rules, ask-only_reads)

pub ruleset quiet_rules = (step_rules, ask-quiet, act-quiet)

-- The relation at the outcome that a run is known to have.
pub Steps-after :
    {S E A : Type 0} (r : Preorder S) (m : Exec S E A) {s t : S} {x : Result E A}
    → Steps r m
    → m s ≡ (x, t)
    → r.rel s t
Steps-after r m {s} h e = rw e at (h.at s)

module _ (P : Platform) {E A : Type 0} {m : Exec (State P) E A} where
  pub only_reads-quiet : Steps (only_reads P) m → Steps (quiet P) m
  only_reads-quiet h = record { at = λ s. (h.at s).1 }

  pub only_reads-keeps_file : (q : Bytes) → Steps (only_reads P) m → Steps (keeps_file P q) m
  only_reads-keeps_file q h = record { at = λ s. ap (λ w. P.file w q) (h.at s).0 }

-- A sequence that breaks a relation, whose first step keeps it, has got past its first step.
pub broken-bind :
    {S E A B R : Type 0} (r : Preorder S) (m : Exec S E A) (f : A → Exec S E B) {s s' : S}
    {x : Result E B}
    → Steps r m
    → (m >>= f) s ≡ (x, s')
    → ¬ (r.rel s s')
    → ((a : A) (t : S) → m s ≡ (ok a, t) → f a t ≡ (x, s') → ¬ (r.rel t s') → R)
    → R
unfolding ◌>>=◌
broken-bind {S} {E} {A} {R} r m f {s} {s'} {x} h e bad k = go (m s) refl
  where
    go : (p : Result E A × S) → m s ≡ p → R
    go (ok a, t) q = k a t q (rw q at e) (λ kept. bad (r.rel_trans s t s' (rw q at (h.at s)) kept))
    go (err y, t) q = let same : t ≡ s' = cc in absurd (bad (rw (← same) (rw q at (h.at s))))
