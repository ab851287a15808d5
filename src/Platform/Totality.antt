-- ===== src/Platform/Totality.antt =====
-- Errors that a function never returns, by one rule for each way to build it, for `search`.
use ota_fetch.Base.{◌≡◌, refl, Bool, true, false, Option, none, some, if◌then◌else◌, arith}
use ota_fetch.Base.{Exec, Result, ok, err, pure, raise, try, check, ◌>>=◌}
use ota_fetch.Platform.Defs.{Platform, ask, act}
use ota_fetch.Platform.Inversion.{or_raise}

-- No error that `m` returns satisfies the test.
pub record Never {S E A : Type 0} (bad : E → Bool) (m : Exec S E A) : Type 0 where
  pub at : (s : S) (e : E) → (m s).0 ≡ err e → bad e ≡ false

module _ {S E A : Type 0} {bad : E → Bool} where
  pub Never-pure : (a : A) → Never bad (pure {S = S} a)
  unfolding pure
  Never-pure a = record { at = λ s e h. cc }

  pub Never-raise : (e : E) → bad e ≡ false → Never bad (raise {S = S} {A = A} e)
  unfolding raise
  Never-raise e fine = record { at = λ s x h. let same : e ≡ x = cc in rw (← same) fine }

  pub Never-if :
      (b : Bool) (m n : Exec S E A) → Never bad m → Never bad n → Never bad (if b then m else n)
  Never-if true m n hm hn = hm
  Never-if false m n hm hn = hn

  pub Never-or_raise : (e : E) (o : Option A) → bad e ≡ false → Never bad (or_raise {S = S} e o)
  Never-or_raise e none fine = Never-raise e fine
  Never-or_raise e (some a) fine = Never-pure a

pub Never-check :
    {S E : Type 0} {bad : E → Bool} (b : Bool) (e : E)
    → bad e ≡ false
    → Never bad (check {S = S} b e)
unfolding check
Never-check true e fine = Never-pure tt
Never-check false e fine = Never-raise e fine

pub Never-try : {S E F A : Type 0} {bad : F → Bool} (m : Exec S E A) → Never bad (try {F = F} m)
unfolding try
Never-try m = record { at = λ s e h. cc }

module _ {S E A B : Type 0} {bad : E → Bool} where
  pub Never-bind :
      (m : Exec S E A) (f : A → Exec S E B)
      → Never bad m
      → ((a : A) → Never bad (f a))
      → Never bad (m >>= f)
  unfolding ◌>>=◌
  Never-bind m f hm hf = record { at = λ s e h. go s (m s) refl e h }
    where
      go :
          (s : S) (p : Result E A × S) → m s ≡ p → (e : E) → ((m >>= f) s).0 ≡ err e → bad e ≡ false
      go s (ok a, t) q e h = (hf a).at t e (rw (q, ◌>>=◌) at h)
      go s (err x, t) q e h = hm.at s e (ground arith)

module _ (P : Platform) {E A : Type 0} {bad : E → Bool} where
  pub Never-ask : (f : P.World → P.Oracle → A × P.Oracle) → Never bad (ask P f)
  unfolding ask
  Never-ask f = record { at = λ s e h. cc }

  pub Never-act : (f : P.World → P.Oracle → A × P.World × P.Oracle) → Never bad (act P f)
  unfolding act
  Never-act f = record { at = λ s e h. cc }

pub ruleset never_rules = (
  refl, Never-pure, Never-raise, Never-if, Never-or_raise, Never-check, Never-try, Never-bind,
  Never-ask, Never-act,
)
