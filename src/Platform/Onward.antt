-- ===== src/Platform/Onward.antt =====
-- A relation between the first state of a run and its last, where a step keeps it only because of what
-- the steps before it found. Each rule hands that, and the equation for the rest of the run, to the
-- proof that goes on; a run that ends early has kept the relation so far.
use ota_fetch.Base.{
  ◌≡◌, refl, Bool, true, false, Exec, Result, ok, err, raise, pure, check, try, ◌>>=◌,
}
use ota_fetch.Platform.Defs.{Platform, State, act}
use ota_fetch.Platform.Steps.{Preorder, Steps}
use ota_fetch.Platform.Inversion.{acted}

module _ {S E B : Type 0} (r : Preorder S) {s s' : S} {x : Result E B} where
  pub onward-check :
      (b : Bool) (e : E) (g : Unit {0} → Exec S E B)
      → (check b e >>= g) s ≡ (x, s')
      → (b ≡ true → g tt s ≡ (x, s') → r.rel s s')
      → r.rel s s'
  unfolding check ◌>>=◌ pure raise
  onward-check true e g h k = k refl h
  onward-check false e g h k = let same : s ≡ s' = cc in rw (← same) (r.rel_refl s)

  module _ {A : Type 0} where
    pub onward-bind :
        (m : Exec S E A) (g : A → Exec S E B)
        → Steps r m
        → (m >>= g) s ≡ (x, s')
        → ((a : A) (t : S) → m s ≡ (ok a, t) → g a t ≡ (x, s') → r.rel t s')
        → r.rel s s'
    unfolding ◌>>=◌
    onward-bind m g hm h k = go (m s) refl
      where
        go : (p : Result E A × S) → m s ≡ p → r.rel s s'
        go (ok a, t) q = r.rel_trans s t s' (rw q at (hm.at s)) (k a t q (rw q at h))
        go (err y, t) q = let same : t ≡ s' = cc in rw (← same) (rw q at (hm.at s))

  module _ {F A : Type 0} where
    pub onward-try :
        (m : Exec S F A) (g : Result F A → Exec S E B)
        → Steps r m
        → (try m >>= g) s ≡ (x, s')
        → ((y : Result F A) (t : S) → m s ≡ (y, t) → g y t ≡ (x, s') → r.rel t s')
        → r.rel s s'
    unfolding try ◌>>=◌
    onward-try m g hm h k = r.rel_trans s _ s' (hm.at s) (k (m s).0 (m s).1 refl h)

module _ (P : Platform) {E B : Type 0} (r : Preorder (State P)) {s s' : State P}
    {x : Result E B} where
  pub onward-act :
      {A : Type 0} (f : P.World → P.Oracle → A × P.World × P.Oracle) (g : A → Exec (State P) E B)
      → r.rel s (acted P f s)
      → (act P f >>= g) s ≡ (x, s')
      → (g (f s.world s.oracle).0 (acted P f s) ≡ (x, s') → r.rel (acted P f s) s')
      → r.rel s s'
  unfolding act ◌>>=◌
  onward-act f g hm h k = r.rel_trans s _ s' hm (k h)
