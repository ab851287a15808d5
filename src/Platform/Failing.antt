-- ===== src/Platform/Failing.antt =====
-- What a function that returns an error has left unchanged.
use ota_fetch.Base.{Bool, true, false, check, pure, raise, ◌≡◌, refl, Exec, Result, ok, err, ◌>>=◌}
use ota_fetch.Platform.Steps.{Preorder, Steps, Steps-after}

-- The relation holds between the state before and the state after an error.
pub record OnError {S E A : Type 0} (r : Preorder S) (m : Exec S E A) : Type 0 where
  pub at : (s t : S) (e : E) → m s ≡ (err e, t) → r.rel s t

pub OnError-Steps : {S E A : Type 0} {r : Preorder S} (m : Exec S E A) → Steps r m → OnError r m
OnError-Steps {r} m h = record { at = λ s t e k. Steps-after r m h k }

module _ {S E A B : Type 0} {r : Preorder S} where
  -- The first part keeps the relation, and so does the rest if it fails.
  pub OnError-bind :
      (m : Exec S E A) (f : A → Exec S E B)
      → Steps r m
      → ((a : A) → OnError r (f a))
      → OnError r (m >>= f)
  unfolding ◌>>=◌
  OnError-bind m f hm hf = record { at = λ s t e k. go s t e (m s) refl k }
    where
      go : (s t : S) (e : E) (p : Result E A × S) → m s ≡ p → (m >>= f) s ≡ (err e, t) → r.rel s t
      go s t e (ok a, u) q k = r.rel_trans s u t (rw q at (hm.at s)) ((hf a).at u t e (rw q at k))
      go s t e (err x, u) q k = let same : u ≡ t = cc in rw (← same) (rw q at (hm.at s))

pub check-err :
    {S E : Type 0} (b : Bool) (e : E) (s : S) {x : E} {t : S}
    → check b e s ≡ (err x, t)
    → (b ≡ false) × (s ≡ t)
unfolding check pure raise
check-err true e s h = absurd (cc)
check-err false e s h = (refl, cc)
