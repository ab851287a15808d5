-- ===== src/Base/Effects.antt =====
-- Code with effects and early returns: a state, and a value or an error code. What was done before
-- an error stays done, so the state comes back beside the error too.
use mathlib.Core.Path.{◌≡◌, refl}
use mathlib.Core.Bool.{Bool, true, false}

pub data Result {ℓ} (E A : Type ℓ) : Type ℓ where
  ok : A → Result E A
  err : E → Result E A

abbrev pub Exec {ℓ} : Type ℓ → Type ℓ → Type ℓ → Type ℓ
Exec S E A = S → Result E A × S

module _ {ℓ} {S E A : Type ℓ} where
  unfoldable pub pure : A → Exec S E A
  pure a s = (ok a, s)

  unfoldable pub raise : E → Exec S E A
  raise e s = (err e, s)

-- Runs an action and hands its outcome on, as code does that keeps a return code for later.
unfoldable pub try {ℓ} : {S E F A : Type ℓ} → Exec S E A → Exec S F (Result E A)
try m s = (ok (m s).0, (m s).1)

module _ {ℓ} {S E A B : Type ℓ} where
  abbrev continue : Result E A → (A → Exec S E B) → Exec S E B
  continue (ok a) f s = f a s
  continue (err e) f s = (err e, s)

  infixl 5 ◌>>=◌
  unfoldable pub ◌>>=◌ : Exec S E A → (A → Exec S E B) → Exec S E B
  unfolding pure raise try
  ◌>>=◌ m f s = continue (m s).0 f (m s).1

  -- A sequence that succeeds has succeeded in its first part, then in its second.
  pub >>=-eq-ok :
      (m : Exec S E A) (f : A → Exec S E B) (s : S) {b : B} {s' : S}
      → (m >>= f) s ≡ (ok b, s')
      → (a : A) × (t : S) × (m s ≡ (ok a, t)) × (f a t ≡ (ok b, s'))
  unfolding ◌>>=◌
  >>=-eq-ok m f s {b} {s'} h = go (m s) refl h
    where
      go :
          (r : Result E A × S)
          → m s ≡ r
          → continue r.0 f r.1 ≡ (ok b, s')
          → (a : A) × (t : S) × (m s ≡ (ok a, t)) × (f a t ≡ (ok b, s'))
      go (ok a, t) e h = (a, t, e, h)
      go (err x, t) e h = cc

  -- A sequence whose first part succeeds goes on with its second.
  pub ok->>= :
      (m : Exec S E A) (f : A → Exec S E B) (s : S) {a : A} {t : S} {p : Result E B × S}
      → m s ≡ (ok a, t)
      → f a t ≡ p
      → (m >>= f) s ≡ p
  unfolding ◌>>=◌
  ok->>= m f s e h = rw e h

infixl 5 ◌>>◌
abbrev pub ◌>>◌ {ℓ} : {S E A B : Type ℓ} → Exec S E A → Exec S E B → Exec S E B
m >> k = m >>= λ _. k

-- A test whose failure is an early return.
unfoldable pub check {ℓ} : {S E : Type ℓ} → Bool → E → Exec S E (Unit {ℓ})
unfolding pure raise
check true e = pure tt
check false e = raise e
