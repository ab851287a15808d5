-- ===== src/Platform/Inversion.antt =====
-- What a sequence that succeeded says of its first step. Each rule hands what it finds, and the
-- equation for the rest of the sequence, to the proof that goes on.
use ota_fetch.Base.{
  ◌≡◌, refl, Bool, true, false, Option, none, some, Exec, Result, ok, err, pure, raise, check, try,
  ◌>>=◌, >>=-eq-ok,
}
use ota_fetch.Platform.Defs.{Platform, State, ask, act}

-- NULL is an early return.
abbrev pub or_raise : {S E A : Type 0} → E → Option A → Exec S E A
or_raise e none = raise e
or_raise e (some a) = pure a

-- The state after a call that changes no file, and after one that may.
abbrev pub asked :
    (P : Platform) {B : Type 0} → (P.World → P.Oracle → B × P.Oracle) → State P → State P
asked P f s = record s { oracle = (f s.world s.oracle).1 }

abbrev pub acted :
    (P : Platform) {B : Type 0} → (P.World → P.Oracle → B × P.World × P.Oracle) → State P → State P
acted P f s = let (a, w, o) = f s.world s.oracle in record s { world = w; oracle = o }

module _ {S E A R : Type 0} {x : A} {s' : S} where
  pub pure-ok : (a : A) (s : S) → pure {E = E} a s ≡ (ok x, s') → (a ≡ x → s ≡ s' → R) → R
  unfolding pure
  pure-ok a s h k = k (cc) (cc)

  pub check-ok :
      (b : Bool) (e : E) (g : Unit {0} → Exec S E A) (s : S)
      → (check b e >>= g) s ≡ (ok x, s')
      → (b ≡ true → g tt s ≡ (ok x, s') → R)
      → R
  unfolding check ◌>>=◌
  check-ok true e g s h k = k refl h
  check-ok false e g s h k = k (cc) (cc)

  module _ {B : Type 0} where
    pub bind-ok :
        (m : Exec S E B) (g : B → Exec S E A) (s : S)
        → (m >>= g) s ≡ (ok x, s')
        → ((b : B) (t : S) → m s ≡ (ok b, t) → g b t ≡ (ok x, s') → R)
        → R
    bind-ok m g s h k = let (b, t, e, h') = >>=-eq-ok m g s h in k b t e h'

    pub or_raise-ok :
        (e : E) (o : Option B) (g : B → Exec S E A) (s : S)
        → (or_raise e o >>= g) s ≡ (ok x, s')
        → ((b : B) → o ≡ some b → g b s ≡ (ok x, s') → R)
        → R
    unfolding ◌>>=◌ raise
    or_raise-ok e none g s h k = absurd (cc)
    or_raise-ok e (some b) g s h k = k b refl h

pub or_raise_last-ok :
    {S E A R : Type 0} {x : A} {s' : S} (e : E) (o : Option A) (s : S)
    → or_raise e o s ≡ (ok x, s')
    → (o ≡ some x → s ≡ s' → R)
    → R
unfolding pure raise
or_raise_last-ok e none s h k = absurd (cc)
or_raise_last-ok e (some b) s h k = k (cc) (cc)

pub check_last-ok :
    {S E R : Type 0} {x : Unit {0}} {s' : S} (b : Bool) (e : E) (s : S)
    → check b e s ≡ (ok x, s')
    → (b ≡ true → s ≡ s' → R)
    → R
unfolding check
check_last-ok true e s h k = k refl (cc)
check_last-ok false e s h k = absurd (cc)

module _ {S E F A B R : Type 0} {x : B} {s' : S} where
  -- A step that is tried never ends the sequence.
  pub try-ok :
      (m : Exec S E A) (g : Result E A → Exec S F B) (s : S)
      → (try m >>= g) s ≡ (ok x, s')
      → ((r : Result E A) (t : S) → m s ≡ (r, t) → g r t ≡ (ok x, s') → R)
      → R
  unfolding try ◌>>=◌
  try-ok m g s h k = k (m s).0 (m s).1 refl h

module _ (P : Platform) {E A R : Type 0} {x : A} {s' : State P} where
  pub ask-ok :
      {B : Type 0} (f : P.World → P.Oracle → B × P.Oracle) (g : B → Exec (State P) E A)
      (s : State P)
      → (ask P f >>= g) s ≡ (ok x, s')
      → (g (f s.world s.oracle).0 (asked P f s) ≡ (ok x, s') → R)
      → R
  unfolding ask ◌>>=◌
  ask-ok f g s h k = k h

  pub act-ok :
      {B : Type 0} (f : P.World → P.Oracle → B × P.World × P.Oracle) (g : B → Exec (State P) E A)
      (s : State P)
      → (act P f >>= g) s ≡ (ok x, s')
      → (g (f s.world s.oracle).0 (acted P f s) ≡ (ok x, s') → R)
      → R
  unfolding act ◌>>=◌
  act-ok f g s h k = k h

  pub ask-check-ok :
      (f : P.World → P.Oracle → Bool × P.Oracle) (e : E) (g : Unit {0} → Exec (State P) E A)
      (s : State P)
      → (ask P f >>= λ b. check b e >>= g) s ≡ (ok x, s')
      → ((f s.world s.oracle).0 ≡ true → g tt (asked P f s) ≡ (ok x, s') → R)
      → R
  unfolding ask ◌>>=◌
  ask-check-ok f e g s h k = check-ok (f s.world s.oracle).0 e g (asked P f s) h k

  pub ask-or_raise-ok :
      {B : Type 0} (f : P.World → P.Oracle → Option B × P.Oracle) (e : E)
      (g : B → Exec (State P) E A) (s : State P)
      → (ask P f >>= λ o. or_raise e o >>= g) s ≡ (ok x, s')
      → ((b : B) → (f s.world s.oracle).0 ≡ some b → g b (asked P f s) ≡ (ok x, s') → R)
      → R
  unfolding ask ◌>>=◌
  ask-or_raise-ok f e g s h k = or_raise-ok e (f s.world s.oracle).0 g (asked P f s) h k

pub ask-or_raise_last-ok :
    (P : Platform) {E B R : Type 0} {x : B} {s' : State P}
    (f : P.World → P.Oracle → Option B × P.Oracle) (e : E) (s : State P)
    → (ask P f >>= or_raise e) s ≡ (ok x, s')
    → ((f s.world s.oracle).0 ≡ some x → R)
    → R
unfolding ask ◌>>=◌
ask-or_raise_last-ok P f e s h k =
    or_raise_last-ok e (f s.world s.oracle).0 (asked P f s) h λ got _. k got

-- A sequence went on behind its first step, or ended there.
pub bind-cases :
    {S E A B R : Type 0} (m : Exec S E A) (f : A → Exec S E B) (s : S) {x : Result E B} {s' : S}
    → (m >>= f) s ≡ (x, s')
    → ((a : A) (t : S) → m s ≡ (ok a, t) → f a t ≡ (x, s') → R)
    → ((e : E) → m s ≡ (err e, s') → x ≡ err e → R)
    → R
unfolding ◌>>=◌
bind-cases {S} {E} {A} {B} {R} m f s {x} {s'} h k l = go (m s) refl
  where
    go : (p : Result E A × S) → m s ≡ p → R
    go (ok a, t) q = k a t q (rw q at h)
    go (err y, t) q = let same : t ≡ s' = cc in let why : x ≡ err y = cc in l y (rw same at q) why
