-- ===== src/Enroll/Ends.antt =====
-- The loops of src/enroll.c end: over `fgetc` always, over `write` if each call writes something.
use ota_fetch.Base.{
  ℕ, zero, suc, ◌+◌, ◌<◌, ◌≤◌, ◌≡◌, ◌≢◌, refl, ap, Bytes, length, drop, Option, none, some, Bool,
  true, false, [], ◌∷◌, err, pure, raise, ◌>>=◌, arith,
}
use ota_fetch.Platform.{Platform, State, act}
use ota_fetch.Platform.Totality.{Never, Never-bind, never_rules}
use ota_fetch.Platform.Inversion.{acted}
use ota_fetch.Platform.Posix.{Posix, IsPosix, Written, wrote, interrupted, broken_off}
use ota_fetch.Enroll.Paths.{EnrollError, failed, out_of_fuel, Enrolling}
use ota_fetch.Enroll.Token.{
  TokenBuffer, push_char, next_char, read_chars, empty_buffer, read_token_file,
}
use ota_fetch.Enroll.Write.{after_write, write_all}

abbrev pub is_out_of_fuel : EnrollError → Bool
is_out_of_fuel out_of_fuel = true
is_out_of_fuel failed = false

module _ (P : Platform) (X : Posix P) (D : IsPosix X) where
  push_char-Never : (buf : TokenBuffer) (c : ℕ) → Never is_out_of_fuel (push_char P X buf c)
  unfolding push_char
  push_char-Never buf c = search never_rules depth 20

  next_char-Never :
      (rest : P.Stream → TokenBuffer → Enrolling P (TokenBuffer × P.Stream)) (fuel : ℕ)
      (fp : P.Stream) (buf : TokenBuffer)
      → ((later : P.Stream) (buf₁ : TokenBuffer)
          → length (P.unread later) < fuel
          → Never is_out_of_fuel (rest later buf₁))
      → (q : Option ℕ × P.Stream) → X.fgetc fp ≡ q
      → length (P.unread fp) < suc fuel
      → Never is_out_of_fuel (next_char P X rest buf q)
  next_char-Never rest fuel fp buf ih (none, last) e small = search never_rules
  next_char-Never rest fuel fp buf ih (some c, later) e small =
      let got : c ∷ P.unread later ≡ P.unread fp = (rw e at (D.fgetc_unread fp c)) refl in
      let shorter = ap length got in
      Never-bind _ _ (push_char-Never buf c) λ buf₁. ih later buf₁ (omega (arith, small, shorter))

  read_chars-Never :
      (fuel : ℕ) (fp : P.Stream) (buf : TokenBuffer)
      → length (P.unread fp) < fuel
      → Never is_out_of_fuel (read_chars P X fuel fp buf)
  unfolding read_chars
  read_chars-Never zero fp buf small = elim small [ ]
  read_chars-Never (suc fuel) fp buf small =
      next_char-Never (read_chars P X fuel) fuel fp buf (read_chars-Never fuel) (X.fgetc fp) refl
        small

  read_chars-Never_of_stream :
      (fp : P.Stream)
      → Never is_out_of_fuel (read_chars P X (length (P.unread fp) + 1) fp empty_buffer)
  read_chars-Never_of_stream fp = read_chars-Never _ fp empty_buffer (omega arith)

  -- The loop over `fgetc` ends within the rounds that `read_token_file` gives it, so that reading the
  -- token never runs out of fuel.
  pub read_token_file-Never : (path : Bytes) → Never is_out_of_fuel (read_token_file P X path)
  unfolding read_token_file
  read_token_file-Never path = search (never_rules, read_chars-Never_of_stream) depth 30

-- Every call of `write` writes at least one byte, fails for good, or is one of the interruptions that
-- are still to come.
pub record Progresses (P : Platform) (X : Posix P) (pending : P.Oracle → ℕ) : Type 0 where
  pub wrote_some :
      (fd : Bytes) (c : ℕ) (b : Bytes) (w : P.World) (o : P.Oracle) (n : ℕ)
      → (X.write fd (c ∷ b) w o).0 ≡ wrote n
      → (0 < n) × (pending (X.write fd (c ∷ b) w o).2 ≤ pending o)
  pub one_less :
      (fd b : Bytes) (w : P.World) (o : P.Oracle)
      → (X.write fd b w o).0 ≡ interrupted
      → pending (X.write fd b w o).2 < pending o

length-drop : (n : ℕ) (c : ℕ) (s : Bytes) → 0 < n → length (drop n (c ∷ s)) ≤ length s
length-drop zero c s h = elim h [ ]
length-drop (suc zero) c s h = omega arith
length-drop (suc (suc n)) c [] h = omega arith
length-drop (suc (suc n)) c (d ∷ s) h = omega (arith, length-drop (suc n) d s (omega arith))

module _ (P : Platform) (X : Posix P) (pending : P.Oracle → ℕ) (G : Progresses P X pending) where
  abbrev Concludes : ℕ → Bytes → Enrolling P (Unit {0}) → Type 0
  Concludes fuel left m =
      (s : State P) → length left + pending s.oracle ≤ fuel → (m s).0 ≢ err out_of_fuel

  write-Concludes :
      (fd : Bytes) (c : ℕ) (left : Bytes) (rest : Bytes → Enrolling P (Unit {0})) (fuel : ℕ)
      → ((d : Bytes) → Concludes fuel d (rest d))
      → (s : State P) → suc (length left) + pending s.oracle ≤ suc fuel
      → (w : Written) → (X.write fd (c ∷ left) s.world s.oracle).0 ≡ w
      → (after_write P X rest (c ∷ left) w (acted P (X.write fd (c ∷ left)) s)).0 ≢ err out_of_fuel
  unfolding raise
  write-Concludes fd c left rest fuel ih s enough (wrote n) e =
      let (positive, fewer) = G.wrote_some fd c left s.world s.oracle n e in
      ih (drop n (c ∷ left)) _ (omega (arith, enough, fewer, length-drop n c left positive))
  write-Concludes fd c left rest fuel ih s enough interrupted e =
      ih (c ∷ left) _ (omega (arith, enough, G.one_less fd (c ∷ left) s.world s.oracle e))
  write-Concludes fd c left rest fuel ih s enough broken_off e = λ h. cc

  -- The loop over `write` ends, if a call that is not interrupted writes at least one byte or fails and
  -- only finitely many calls are interrupted: fuel for the bytes and the interruptions is enough.
  pub write_all-Concludes :
      (fuel : ℕ) (fd left : Bytes) (s : State P)
      → length left + pending s.oracle ≤ fuel
      → (write_all P X fuel fd left s).0 ≢ err out_of_fuel
  unfolding write_all pure ◌>>=◌ act
  write_all-Concludes zero fd [] s enough = λ h. cc
  write_all-Concludes zero fd (c ∷ left) s enough = absurd (omega (arith, enough))
  write_all-Concludes (suc fuel) fd [] s enough = λ h. cc
  write_all-Concludes (suc fuel) fd (c ∷ left) s enough =
      write-Concludes fd c left (write_all P X fuel fd) fuel (write_all-Concludes fuel fd) s enough
        _ refl
