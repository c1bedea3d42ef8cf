-- ===== src/Common/Results.antt =====
-- What a Go function gives back: a value, an error, or a run-time panic.
use mathlib.Core.Path.{◌≡◌, refl}
use mathlib.Core.Logic.{◌⊎◌, inl, inr, ◌≢◌}
use mathlib.Core.Bool.{Bool, true, false}
use mathlib.Core.Option.{Option, none, some}

-- `err e` is a non-nil error (or `false` from a validator, which logs `e`); `panic` is a failed type
-- assertion, a nil dereference or an index out of range.
pub data Result {ℓ} (E : Type ℓ) (A : Type ℓ) : Type ℓ where
  ok : A → Result E A
  err : E → Result E A
  panic : Result E A

module _ {ℓ} {E A B : Type ℓ} where
  infixl 5 ◌>>=◌
  abbrev pub ◌>>=◌ : Result E A → (A → Result E B) → Result E B
  panic >>= next = panic
  err e >>= next = err e
  ok a >>= next = next a

  pub >>=-eq-ok :
      (first : Result E A) (next : A → Result E B) {b : B}
      → (first >>= next) ≡ ok b
      → (a : A) × (first ≡ ok a) × (next a ≡ ok b)
  >>=-eq-ok panic next done = cc
  >>=-eq-ok (err e) next done = cc
  >>=-eq-ok (ok a) next done = (a, refl, done)

  pub >>=-eq-panic : (m : Result E A) (f : A → Result E B) → m ≡ panic → (m >>= f) ≡ panic
  >>=-eq-panic (ok a) f h = cc
  >>=-eq-panic (err e) f h = cc
  >>=-eq-panic panic f h = refl

  -- Where a panic comes from.
  pub >>=-panic_cases :
      (first : Result E A) (next : A → Result E B)
      → (first >>= next) ≡ panic
      → (first ≡ panic) ⊎ ((a : A) × (first ≡ ok a) × (next a ≡ panic))
  >>=-panic_cases panic next h = inl refl
  >>=-panic_cases (err e) next h = cc
  >>=-panic_cases (ok a) next h = inr (a, refl, h)

  pub >>=-ne-panic :
      (first : Result E A) (next : A → Result E B)
      → first ≢ panic
      → ((a : A) → next a ≢ panic)
      → (first >>= next) ≢ panic
  >>=-ne-panic panic next m f h = absurd (m refl)
  >>=-ne-panic (err e) next m f h = cc
  >>=-ne-panic (ok a) next m f h = f a h

module _ {ℓ} {E A : Type ℓ} where
  -- An absent value is the error `e`.
  abbrev pub or_err : E → Option A → Result E A
  or_err e none = err e
  or_err e (some a) = ok a

  pub or_err-ne-panic : (e : E) (o : Option A) → or_err e o ≢ panic
  or_err-ne-panic e none h = cc
  or_err-ne-panic e (some a) h = cc

  pub ok-ne-panic : (a : A) → ◌≢◌ {A = Result E A} (ok a) panic
  ok-ne-panic a h = cc

module _ {E : Type 0} where
  infixl 5 ◌>>◌
  abbrev pub ◌>>◌ : {B : Type 0} → Result E (Unit {0}) → Result E B → Result E B
  first >> second = first >>= λ _. second

  -- `if !test { return e }`
  abbrev pub guard : Bool → E → Result E (Unit {0})
  guard false e = err e
  guard true e = ok tt

  pub guard-ne-panic : (b : Bool) (e : E) → guard b e ≢ panic
  guard-ne-panic false e h = cc
  guard-ne-panic true e h = cc

module _ {ℓ} {E A : Type ℓ} where
  abbrev pub is_ok : Result E A → Bool
  is_ok (ok a) = true
  is_ok _ = false

  pub ok_of_is_ok : (r : Result E A) → is_ok r ≡ true → (a : A) × (r ≡ ok a)
  ok_of_is_ok (ok a) h = (a, refl)
  ok_of_is_ok (err e) h = cc
  ok_of_is_ok panic h = cc

-- A chain of steps that do not panic.
pub ruleset no_panic = (>>=-ne-panic, or_err-ne-panic, ok-ne-panic, guard-ne-panic)
