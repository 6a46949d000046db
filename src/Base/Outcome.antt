-- ===== src/Base/Outcome.antt =====
-- Rust's `Result`, with the error type as a parameter, and fallible steps over an explicit state.
use mathlib.Core.Path.{◌≡◌, refl}
use mathlib.Core.Bool.{Bool, true, false}
use mathlib.Core.Option.{Option, none, some}

pub data Result (E : Type 0) (A : Type 0) : Type 0 where
  ok : A → Result E A
  err : E → Result E A

module _ {E : Type 0} where
  infixl 5 ◌>>=◌
  abbrev pub ◌>>=◌ : {A B : Type 0} → Result E A → (A → Result E B) → Result E B
  ok a >>= f = f a
  err e >>= f = err e

  -- Rust's `ok_or`.
  abbrev pub ok_or : {A : Type 0} → Option A → E → Result E A
  ok_or none e = err e
  ok_or (some a) e = ok a

  -- Rust's `is_ok`.
  abbrev pub is_ok : {A : Type 0} → Result E A → Bool
  is_ok (ok a) = true
  is_ok (err e) = false

  -- A result that is ok went through both steps.
  pub >>=-eq-ok :
      {A B : Type 0} (first : Result E A) (next : A → Result E B) {out : B}
      → (first >>= next) ≡ ok out
      → (x : A) × (first ≡ ok x) × (next x ≡ ok out)
  >>=-eq-ok (err e) next same = cc
  >>=-eq-ok (ok x) next same = (x, refl, same)

  pub ok_or-eq-ok : {A : Type 0} (o : Option A) (e : E) {a : A} → ok_or o e ≡ ok a → o ≡ some a
  ok_or-eq-ok none e same = cc
  ok_or-eq-ok (some b) e same = cc

  pub ok-injective : {A : Type 0} {a b : A} → ◌≡◌ {A = Result E A} (ok a) (ok b) → a ≡ b
  ok-injective same = cc
