-- ===== src/Errors.antt =====
-- `AnvilError` of the crate anvil-ssh, which is not part of the repository: an unknown type with
-- the constructors that the program calls, and Rust's `{:?}` of a text, which is given by its code points. No law
-- is assumed of them.
use gitway.Base.{ℕ, String, ◌<>◌, ◌≡◌, List, Result, ok, err}
use gitway.Base.Io.{Io}

pub record Errors : Type 1 where
  pub Error : Type 0
  pub invalid_config : String → Error
  pub signing : String → Error
  pub no_key_found : Error
  pub authentication_failed : Error
  pub debug : List ℕ → String

module _ (E : Errors) {A : Type 0} where
  -- `map_err` of an error of the system, which is its text.
  abbrev pub in_context : String → Result String A → Result E.Error A
  in_context context (ok a) = ok a
  in_context context (err e) = err (E.invalid_config (context <> e))

  abbrev pub with_context : {W : Type 0} → String → Io W String A → Io W E.Error A
  with_context context step w = let (r, w') = step w in (in_context context r, w')

  pub in_context-eq-ok :
      (context : String) (r : Result String A) {a : A} → in_context context r ≡ ok a → r ≡ ok a
  in_context-eq-ok context (ok b) same = cc
  in_context-eq-ok context (err e) same = cc
