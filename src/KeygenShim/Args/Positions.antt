-- ===== src/KeygenShim/Args/Positions.antt =====
-- Flags at any position of a command line of gitway-keygen: ignored ones, and one without its value.
use gitway.Base.{
  not, true, String, ◌<>◌, ◌≡◌, ◌≢◌, refl, Option, none, some, List, [], ◌∷◌, ◌++◌, Result, ok, err,
  ◌>>=◌, arith, All,
}
use gitway.Base.Text.{lookup, lookup-eq-none, strip_prefix, strip_prefix-append}
use gitway.Errors.{Errors}
use gitway.KeygenShim.Args.{
  Scan, Token, Valued, apply_switch, valued, switch, ignored_switch, end_mark, unsupported,
  positional, token, is_packed, upper_arms, initial, scan, from_args, apply_value, flag_name,
  Valued, apply_positional,
}
use Prim.Native.Char.{Char}
use gitway.KeygenShim.Args.Tokens.{token-flag_name}

-- The flags that are accepted and ignored.
pub data Ignored : String → Type 0 where
  quiet : Ignored "-q"
  verbose : Ignored "-v"
  very_verbose : Ignored "-vv"
  most_verbose : Ignored "-vvv"
  option : (c : Char) (rest : String) → Ignored ("-O" <> String.◌∷◌ c rest)

token-Ignored : {a : String} → Ignored a → token a ≡ switch ignored_switch
unfolding token lookup strip_prefix
token-Ignored quiet = refl
token-Ignored verbose = refl
token-Ignored very_verbose = refl
token-Ignored most_verbose = refl
token-Ignored (option c rest) =
    let packed : is_packed (strip_prefix "-O" ("-O" <> String.◌∷◌ c rest)) ≡ true =
      rw (strip_prefix-append "-O" (String.◌∷◌ c rest)) refl in
    rw
      (
        lookup-eq-none (λ a. not (is_packed (strip_prefix "-O" a))) ("-O" <> String.◌∷◌ c rest)
            upper_arms (rw packed (ground arith)),
        packed,
      )
      refl

module _ (E : Errors) where
  -- What the induction over the arguments hands to one round of the loop.
  abbrev Continues : List String → List String → Scan → Type 0
  Continues xs ys t =
      (w : Option Valued) (u : Scan)
      → scan E xs w u ≡ ok t
      → scan E (xs ++ ys) w u ≡ scan E ys none t

  round-append :
      (a : String) (xs ys : List String) (s t : Scan) (k : Token)
      → Continues xs ys t
      → token a ≡ k
      → k ≢ end_mark
      → scan E (a ∷ xs) none s ≡ ok t
      → scan E (a ∷ xs ++ ys) none s ≡ scan E ys none t
  unfolding scan
  round-append a xs ys s t (valued f) ih e n h = ground (arith, ih (some f) s)
  round-append a xs ys s t (switch c) ih e n h = ground (arith, ih none (apply_switch c s))
  round-append a xs ys s t end_mark ih e n h = absurd (n refl)
  round-append a xs ys s t unsupported ih e n h = ground arith
  round-append a xs ys s t positional ih e n h = ground (arith, ih none (apply_positional a s))

  value-append :
      (v : String) (xs ys : List String) (r : Result E.Error Scan) (t : Scan)
      → Continues xs ys t
      → (r >>= λ s. scan E xs none s) ≡ ok t
      → (r >>= λ s. scan E (xs ++ ys) none s) ≡ scan E ys none t
  value-append v xs ys (ok s) t ih h = ih none s h
  value-append v xs ys (err e) t ih h = cc

  scan-append :
      (xs ys : List String) (w : Option Valued) (s t : Scan)
      → All (λ a. token a ≢ end_mark) xs
      → scan E xs w s ≡ ok t
      → scan E (xs ++ ys) w s ≡ scan E ys none t
  unfolding scan
  scan-append [] ys none s t n h = ground arith
  scan-append [] ys (some f) s t n h = cc
  scan-append (a ∷ xs) ys none s t (n, ns) h =
      round-append a xs ys s t (token a) (λ w u. scan-append xs ys w u t ns) refl n h
  scan-append (v ∷ xs) ys (some f) s t (n, ns) h =
      value-append v xs ys (apply_value E f v s) t (λ w u. scan-append xs ys w u t ns) h

  -- A flag that the loop ignores, one of -q, -v, -vv, -vvv and -O with its option in the same
  -- argument, may stand anywhere that a flag is expected: after any arguments that are accepted and
  -- hold no `--`, it leaves the result of the whole command line as it is without it.
  pub from_args-Ignored :
      (xs ys : List String) (a : String) (t : Scan)
      → All (λ x. token x ≢ end_mark) xs
      → scan E xs none initial ≡ ok t
      → Ignored a
      → from_args E (xs ++ a ∷ ys) ≡ from_args E (xs ++ ys)
  unfolding from_args
  from_args-Ignored xs ys a t n h e =
      rw (scan-append xs (a ∷ ys) none initial t n h, scan-append xs ys none initial t n h)
        (ground (arith, token-Ignored e))

  -- A flag that takes a value and stands last is refused with its name, after any arguments
  -- that are accepted and hold no `--`.
  pub from_args-missing_value :
      (xs : List String) (f : Valued) (t : Scan)
      → All (λ x. token x ≢ end_mark) xs
      → scan E xs none initial ≡ ok t
      → from_args E (xs ++ flag_name f ∷ [])
        ≡ err (E.invalid_config (flag_name f <> " requires a value"))
  unfolding from_args
  from_args-missing_value xs f t n h =
      rw (scan-append xs (flag_name f ∷ []) none initial t n h) (ground (arith, token-flag_name f))
