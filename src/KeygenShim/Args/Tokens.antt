-- ===== src/KeygenShim/Args/Tokens.antt =====
-- Which arm of the parser's `match` an argument takes.
use gitway.Base.{String, ◌<>◌, false, ◌≡◌, ◌≢◌, refl, Option, none, arith, All}
use gitway.Base.Text.{
  strip_prefix, strip_prefix-append, has_dash, is_empty_text, lookup, lookup-eq-none,
}
use gitway.KeygenShim.Args.{
  Valued, valued, switch, ignored_switch, positional, upper_arms, lower_arms, token, flag_name,
  Valued, type_value,
}

strip_prefix-of_no_dash : (a : String) → has_dash a ≡ false → strip_prefix "-O" a ≡ none
unfolding strip_prefix
strip_prefix-of_no_dash String.[] h = refl
strip_prefix-of_no_dash (String.◌∷◌ c a) h = ground arith

-- A text that does not begin with a dash is taken as a positional argument.
pub token-of_no_dash : (a : String) → has_dash a ≡ false → token a ≡ positional
unfolding token
token-of_no_dash a h = rw (
  lookup-eq-none has_dash a upper_arms (ground arith),
  strip_prefix-of_no_dash a h,
  lookup-eq-none has_dash a lower_arms (ground arith),
  h,
)

abbrev after_o : String → Option String
after_o = strip_prefix "-O"

-- `-O<option>` is ignored for every option that is not empty.
pub token-packed :
    (o : String) → is_empty_text o ≡ false → token ("-O" <> o) ≡ switch ignored_switch
unfolding token
token-packed o h =
    rw (lookup-eq-none after_o ("-O" <> o) upper_arms differs, strip_prefix-append, h)
  where
    differs : All (λ (j, _). after_o ("-O" <> o) ≢ after_o j) upper_arms
    differs = rw strip_prefix-append (unfold strip_prefix in ground arith)

pub token-flag_name : (f : Valued) → token (flag_name f) ≡ valued f
unfolding token lookup strip_prefix
token-flag_name type_value = refl
token-flag_name _ = refl
