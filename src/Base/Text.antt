-- ===== src/Base/Text.antt =====
-- Rust's `str` methods that the program calls, over code points.
use Prim.Native.Nat.{ℕ, zero, suc, ◌+◌, ◌-◌, ◌*◌, ◌^◌, ◌<◌}
use Prim.Native.Char.{Char, code}
use Prim.Native.String.{String, ◌++◌}
use mathlib.Core.Path.{◌≡◌, refl, sym, ap}
use mathlib.Core.Logic.{◌≢◌, inl, inr}
use mathlib.Core.Bool.{Bool, true, false, ◌&&◌, ◌||◌}
use mathlib.Core.Option.{Option, none, some}
use mathlib.Core.Option
use mathlib.Core.List.{List, [], ◌∷◌, map}
use native.Mathlib.Omega.{arith}
use text.Mathlib.TextLemmas.{nil-append, cons-append}
use text.Mathlib.Text.{◌==◌}
use text.Mathlib.TextEquality.{eq_iff}
use package.gitway.Base.Tests.{ltb, leb, nat_eq, if◌then◌else◌, All, Bool-cases}

abbrev pub codes : String → List ℕ
codes String.[] = []
codes (String.◌∷◌ c s) = code c ∷ codes s

abbrev pub lower_code : ℕ → ℕ
lower_code c = if leb b'A' c && leb c b'Z' then c + 32 else c

-- `to_ascii_lowercase`, as code points.
abbrev pub lower : String → List ℕ
lower s = map lower_code (codes s)

abbrev pub codes_eq : List ℕ → List ℕ → Bool
codes_eq [] [] = true
codes_eq (a ∷ xs) (b ∷ ys) = nat_eq a b && codes_eq xs ys
codes_eq _ _ = false

-- `s.to_ascii_lowercase() == t`, for a lower-case literal `t`.
unfoldable pub lower_is : String → String → Bool
lower_is s t = codes_eq (lower s) (codes t)

-- `eq_ignore_ascii_case`
unfoldable pub eq_ignore_ascii_case : String → String → Bool
eq_ignore_ascii_case s t = codes_eq (lower s) (lower t)

abbrev char_at : ℕ → String → Char → Char
char_at n String.[] d = d
char_at zero (String.◌∷◌ c s) d = c
char_at (suc n) (String.◌∷◌ c s) d = char_at n s d

abbrev lower_char : Char → Char
lower_char c =
    if leb b'A' (code c) && leb (code c) b'Z'
    then char_at (code c - b'A') "abcdefghijklmnopqrstuvwxyz" c
    else c

-- `to_ascii_lowercase`, as a text.
unfoldable pub lower_text : String → String
lower_text String.[] = String.[]
lower_text (String.◌∷◌ c s) = String.◌∷◌ (lower_char c) (lower_text s)

-- `strip_prefix`, the prefix first.
unfoldable pub strip_prefix : String → String → Option String
strip_prefix String.[] s = some s
strip_prefix (String.◌∷◌ c p) String.[] = none
strip_prefix (String.◌∷◌ c p) (String.◌∷◌ d s) =
    let rest = strip_prefix p s in if nat_eq (code c) (code d) then rest else none

-- `is_empty`
abbrev pub is_empty_text : String → Bool
is_empty_text String.[] = true
is_empty_text (String.◌∷◌ c s) = false

-- `strip_suffix`, the suffix first.
unfoldable pub strip_suffix : String → String → Option String
strip_suffix suffix String.[] = if is_empty_text suffix then some String.[] else none
strip_suffix suffix (String.◌∷◌ c s) =
    let rest = strip_suffix suffix s in
    if String.◌∷◌ c s == suffix then some String.[] else Option.map (String.◌∷◌ c) rest

-- `starts_with('-')`
abbrev pub has_dash : String → Bool
has_dash String.[] = false
has_dash (String.◌∷◌ c s) = nat_eq (code c) b'-'

-- `split_once('@')`
unfoldable pub split_once_at : String → Option (String × String)
split_once_at String.[] = none
split_once_at (String.◌∷◌ c s) =
    let rest = split_once_at s in
    if nat_eq (code c) b'@'
    then some (String.[], s)
    else Option.map (λ (before, after). (String.◌∷◌ c before, after)) rest

-- `trim_end_matches(c)`, by the character's number: every trailing occurrence goes.
unfoldable pub trim_end_matches : ℕ → String → String
trim_end_matches k String.[] = String.[]
trim_end_matches k (String.◌∷◌ c s) =
    let rest = trim_end_matches k s in
    if nat_eq (code c) k && is_empty_text rest then String.[] else String.◌∷◌ c rest

-- `char::is_whitespace`, on code points.
abbrev pub is_whitespace : ℕ → Bool
is_whitespace c =
    (leb 9 c && leb c 13)
    || nat_eq c 32
    || nat_eq c 133
    || nat_eq c 160
    || nat_eq c 5760
    || (leb 8192 c && leb c 8202)
    || nat_eq c 8232
    || nat_eq c 8233
    || nat_eq c 8239
    || nat_eq c 8287
    || nat_eq c 12288

unfoldable pub trim_start : String → String
trim_start String.[] = String.[]
trim_start (String.◌∷◌ c s) =
    let rest = trim_start s in if is_whitespace (code c) then rest else String.◌∷◌ c s

unfoldable pub trim_end : String → String
trim_end String.[] = String.[]
trim_end (String.◌∷◌ c s) =
    let rest = trim_end s in
    if is_whitespace (code c) && is_empty_text rest then String.[] else String.◌∷◌ c rest

-- `trim`
unfoldable pub trim : String → String
unfolding trim_start trim_end
trim s = trim_end (trim_start s)

-- The digits of `str::parse` for an unsigned integer, most significant first.
unfoldable pub digits_value : ℕ → List ℕ → Option ℕ
digits_value acc [] = some acc
digits_value acc (c ∷ cs) =
    let rest = digits_value (acc * 10 + (c - b'0')) cs in
    if leb b'0' c && leb c b'9' then rest else none

abbrev in_range : ℕ → Option ℕ → Option ℕ
in_range limit none = none
in_range limit (some n) = if ltb n limit then some n else none

-- `parse::<uN>()` with `limit = 2 ^ N`: an optional `+`, then at least one digit, without overflow.
unfoldable pub parse_unsigned : ℕ → List ℕ → Option ℕ
unfolding digits_value
parse_unsigned limit [] = none
parse_unsigned limit (c ∷ []) =
    if nat_eq c b'+' then none else in_range limit (digits_value 0 (c ∷ []))
parse_unsigned limit (c ∷ d ∷ cs) =
    if nat_eq c b'+'
    then in_range limit (digits_value 0 (d ∷ cs))
    else in_range limit (digits_value 0 (c ∷ d ∷ cs))

map-eq-some :
    {A B : Type 0} (f : A → B) (o : Option A) {b : B}
    → Option.map f o ≡ some b
    → (a : A) × (o ≡ some a) × (f a ≡ b)
map-eq-some f none same = cc
map-eq-some f (some a) same = (a, refl, cc)

-- What is stripped is the end of the text.
pub strip_suffix-eq-some :
    (suffix s : String) {t : String} → strip_suffix suffix s ≡ some t → s ≡ t ++ suffix
unfolding strip_suffix
strip_suffix-eq-some String.[] String.[] {t} h =
    let empty : String.[] ≡ t = cc in rw⁻¹ empty (sym (nil-append String.[]))
strip_suffix-eq-some (String.◌∷◌ d suffix) String.[] h = cc
strip_suffix-eq-some suffix (String.◌∷◌ c s) {t} h = elim (Bool-cases (String.◌∷◌ c s == suffix)) [
  | inl same ↦
      let empty : String.[] ≡ t = cc in
      rw⁻¹ empty (rw nil-append ((eq_iff (String.◌∷◌ c s) suffix).0 same))
  | inr other ↦
      let (r, stripped, joined) =
        map-eq-some (String.◌∷◌ c) (strip_suffix suffix s) (rw (strip_suffix, other) at h) in
      rw⁻¹ joined (rw cons-append (ap (String.◌∷◌ c) (strip_suffix-eq-some suffix s stripped)))
]

pub strip_prefix-append : (p s : String) → strip_prefix p (p ++ s) ≡ some s
unfolding strip_prefix
strip_prefix-append String.[] s = rw nil-append
strip_prefix-append (String.◌∷◌ c p) s = rw cons-append (ground (arith, strip_prefix-append p s))

-- A match on text literals, as a table of arms: the first literal that is equal decides.
unfoldable pub lookup {ℓ} : {A : Type ℓ} → String → List (String × A) → Option A
lookup k [] = none
lookup k ((j, a) ∷ arms) = let rest = lookup k arms in if k == j then some a else rest

-- A text that a test tells from every literal of a table is not found in it.
pub lookup-eq-none {ℓ κ} :
    {A : Type ℓ} {B : Type κ} (test : String → B) (k : String) (arms : List (String × A))
    → All (λ (j, _). test k ≢ test j) arms
    → lookup k arms ≡ none
unfolding lookup
lookup-eq-none test k [] h = refl
lookup-eq-none test k ((j, a) ∷ arms) (differs, h) = elim (Bool-cases (k == j)) [
  | inl same ↦ absurd (differs (ap test ((eq_iff k j).0 same)))
  | inr other ↦ rw other (lookup-eq-none test k arms h)
]

pub parse_unsigned-lt :
    (limit : ℕ) (cs : List ℕ) {n : ℕ} → parse_unsigned limit cs ≡ some n → n < limit
unfolding parse_unsigned
parse_unsigned-lt limit [] h = cc
parse_unsigned-lt limit (c ∷ []) h = ground arith
parse_unsigned-lt limit (c ∷ d ∷ cs) h = ground arith

text_tests :
    (strip_suffix ".pub" "id.pub" ≡ some "id")
    × (lower_text "RSA-x" ≡ "rsa-x")
    × (trim " SHA256:x \n" ≡ "SHA256:x")
    × (split_once_at "git@github.com" ≡ some ("git", "github.com"))
    × (trim_end_matches b'x' "axbxx" ≡ "axb")
    × (parse_unsigned (2 ^ 64) (codes "+3600") ≡ some 3600)
    × (parse_unsigned 256 (codes "256") ≡ none)
    × (lower_is "SHA256" "sha256" ≡ true)
unfolding split_once_at trim_end_matches parse_unsigned lower_is trim strip_suffix lower_text
text_tests = (refl, refl, refl, refl, refl, refl, refl, refl)
