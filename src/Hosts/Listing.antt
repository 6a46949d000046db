-- ===== src/Hosts/Listing.antt =====
-- `run_list` of gitway-cli/src/hosts.rs: its two forms show the same entries, and its columns.
use gitway.Base.{
  ℕ, zero, suc, ◌+◌, ◌-◌, String, ◌<>◌, ◌≡◌, refl, ap, sym, List, [], ◌∷◌, ◌++◌, map, length, arith,
}
use gitway.Base.Json.{
  Json, Items, Fields, no_fields, field, array, items_before, count_items, items, fields,
}
use gitway.Errors.{Errors}
use gitway.Hosts.{KnownHostsFile, Network, Machine, pad, human_lines, json_fields}
use text.Mathlib.TextLemmas.{nil-append, cons-append, append-nil}

abbrev pub spaces : ℕ → String
spaces zero = ""
spaces (suc n) = " " <> spaces n

abbrev pub chars : String → ℕ
chars String.[] = 0
chars (String.◌∷◌ c s) = suc (chars s)

zero_minus : (n : ℕ) → 0 - n ≡ 0
zero_minus n = omega arith

minus_zero : (n : ℕ) → n - 0 ≡ n
minus_zero n = omega arith

suc_minus : (n k : ℕ) → suc n - suc k ≡ n - k
suc_minus n k = omega arith

pad-blank : (n : ℕ) → pad n "" ≡ spaces n
unfolding pad
pad-blank zero = refl
pad-blank (suc n) = ap (λ rest. " " <> rest) (pad-blank n)

-- A column that is padded to a width is its text, not cut, and as many spaces as are missing.
pub pad-spaces : (width : ℕ) (s : String) → pad width s ≡ s <> spaces (width - chars s)
unfolding pad
pad-spaces zero s = rw (zero_minus (chars s)) (sym (append-nil s))
pad-spaces (suc n) String.[] = rw (nil-append, minus_zero) (ap (λ rest. " " <> rest) (pad-blank n))
pad-spaces (suc n) (String.◌∷◌ c s) =
    rw (cons-append, suc_minus) (ap (String.◌∷◌ c) (pad-spaces n s))

abbrev pub entries_of : Json → ℕ
entries_of (array given) = count_items given
entries_of _ = 0

-- The entries of all arrays of a document.
abbrev pub entries : Fields → ℕ
entries no_fields = 0
entries (field name value rest) = entries_of value + entries rest

module _ {A : Type 0} where
  length-map : {B : Type 0} (f : A → B) (xs : List A) → length (map f xs) ≡ length xs
  length-map f [] = refl
  length-map f (x ∷ xs) = ap suc (length-map f xs)

  length-append : (xs ys : List A) → length (xs ++ ys) ≡ length xs + length ys
  length-append [] ys = omega arith
  length-append (x ∷ xs) ys = let rest = length-append xs ys in omega arith

  length-items :
      (f : A → Json) (xs : List A) (rest : Items)
      → count_items (items_before f xs rest) ≡ length xs + count_items rest
  length-items f [] rest = omega arith
  length-items f (x ∷ xs) rest = let others = length-items f xs rest in omega arith

module _ {W : Type 0} (E : Errors) (N : Network W E) (M : Machine W) where
  -- The lines for a human are the entries of the JSON document and seven lines around them: four titles and three
  -- empty lines.
  pub human_lines-entries :
      (path : String) (k : KnownHostsFile)
      → length (human_lines E N M path k) ≡ 7 + entries (fields (json_fields E N M path k))
  unfolding human_lines json_fields
  human_lines-entries path k = simp (length-append, length-map, items, length-items) (omega arith)
