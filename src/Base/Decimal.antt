-- ===== src/Base/Decimal.antt =====
-- How Rust shows an unsigned number, and that parsing reads it back.
use Prim.Native.Nat.{ℕ, zero, suc, ◌+◌, ◌-◌, ◌*◌, ◌/◌, ◌%◌, ◌<◌, ◌≤◌}
use Prim.Native.Char.{code}
use Prim.Native.String.{String, ◌++◌ as ◌<>◌}
use mathlib.Core.Path.{◌≡◌, refl, ap, ◌∙◌}
use mathlib.Core.Logic.{inl, inr}
use mathlib.Core.Bool.{false}
use mathlib.Core.Option.{some}
use mathlib.Core.List.{List, [], ◌∷◌, ◌++◌}
use native.Mathlib.Omega.{arith}
use text.Mathlib.TextLemmas.{nil-append, cons-append}
use package.gitway.Base.Tests.{is_empty, ltb, if◌then◌else◌, Bool-cases}
use package.gitway.Base.Text.{
  codes, digits_value, parse_unsigned, trim, trim_start, trim_end, is_whitespace,
}

abbrev pub digit : ℕ → String
digit zero = "0"
digit (suc zero) = "1"
digit (suc (suc zero)) = "2"
digit (suc (suc (suc zero))) = "3"
digit (suc (suc (suc (suc zero)))) = "4"
digit (suc (suc (suc (suc (suc zero))))) = "5"
digit (suc (suc (suc (suc (suc (suc zero)))))) = "6"
digit (suc (suc (suc (suc (suc (suc (suc zero))))))) = "7"
digit (suc (suc (suc (suc (suc (suc (suc (suc zero)))))))) = "8"
digit (suc (suc (suc (suc (suc (suc (suc (suc (suc d))))))))) = "9"

unfoldable pub shown : ℕ → ℕ → String
shown zero n = digit n
shown (suc fuel) n =
    let rest = shown fuel (n / 10) in if ltb n 10 then digit n else rest <> digit (n % 10)

-- `to_string`: a number has fewer digits than its value, so this fuel is enough.
unfoldable pub decimal : ℕ → String
unfolding shown
decimal n = shown n n

codes-digit : (d : ℕ) → d < 10 → codes (digit d) ≡ (b'0' + d) ∷ []
codes-digit zero small = refl
codes-digit (suc zero) small = refl
codes-digit (suc (suc zero)) small = refl
codes-digit (suc (suc (suc zero))) small = refl
codes-digit (suc (suc (suc (suc zero)))) small = refl
codes-digit (suc (suc (suc (suc (suc zero))))) small = refl
codes-digit (suc (suc (suc (suc (suc (suc zero)))))) small = refl
codes-digit (suc (suc (suc (suc (suc (suc (suc zero))))))) small = refl
codes-digit (suc (suc (suc (suc (suc (suc (suc (suc zero)))))))) small = refl
codes-digit (suc (suc (suc (suc (suc (suc (suc (suc (suc zero))))))))) small = refl
codes-digit (suc (suc (suc (suc (suc (suc (suc (suc (suc (suc d)))))))))) small =
    absurd (omega arith)

codes-append : (s t : String) → codes (s <> t) ≡ codes s ++ codes t
codes-append String.[] t = rw nil-append refl
codes-append (String.◌∷◌ c s) t = rw cons-append (ap (λ rest. code c ∷ rest) (codes-append s t))

digits_value-append :
    (acc v d : ℕ) (cs : List ℕ)
    → d < 10
    → digits_value acc cs ≡ some v
    → digits_value acc (cs ++ (b'0' + d) ∷ []) ≡ some (v * 10 + d)
unfolding digits_value
digits_value-append acc v d [] small h = ground arith
digits_value-append acc v d (c ∷ cs) small h =
    ground (arith, digits_value-append (acc * 10 + (c - b'0')) v d cs small)

-- Enough fuel gives the digits of the number.
digits_value-shown : (fuel n : ℕ) → n ≤ fuel → digits_value 0 (codes (shown fuel n)) ≡ some n
unfolding shown digits_value
digits_value-shown zero n enough = let is_zero : n ≡ 0 = omega arith in rw is_zero refl
digits_value-shown (suc fuel) n enough = elim (Bool-cases (ltb n 10)) [
  | inl small ↦ rw (small, codes-digit n (ground arith)) (ground arith)
  | inr big ↦
      rw (big, codes-append, codes-digit (n % 10) (omega arith))
        (digits_value-append 0 (n / 10) (n % 10) (codes (shown fuel (n / 10))) (omega arith)
            (digits_value-shown fuel (n / 10) (omega arith))
          ∙ ap some (omega arith))
]

no_end : (cs : List ℕ) (d : ℕ) → is_empty (cs ++ d ∷ []) ≡ false
no_end [] d = refl
no_end (c ∷ cs) d = refl

shown-nonempty : (fuel n : ℕ) → n ≤ fuel → is_empty (codes (shown fuel n)) ≡ false
unfolding shown
shown-nonempty zero n enough = let is_zero : n ≡ 0 = omega arith in rw is_zero refl
shown-nonempty (suc fuel) n enough = elim (Bool-cases (ltb n 10)) [
  | inl small ↦ rw (small, codes-digit n (ground arith)) refl
  | inr big ↦
      rw (big, codes-append, codes-digit (n % 10) (omega arith))
        (no_end (codes (shown fuel (n / 10))) (b'0' + n % 10))
]

parse_unsigned-digits :
    (limit n : ℕ) (cs : List ℕ)
    → n < limit
    → is_empty cs ≡ false
    → digits_value 0 cs ≡ some n
    → parse_unsigned limit cs ≡ some n
unfolding parse_unsigned digits_value
parse_unsigned-digits limit n [] small nonempty h = cc
parse_unsigned-digits limit n (c ∷ []) small nonempty h = ground arith
parse_unsigned-digits limit n (c ∷ d ∷ cs) small nonempty h = ground arith

-- A number that is shown is read back, where it is below the limit.
pub parse_unsigned-decimal :
    (limit n : ℕ) → n < limit → parse_unsigned limit (codes (decimal n)) ≡ some n
unfolding decimal
parse_unsigned-decimal limit n small =
    parse_unsigned-digits limit n _ small (shown-nonempty n n (omega arith))
      (digits_value-shown n n (omega arith))

-- The digits of what is shown have the number as their value.
pub digits_value-decimal : (n : ℕ) → digits_value 0 (codes (decimal n)) ≡ some n
unfolding decimal
digits_value-decimal n = digits_value-shown n n (omega arith)

first_digit :
    (c : ℕ) (cs : List ℕ) (acc n : ℕ)
    → digits_value acc (c ∷ cs) ≡ some n
    → (digits_value (acc * 10 + (c - b'0')) cs ≡ some n) × (is_whitespace c ≡ false)
unfolding digits_value
first_digit c cs acc n h = (ground arith, ground arith)

trim_end-digits : (s : String) (acc n : ℕ) → digits_value acc (codes s) ≡ some n → trim_end s ≡ s
unfolding trim_end digits_value
trim_end-digits String.[] acc n h = refl
trim_end-digits (String.◌∷◌ c s) acc n h =
    let (others, solid) = first_digit (code c) (codes s) acc n h in
    rw (solid, trim_end-digits s (acc * 10 + (code c - b'0')) n others) refl

trim_start-digits :
    (s : String) (acc n : ℕ) → digits_value acc (codes s) ≡ some n → trim_start s ≡ s
unfolding trim_start digits_value
trim_start-digits String.[] acc n h = refl
trim_start-digits (String.◌∷◌ c s) acc n h = ground arith

-- What is shown has no white space around it.
pub trim-decimal : (n : ℕ) → trim (decimal n) ≡ decimal n
unfolding trim decimal
trim-decimal n =
    let digits = digits_value-shown n n (omega arith) in
    rw (trim_start-digits (shown n n) 0 n digits) (trim_end-digits (shown n n) 0 n digits)

decimal_tests : (decimal 0 ≡ "0") × (decimal 4096 ≡ "4096")
unfolding decimal
decimal_tests = (refl, refl)
