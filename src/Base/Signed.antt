-- ===== src/Base/Signed.antt =====
-- Signed numbers of 32 bits, as Rust parses them.
use Prim.Native.Nat.{ℕ, zero, suc, ◌^◌, ◌<◌, ◌≤◌}
use mathlib.Core.Path.{◌≡◌, refl}
use mathlib.Core.Logic.{inl, inr}
use mathlib.Core.Bool.{false}
use mathlib.Core.Option.{Option, none, some}
use mathlib.Core.List.{List, [], ◌∷◌}
use native.Mathlib.Omega.{arith}
use package.gitway.Base.Tests.{leb, nat_eq, if◌then◌else◌, Bool-cases}
use package.gitway.Base.Text.{codes, digits_value, parse_unsigned, parse_unsigned-lt}

-- `negsuc n` is `- (n + 1)`.
pub data ℤ : Type 0 where
  pos negsuc : ℕ → ℤ

abbrev minus : ℕ → ℤ
minus zero = pos zero
minus (suc n) = negsuc n

-- The limits are `2 ^ 31`.
negative : Option ℕ → Option ℤ
negative none = none
negative (some n) = if leb n (2 ^ 31) then some (minus n) else none

non_negative : Option ℕ → Option ℤ
non_negative none = none
non_negative (some n) = some (pos n)

after_minus : List ℕ → Option ℤ
unfolding negative
after_minus [] = none
after_minus (d ∷ ds) = negative (digits_value 0 (d ∷ ds))

-- `parse::<i32>()`
unfoldable pub parse_i32 : List ℕ → Option ℤ
unfolding non_negative after_minus
parse_i32 [] = none
parse_i32 (c ∷ cs) =
    if nat_eq c b'-' then after_minus cs else non_negative (parse_unsigned (2 ^ 31) (c ∷ cs))

-- The numbers of 32 bits.
abbrev pub InRange : ℤ → Type 0
InRange (pos n) = n < 2 ^ 31
InRange (negsuc n) = n < 2 ^ 31

some-injective : {x y : ℤ} → some x ≡ some y → x ≡ y
some-injective same = cc

minus-InRange : (n : ℕ) → n ≤ 2 ^ 31 → InRange (minus n)
minus-InRange zero small = omega arith
minus-InRange (suc n) small = omega arith

negative-InRange : (o : Option ℕ) {z : ℤ} → negative o ≡ some z → InRange z
unfolding negative
negative-InRange none h = cc
negative-InRange (some n) {z} h = elim (Bool-cases (leb n (2 ^ 31))) [
  | inl small ↦
      let same : minus n ≡ z = some-injective (rw (negative, small) at h) in
      rw⁻¹ same (minus-InRange n (ground arith))
  | inr big ↦ cc (rw (negative, big) at h)
]

non_negative-InRange :
    (o : Option ℕ) {z : ℤ}
    → ((n : ℕ) → o ≡ some n → n < 2 ^ 31)
    → non_negative o ≡ some z
    → InRange z
unfolding non_negative
non_negative-InRange none small h = cc
non_negative-InRange (some n) {z} small h = let same : pos n ≡ z = cc in rw⁻¹ same (small n refl)

after_minus-InRange : (cs : List ℕ) {z : ℤ} → after_minus cs ≡ some z → InRange z
unfolding after_minus
after_minus-InRange [] h = cc
after_minus-InRange (d ∷ ds) h = negative-InRange (digits_value 0 (d ∷ ds)) h

pub parse_i32-InRange : (cs : List ℕ) {z : ℤ} → parse_i32 cs ≡ some z → InRange z
unfolding parse_i32
parse_i32-InRange [] h = cc
parse_i32-InRange (c ∷ cs) h = elim (Bool-cases (nat_eq c b'-')) [
  | inl dash ↦ after_minus-InRange cs (rw (parse_i32, dash) at h)
  | inr other ↦
      non_negative-InRange (parse_unsigned (2 ^ 31) (c ∷ cs))
        (λ n. parse_unsigned-lt (2 ^ 31) (c ∷ cs)) (rw (parse_i32, other) at h)
]

no_dash :
    (c : ℕ) (cs : List ℕ) {n : ℕ}
    → parse_unsigned (2 ^ 31) (c ∷ cs) ≡ some n
    → nat_eq c b'-' ≡ false
unfolding parse_unsigned digits_value
no_dash c [] h = ground arith
no_dash c (d ∷ cs) h = ground arith

-- A number without a sign is read as itself.
pub parse_i32-unsigned :
    (cs : List ℕ) {n : ℕ} → parse_unsigned (2 ^ 31) cs ≡ some n → parse_i32 cs ≡ some (pos n)
unfolding parse_i32 non_negative parse_unsigned
parse_i32-unsigned [] h = cc
parse_i32-unsigned (c ∷ cs) h = rw (no_dash c cs h, h) refl

signed_tests : (parse_i32 (codes "-12") ≡ some (negsuc 11)) × (parse_i32 (codes "--1") ≡ none)
unfolding parse_i32 digits_value
signed_tests = (refl, refl)
