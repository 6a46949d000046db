-- ===== src/Biometric/Entries.antt =====
-- A keystore in memory for the tests: its entries by name, and how often its user was prompted.
use gitway.Base.{
  ℕ, String, ◌==◌, eq_iff, ◌≡◌, ◌≢◌, ◌↔◌, refl, sym, ◌∙◌, true, false, Bool-cases, inl, inr, Option,
  none, some, is_some, List, [], ◌∷◌, map, if◌then◌else◌,
}
use gitway.Base.Listed.{Listed, here, later, none_listed}
use gitway.Base.Text.{lookup}

abbrev pub Entries : Type 0
Entries = List (String × String) × ℕ

abbrev pub held : Entries → String → Option String
held w a = lookup a (w.0)

abbrev pub prompted : Entries → ℕ
prompted w = w.1

abbrev pub without : String → List (String × String) → List (String × String)
without a [] = []
without a ((b, p) ∷ entries) =
    let rest = without a entries in if a == b then rest else (b, p) ∷ rest

abbrev pub names : List (String × String) → List String
names entries = map (λ (a, p). a) entries

pub lookup-cons :
    (a p : String) (entries : List (String × String)) → lookup a ((a, p) ∷ entries) ≡ some p
unfolding lookup
lookup-cons a p entries = rw ((eq_iff a a).1 refl) refl

pub lookup-other :
    (a b p : String) (entries : List (String × String))
    → a ≢ b
    → lookup b ((a, p) ∷ entries) ≡ lookup b entries
unfolding lookup
lookup-other a b p entries differs = elim (Bool-cases (b == a)) [
  | inl same ↦ absurd (differs (sym ((eq_iff b a).0 same)))
  | inr other ↦ rw other refl
]

pub lookup-without :
    (a : String) (entries : List (String × String)) → lookup a (without a entries) ≡ none
unfolding lookup
lookup-without a [] = refl
lookup-without a ((b, p) ∷ entries) = elim (Bool-cases (a == b)) [
  | inl same ↦ rw same (lookup-without a entries)
  | inr other ↦ rw (other, other) (lookup-without a entries)
]

pub lookup-without_other :
    (a b : String) (entries : List (String × String))
    → a ≢ b
    → lookup b (without a entries) ≡ lookup b entries
unfolding lookup
lookup-without_other a b [] differs = refl
lookup-without_other a b ((c, p) ∷ entries) differs =
    let rest = lookup-without_other a b entries differs in
    elim (Bool-cases (a == c)) [
      | inl same ↦
          let named : a ≡ c = (eq_iff a c).0 same in
          rw (same, rest) (sym (lookup-other c b p entries (λ e. differs (named ∙ e))))
      | inr other ↦ rw (other, rest) refl
    ]

tail-Listed :
    {a b : String} {texts : List String} → a == b ≡ false → Listed a (b ∷ texts) → Listed a texts
tail-Listed {a} other here = cc (rw ((eq_iff a a).1 refl) at other)
tail-Listed other (later l) = l

pub names-lookup :
    (entries : List (String × String)) (a : String)
    → Listed a (names entries) ↔ (is_some (lookup a entries) ≡ true)
unfolding lookup
names-lookup [] a = ((λ l. none_listed l), λ h. cc)
names-lookup ((b, p) ∷ entries) a =
    let (out, back) = names-lookup entries a in
    elim (Bool-cases (a == b)) [
      | inl same ↦ rw (same, (eq_iff a b).0 same) ((λ l. refl), λ h. here)
      | inr other ↦ rw other (λ l. out (tail-Listed other l), λ h. later (back h))
    ]
