-- ===== src/Keygen/Laws.antt =====
-- gitway-cli/src/keygen.rs: the new passphrase, and the kinds of key.
use gitway.Base.{
  ap, ℕ, String, ◌<>◌, ◌==◌, eq_iff, ◌≡◌, refl, sym, ◌∙◌, Bool, true, false, Option, none, some,
  Result, ok, err, Bool-cases, inl, inr, nat_eq, unwrap_or, ok-injective,
}
use gitway.Base.Io.{Io, bind-eq-ok, give, lift}
use gitway.Base.Text.{is_empty_text, lower_is}
use gitway.Errors.{Errors}
use gitway.Keys.{Keys}
use gitway.Keygen.{
  KeyAlg, alg_ed25519, alg_ecdsa, alg_rsa, curve, resolve_kind, matching, repeated,
  prompt_new_passphrase, some_unless_empty, resolve_new_passphrase,
}
use gitway.KeygenShim.Resolve.{curve_of, parse_kind}
use gitway.Tools.{KeyType, Tools, system, from_system}

-- The names that gitway-keygen has for the kinds of key.
abbrev pub name_of : KeyAlg → String
name_of alg_ed25519 = "ed25519"
name_of alg_ecdsa = "ecdsa"
name_of alg_rsa = "rsa"

-- The kind of key that a result has, where it is no error.
abbrev pub kind_of : {E : Type 0} → Result E (KeyType × Option ℕ) → Option KeyType
kind_of (ok (kind, bits)) = some kind
kind_of (err e) = none

abbrev pub kind_in : {E : Type 0} → Result E KeyType → Option KeyType
kind_in (ok kind) = some kind
kind_in (err e) = none

module _ {W : Type 0} (E : Errors) (K : Keys) (T : Tools W E K)
    (prompt : String → Io W E.Error String) where
  -- How a user gives a new passphrase: on the command line, by `prompt_passphrase` without a terminal,
  -- or by typing it twice.
  pub data Chosen (path : String) (given : Option String) (w : W) (p : String) : Type 0 where
    on_command_line : given ≡ some p → Chosen path given w p
    asked_once : T.stderr_is_terminal w ≡ false → (prompt path w).0 ≡ ok p → Chosen path given w p
    typed_twice :
        (again : W)
        → T.stderr_is_terminal w ≡ true
        → (T.prompt_password ("Enter new passphrase for " <> path <> " (empty for none): ") w).0
          ≡ ok p
        → (T.prompt_password "Enter same passphrase again: " again).0 ≡ ok p
        → Chosen path given w p

  some-injective : {A : Type 0} {a b : A} → some a ≡ some b → a ≡ b
  some-injective same = cc

  from_system-ok : {A : Type 0} (r : Result _ A) {a : A} → from_system E K T r ≡ ok a → r ≡ ok a
  from_system-ok (ok a) h = ap ok (ok-injective h)
  from_system-ok (err e) h = cc

  unless_empty-some :
      (q : String) {p : String}
      → some_unless_empty E K T prompt q ≡ some p
      → (q ≡ p) × (is_empty_text p ≡ false)
  unless_empty-some q {p} h = elim (Bool-cases (is_empty_text q)) [
    | inl empty ↦ cc (rw (some_unless_empty, empty) at h)
    | inr solid ↦
        let same : q ≡ p = some-injective (rw (some_unless_empty, solid) at h) in
        (same, rw⁻¹ same solid)
  ]

  matching-ok :
      (first second : String) {p : String}
      → matching E K T prompt first second ≡ ok p
      → (first ≡ p) × (first ≡ second)
  unfolding matching
  matching-ok first second h = elim (Bool-cases (first == second)) [
    | inl same ↦ (ok-injective (rw (matching, same) at h), (eq_iff first second).0 same)
    | inr other ↦ cc (rw (matching, other) at h)
  ]

  repeated-ok :
      (first : String) (w : W) {p : String}
      → is_empty_text p ≡ false
      → (repeated E K T prompt first w).0 ≡ ok p
      → (first ≡ p) × ((T.prompt_password "Enter same passphrase again: " w).0 ≡ ok p)
  unfolding repeated matching
  repeated-ok first w {p} solid h = elim (Bool-cases (is_empty_text first)) [
    | inl empty ↦
        let same : "" ≡ p = ok-injective (rw (repeated, empty) at h) in cc (rw (sym same) at solid)
    | inr other ↦
        let (second, typed, last, _) =
          bind-eq-ok (system E K T (T.prompt_password "Enter same passphrase again: "))
            (λ second. lift (matching E K T prompt first second)) w (rw (repeated, other) at h) in
        let (same, equal) = matching-ok first second last in
        (same, from_system-ok _ typed ∙ ap ok (sym equal ∙ same))
  ]

  prompt_new_passphrase-Chosen :
      (path : String) (given : Option String) (p : String) (w : W)
      → is_empty_text p ≡ false
      → (prompt_new_passphrase E K T prompt path w).0 ≡ ok p
      → Chosen path given w p
  unfolding prompt_new_passphrase
  prompt_new_passphrase-Chosen path given p w solid h = elim (Bool-cases (T.stderr_is_terminal w)) [
    | inr off ↦ asked_once off (rw (prompt_new_passphrase, off) at h)
    | inl on ↦
        let (first, typed, second, _) =
          bind-eq-ok
            (system E K T
              (T.prompt_password ("Enter new passphrase for " <> path <> " (empty for none): ")))
            (λ first. repeated E K T prompt first) w (rw (prompt_new_passphrase, on) at h) in
        let (same, again) = repeated-ok first _ solid second in
        typed_twice _ on (from_system-ok _ typed ∙ ap ok same) again
  ]

  -- A passphrase for a new key is not empty, was not refused by --no-passphrase, and was given on the
  -- command line, or typed twice at a terminal, or asked for once where there is none.
  pub resolve_new_passphrase-Chosen :
      (path : String) (given : Option String) (no_passphrase : Bool) (p : String) (w : W)
      → (resolve_new_passphrase E K T prompt path given no_passphrase w).0 ≡ ok (some p)
      → (no_passphrase ≡ false) × (is_empty_text p ≡ false) × Chosen path given w p
  unfolding resolve_new_passphrase
  resolve_new_passphrase-Chosen path given true p w h = cc
  resolve_new_passphrase-Chosen path (some q) false p w h =
      let (same, solid) = unless_empty-some q (ok-injective h) in
      (refl, solid, on_command_line (ap some same))
  resolve_new_passphrase-Chosen path none false p w h =
      let (q, asked, last, _) =
        bind-eq-ok (prompt_new_passphrase E K T prompt path)
          (λ p. give (some_unless_empty E K T prompt p)) w h in
      let (same, solid) = unless_empty-some q (ok-injective last) in
      (refl, solid, prompt_new_passphrase-Chosen path none p w solid (asked ∙ ap ok same))

  curve-kind : (bits : ℕ) → kind_of (curve E K T prompt bits) ≡ kind_in (curve_of E K T bits)
  unfolding curve curve_of
  curve-kind bits = elim (Bool-cases (nat_eq bits 256)) [
    | inl p256 ↦ rw (p256) refl
    | inr other ↦ elim (Bool-cases (nat_eq bits 384)) [
      | inl p384 ↦ rw (other, p384) refl
      | inr another ↦ elim (Bool-cases (nat_eq bits 521)) [
        | inl p521 ↦ rw (other, another, p521) refl
        | inr none_of ↦ rw (other, another, none_of) refl
      ]
    ]
  ]

  -- `gitway keygen generate` and gitway-keygen accept the same numbers of bits for the kinds of key
  -- that have the same name, and generate the same kind of key.
  pub resolve_kind-parse_kind :
      (alg : KeyAlg) (bits : Option ℕ)
      → kind_of (resolve_kind E K T prompt alg bits) ≡ kind_in (parse_kind E K T (name_of alg) bits)
  unfolding resolve_kind parse_kind lower_is
  resolve_kind-parse_kind alg_ed25519 bits = refl
  resolve_kind-parse_kind alg_rsa bits = refl
  resolve_kind-parse_kind alg_ecdsa bits = curve-kind (unwrap_or bits 256)
