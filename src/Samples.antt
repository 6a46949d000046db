-- ===== src/Samples.antt =====
-- Concrete values for what the model takes as parameters, used by the tests.
use gitway.Base.{
  ap, String, ◌<>◌, ◌==◌, eq_iff, ◌≡◌, ◌≢◌, refl, true, not, Option, none, some, List, Result, ok,
  err, if◌then◌else◌, is_some, keep_if, Bool-cases, inl, inr,
}
use gitway.Base.Io.{Io}
use gitway.Errors.{Errors}
use gitway.Host.{Host}
use gitway.Keys.{Keys}
use gitway.Biometric.Vault.{
  BiometricVault, IsLawful, BiometricError, not_enrolled, EnrolledKey, advisory,
}
use gitway.Biometric.Ids.{fingerprint_of, key_id_from_fingerprint}

-- Errors as their texts.
abbrev pub text_errors : Errors
text_errors = record {
  Error = String;
  invalid_config = λ text. text;
  signing = λ text. text;
  no_key_found = "no key found";
  authentication_failed = "authentication failed";
  debug = λ codes. "…";
}

-- A home directory in which every path exists.
abbrev pub full_host : Host
full_host = record { home_dir = some "/home/u"; exists = λ path. true; join = λ a b. a }

-- A key is the passphrase that it is encrypted under, or `plain`.
abbrev pub sample_keys : Keys
sample_keys = record {
  PrivateKey = String;
  PublicKey = String;
  parse_private = λ pem. if pem == "" then err "empty" else ok pem;
  parse_public = λ text. some text;
  is_encrypted = λ key. not (key == "plain");
  decrypt = λ key p. if key == p then ok "plain" else err "wrong passphrase";
  public_key = λ key. key;
  fingerprint = λ key hash. "SHA256:" <> key;
  to_openssh = λ key. ok key;
  algorithm = λ key. "ED25519";
}

abbrev pub Memory : Type 0
Memory = String → Option String

-- The passphrases that `w` holds, after `k` is given the entry `o`.
abbrev pub set : String → Option String → Memory → Memory
set k o w j = if k == j then o else w j

abbrev given : Option String → Result BiometricError String
given none = err not_enrolled
given (some p) = ok p

abbrev removed : String → Option String → Io Memory BiometricError (Unit {0})
removed k none w = (err not_enrolled, w)
removed k (some p) w = (ok tt, set k none w)

-- A keystore in memory, which lists those of `known` that it holds.
abbrev pub memory_vault : List EnrolledKey → BiometricVault Memory
memory_vault known = record {
  is_available = λ w. true;
  binding_tier = advisory;
  store = λ k p w. (ok tt, set k (some p) w);
  retrieve = λ k w. (given (w k), w);
  delete = λ k w. removed k (w k) w;
  list =
      λ w. (ok (keep_if (λ key. is_some (w (key_id_from_fingerprint key.fingerprint))) known), w);
}

abbrev pub held : Memory → String → Option String
held w k = w k

pub set-same : (k : String) (o : Option String) (w : Memory) → set k o w k ≡ o
set-same k o w = rw ((eq_iff k k).1 refl)

pub set-other : (k j : String) (o : Option String) (w : Memory) → k ≢ j → set k o w j ≡ w j
set-other k j o w differs = elim (Bool-cases (k == j)) [
  | inl same ↦ absurd (differs ((eq_iff k j).0 same))
  | inr other ↦ rw other
]

given-ok : (o : Option String) (p : String) → given o ≡ ok p → o ≡ some p
given-ok none p h = cc
given-ok (some q) p h = cc

removed-ok :
    (k : String) (o : Option String) (w : Memory)
    → (removed k o w).0 ≡ ok tt
    → held (removed k o w).1 k ≡ none
removed-ok k none w h = cc
removed-ok k (some p) w h = set-same k none w

removed-other :
    (k j : String) (o : Option String) (w : Memory) → k ≢ j → held (removed k o w).1 j ≡ w j
removed-other k j none w differs = refl
removed-other k j (some p) w differs = set-other k j none w differs

removed-missing :
    (k : String) (o : Option String) (w : Memory)
    → o ≡ w k
    → (removed k o w).0 ≡ err not_enrolled
    → held (removed k o w).1 k ≡ none
removed-missing k none w e h = cc
removed-missing k (some p) w e h = cc

-- The keystore in memory is lawful.
pub memory-IsLawful : (known : List EnrolledKey) → IsLawful (memory_vault known) held
memory-IsLawful known = record {
  store_ok = λ k p w h. set-same k (some p) w;
  store_other =
      λ k p j w differs. set-other k j (some p) w (λ same. differs (ap fingerprint_of same));
  retrieve_ok = λ k p w h. given-ok (w k) p h;
  retrieve_keeps = λ k j w. refl;
  delete_ok = λ k w h. removed-ok k (w k) w h;
  delete_other =
      λ k j w differs. removed-other k j (w k) w (λ same. differs (ap fingerprint_of same));
  delete_missing = λ k w h. removed-missing k (w k) w refl h;
}

-- A user who types `secret`.
abbrev pub types_secret : Io Memory String String
types_secret w = (ok "secret", w)

-- A user who is not there.
abbrev pub types_nothing : Io Memory String String
types_nothing w = (err "no terminal", w)

abbrev pub empty_memory : Memory
empty_memory k = none
