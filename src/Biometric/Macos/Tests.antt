-- ===== src/Biometric/Macos/Tests.antt =====
-- The macOS back end over a Keychain in memory.
use gitway.Base.{
  suc, String, ◌≡◌, ◌≢◌, refl, sym, ap, ok-injective, arith, Option, none, some, List, [], ◌∷◌, map,
  Result, ok, err, ◌<◌, ◌∙◌,
}
use gitway.Base.Io.{Io}
use gitway.Base.Text.{lookup}
use gitway.Samples.{text_errors, sample_keys}
use gitway.Biometric.Entries.{
  Entries, held, prompted, without, names, lookup-cons, lookup-other, lookup-without,
  lookup-without_other, names-lookup,
}
use gitway.Biometric.Ids.{key_id_from_fingerprint}
use gitway.Biometric.Vault.{Promises, enroll}
use gitway.Biometric.Unlock.Reachable.{Reachable}
use gitway.Biometric.Unlock.{load_private_key}
use gitway.Biometric.Macos.{Keychain, account_of, macos_vault}
use gitway.Biometric.Macos.Lawful.{IsKeychain}
use gitway.Biometric.Macos.Promised.{Answers, account_in, macos_vault-Promises}

abbrev found : Option String → Entries → Result String (Option String) × Entries
found none w = (err "-25300", w)
found (some p) (entries, n) = (ok (some p), (entries, suc n))

abbrev deleted : String → Option String → Entries → Result String (Unit {0}) × Entries
deleted a none w = (err "-25300", w)
deleted a (some p) (entries, n) = (ok tt, (without a entries, n))

-- A second item for an account is refused.
abbrev added : String → String → Option String → Entries → Result String (Unit {0}) × Entries
added a p none (entries, n) = (ok tt, ((a, p) ∷ entries, n))
added a p (some q) w = (err "-25299", w)

abbrev result_of : String × String → Option (List (String × String))
result_of (a, p) = some (("acct", a) ∷ [])

abbrev memory_keychain : Keychain Entries
memory_keychain = record {
  delete_password = λ a w. deleted a (held w a) w;
  set_password = λ label a p w. added a p (held w a) w;
  password = λ a w. found (held w a) w;
  search = λ w. (ok (map result_of (w.0)), w);
}

added-ok :
    (a p : String) (o : Option String) (w : Entries)
    → (added a p o w).0 ≡ ok tt
    → held (added a p o w).1 a ≡ some p
added-ok a p none (entries, n) h = lookup-cons a p entries
added-ok a p (some q) w h = cc

added-other :
    (a p b : String) (o : Option String) (w : Entries) → a ≢ b → held (added a p o w).1 b ≡ held w b
added-other a p b none (entries, n) differs = lookup-other a b p entries differs
added-other a p b (some q) w differs = refl

deleted-ok :
    (a : String) (o : Option String) (w : Entries)
    → (deleted a o w).0 ≡ ok tt
    → held (deleted a o w).1 a ≡ none
deleted-ok a none w h = cc
deleted-ok a (some p) (entries, n) h = lookup-without a entries

deleted-missing :
    (a e : String) (o : Option String) (w : Entries)
    → held w a ≡ o
    → (deleted a o w).0 ≡ err e
    → (held (deleted a o w).1 a ≡ none) × (held (deleted a o w).1 a ≡ held w a)
deleted-missing a e none w same h = (same, refl)
deleted-missing a e (some p) w same h = cc

deleted-other :
    (a b : String) (o : Option String) (w : Entries) → a ≢ b → held (deleted a o w).1 b ≡ held w b
deleted-other a b none w differs = refl
deleted-other a b (some p) (entries, n) differs = lookup-without_other a b entries differs

found-ok :
    (o : Option String) (w : Entries) (p : String)
    → (found o w).0 ≡ ok (some p)
    → (o ≡ some p) × (prompted w < prompted (found o w).1)
found-ok none w p h = cc
found-ok (some q) (entries, n) p h = (cc, omega arith)

found-missing : (o : Option String) (w : Entries) → (found o w).0 ≡ err "-25300" → o ≡ none
found-missing none w h = refl
found-missing (some q) w h = cc

found-keeps : (o : Option String) (w : Entries) (b : String) → held (found o w).1 b ≡ held w b
found-keeps none w b = refl
found-keeps (some p) (entries, n) b = refl

accounts :
    (entries : List (String × String))
    → map account_in (map result_of entries) ≡ map some (names entries)
unfolding lookup
accounts [] = refl
accounts ((a, p) ∷ entries) = ap (λ others. some a ∷ others) (accounts entries)

memory_keychain-IsKeychain : IsKeychain memory_keychain held
memory_keychain-IsKeychain = record {
  set_ok = λ label a p w h. added-ok a p (held w a) w h;
  set_other = λ label a p b w differs. added-other a p b (held w a) w differs;
  delete_ok = λ a w h. deleted-ok a (held w a) w h;
  delete_missing = λ a w h. (deleted-missing a "-25300" (held w a) w refl h).0;
  delete_other = λ a b w differs. deleted-other a b (held w a) w differs;
  password_ok = λ a p w h. (found-ok (held w a) w p h).0;
  password_keeps = λ a b w. found-keeps (held w a) w b;
}

memory_keychain-Answers : Answers memory_keychain held prompted (λ w. Unit)
memory_keychain-Answers = record {
  password_absent = λ a w up free. rw free refl;
  password_missing = λ a w h. found-missing (held w a) w h;
  password_unprompted = λ a w free. rw free refl;
  password_prompts = λ a p w h. (found-ok (held w a) w p h).1;
  delete_absent = λ a w up free. rw free refl;
  delete_present = λ a p w up there. rw there refl;
  delete_answers = λ a w up. tt;
  set_free = λ label a p w up free. rw free refl;
  search_accounts = λ results w h. (
    names (w.0),
    ap (map account_in) (sym (ok-injective h)) ∙ accounts (w.0),
    names-lookup (w.0),
  );
  search_missing = λ w h. cc;
}

macos_vault-Promises_example :
    Promises (macos_vault memory_keychain) (λ w id. held w (account_of id)) prompted (λ w. Unit)
macos_vault-Promises_example =
    macos_vault-Promises memory_keychain memory_keychain-IsKeychain memory_keychain-Answers

abbrev types_secret : Io Entries String String
types_secret w = (ok "secret", w)

-- One load by a user who asks for enrollment, and a removal of another key.
abbrev enrolled : Entries
enrolled =
    (load_private_key sample_keys (macos_vault memory_keychain) text_errors types_secret "" "secret"
      enroll ([], 0)).1

abbrev last_state : Entries
last_state =
    ((macos_vault memory_keychain).delete (key_id_from_fingerprint "SHA256:other") enrolled).1
