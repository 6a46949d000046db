-- ===== src/Biometric/Macos/Promised.antt =====
-- `MacosVault` of gitway-cli/src/biometric/macos.rs: the answers that the trait promises.
use gitway.Base.{
  ok-injective, ℕ, ◌<◌, ◌↔◌, inl, inr, String, ◌==◌, eq_iff, ◌≡◌, refl, sym, ◌∙◌, ap, true,
  Bool-cases, Option, none, some, is_some, List, [], ◌∷◌, map, Result, ok, err,
}
use gitway.Base.Listed.{Listed, none_listed}
use gitway.Base.Text.{lookup}
use gitway.Biometric.Vault.{Promises, not_enrolled, EnrolledKey, fingerprints}
use gitway.Biometric.Ids.{fingerprint_of, fingerprint_of-key_id_from_fingerprint}
use gitway.Biometric.Macos.{
  Keychain, err_sec_item_not_found, map_error, mapped, text_of, enrolled_keys, listed, account_of,
  store, retrieve, delete, list, macos_vault,
}
use gitway.Biometric.Macos.Lawful.{IsKeychain, map_error-not_enrolled, macos_vault-IsLawful}

-- The account of a result of the search.
abbrev pub account_in : Option (List (String × String)) → Option String
account_in none = none
account_in (some attributes) = lookup "acct" attributes

-- What the Keychain documents of its answers: `prompts` counts the requests for the user's presence, and
-- `answers` holds of the states in which it grants what it is asked.
pub record Answers {W : Type 0} (C : Keychain W) (held : W → String → Option String)
    (prompts : W → ℕ) (answers : W → Type 0) : Type 0 where
  pub password_absent :
      (a : String) (w : W)
      → answers w
      → held w a ≡ none
      → (C.password a w).0 ≡ err err_sec_item_not_found
  pub password_missing :
      (a : String) (w : W) → (C.password a w).0 ≡ err err_sec_item_not_found → held w a ≡ none
  pub password_unprompted :
      (a : String) (w : W) → held w a ≡ none → prompts (C.password a w).1 ≡ prompts w
  pub password_prompts :
      (a p : String) (w : W)
      → (C.password a w).0 ≡ ok (some p)
      → prompts w < prompts (C.password a w).1
  pub delete_absent :
      (a : String) (w : W)
      → answers w
      → held w a ≡ none
      → (C.delete_password a w).0 ≡ err err_sec_item_not_found
  pub delete_present :
      (a p : String) (w : W) → answers w → held w a ≡ some p → (C.delete_password a w).0 ≡ ok tt
  pub delete_answers : (a : String) (w : W) → answers w → answers (C.delete_password a w).1
  -- A second item for an account is refused, so nothing is said where there is one.
  pub set_free :
      (label a p : String) (w : W)
      → answers w
      → held w a ≡ none
      → (C.set_password label a p w).0 ≡ ok tt
  pub search_accounts :
      (results : List (Option (List (String × String)))) (w : W)
      → (C.search w).0 ≡ ok results
      → (accounts : List String) × (map account_in results ≡ map some accounts)
        × ((a : String) → Listed a accounts ↔ (is_some (held w a) ≡ true))
  pub search_missing :
      (w : W) → (C.search w).0 ≡ err err_sec_item_not_found → (a : String) → held w a ≡ none

map_error-not_found : map_error err_sec_item_not_found ≡ not_enrolled
unfolding map_error
map_error-not_found = refl

text_of-not_enrolled :
    (r : Result String (Option String))
    → text_of r ≡ err not_enrolled
    → r ≡ err err_sec_item_not_found
text_of-not_enrolled (ok none) h = cc
text_of-not_enrolled (ok (some p)) h = cc
text_of-not_enrolled (err code) h =
    let same : map_error code ≡ not_enrolled = cc in ap err (map_error-not_enrolled code same)

text_of-ok : (r : Result String (Option String)) {p : String} → text_of r ≡ ok p → r ≡ ok (some p)
text_of-ok (err code) h = cc
text_of-ok (ok none) h = cc
text_of-ok (ok (some p)) h = cc

-- The fingerprints of a listing are the accounts of its results.
fingerprints-enrolled_keys :
    (results : List (Option (List (String × String)))) (accounts : List String)
    → map account_in results ≡ map some accounts
    → fingerprints (enrolled_keys results) ≡ accounts
unfolding enrolled_keys
fingerprints-enrolled_keys [] [] h = refl
fingerprints-enrolled_keys [] (a ∷ accounts) h = cc
fingerprints-enrolled_keys (r ∷ results) [] h = cc
fingerprints-enrolled_keys (none ∷ results) (a ∷ accounts) h = cc
fingerprints-enrolled_keys (some attributes ∷ results) (a ∷ accounts) h =
    let first : lookup "acct" attributes ≡ some a = cc in
    let rest : map account_in results ≡ map some accounts = cc in
    let others = fingerprints-enrolled_keys results accounts rest in
    rw first (ap (λ names. a ∷ names) others)

module _ {W : Type 0} (C : Keychain W) {held : W → String → Option String} {prompts : W → ℕ}
    {answers : W → Type 0} (laws : IsKeychain C held)
    (replies : Answers C held prompts answers) where
  -- An account is free after the deletion that precedes a write.
  delete_password-free :
      (a : String) (w : W) (o : Option String)
      → answers w
      → held w a ≡ o
      → held (C.delete_password a w).1 a ≡ none
  delete_password-free a w none up free =
      laws.delete_missing a w (replies.delete_absent a w up free)
  delete_password-free a w (some p) up there =
      laws.delete_ok a w (replies.delete_present a p w up there)

  listed-shows :
      (keys : List EnrolledKey) (w : W) (r : Result String (List (Option (List (String × String)))))
      → (C.search w).0 ≡ r
      → listed r ≡ ok keys
      → (a : String) → Listed a (fingerprints keys) ↔ (is_some (held w a) ≡ true)
  unfolding listed
  listed-shows keys w (ok results) found h a =
      let (accounts, named, shows) = replies.search_accounts results w found in
      let same : enrolled_keys results ≡ keys = cc in
      rw (sym same, fingerprints-enrolled_keys results accounts named) (shows a)
  listed-shows keys w (err code) found h a = elim (Bool-cases (code == err_sec_item_not_found)) [
    | inr other ↦ cc (rw other at h)
    | inl missing ↦
        let empty : [] ≡ keys = ok-injective (rw missing at h) in
        let named : code ≡ err_sec_item_not_found = (eq_iff _ _).0 missing in
        let free : held w a ≡ none = replies.search_missing w (found ∙ ap err named) a in
        rw (sym empty, free) ((λ l. none_listed l), λ some_held. cc)
  ]

  -- Over a Keychain that does and answers what it documents, the macOS back end keeps what the trait
  -- promises of its effects and its answers, with the passphrase of a key under the account of its
  -- fingerprint.
  pub macos_vault-Promises :
      Promises (macos_vault C) (λ w id. held w (account_of id)) prompts answers
  unfolding macos_vault store retrieve delete list account_of
  macos_vault-Promises = record {
    lawful = macos_vault-IsLawful C laws;
    store_accepts = λ k p w up. ap mapped (
        replies.set_free _ (fingerprint_of k) p _ (replies.delete_answers (fingerprint_of k) w up)
          (delete_password-free (fingerprint_of k) w _ up refl));
    retrieve_missing = λ k w up free.
        ap text_of (replies.password_absent (fingerprint_of k) w up free)
        ∙ ap err map_error-not_found;
    retrieve_not_enrolled =
        λ k w h. replies.password_missing (fingerprint_of k) w (text_of-not_enrolled _ h);
    retrieve_unprompted = λ k w free. replies.password_unprompted (fingerprint_of k) w free;
    retrieve_prompts = λ k p w h. replies.password_prompts (fingerprint_of k) p w (text_of-ok _ h);
    delete_absent = λ k w up free.
        ap mapped (replies.delete_absent (fingerprint_of k) w up free) ∙ ap err map_error-not_found;
    list_shows = λ keys w h f.
        rw (fingerprint_of-key_id_from_fingerprint f) (listed-shows keys w _ refl h f);
  }
