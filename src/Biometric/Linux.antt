-- ===== src/Biometric/Linux.antt =====
-- `LinuxVault` of gitway-cli/src/biometric/linux.rs: the fingerprint check before the secret of the
-- Secret Service keyring, the parameter `Keyring`, whose errors are their texts.
pub mod Matched
mod Tests
use gitway.Base.{
  ℕ, String, ◌<>◌, ◌==◌, Bool, true, false, Option, none, some, List, [], ◌∷◌, ◌++◌, map, Result,
  ok, err, if◌then◌else◌, or_else, unwrap_or,
}
use gitway.Base.Io.{Io, ◌>>=◌, give, lift, fail}
use gitway.Base.Text.{lookup}
use gitway.Biometric.Vault.{
  BiometricVault, BiometricError, not_enrolled, cancelled, unavailable, backend, EnrolledKey,
  advisory,
}
use gitway.Biometric.Ids.{fingerprint_of}
use gitway.Biometric.Fingerprint.{Fprint, with_error, ignoring, verify_fingerprint}

-- The Secret Service through the crate oo7.
pub record Keyring (W : Type 0) : Type 1 where
  pub Item : Type 0
  pub open_default : Io W String (Unit {0})
  pub probe_default : Io W (Unit {0}) (Result String (Unit {0}))
  pub unlock : Io W String (Unit {0})
  pub create_item : String → List (String × String) → String → Bool → Io W String (Unit {0})
  pub search_items : List (String × String) → Io W String (List Item)
  pub delete : List (String × String) → Io W String (Unit {0})
  -- The secret as a text, or `none` where its bytes are not UTF-8.
  pub secret : Item → Io W String (Option String)
  pub attributes_of : Item → Io W String (List (String × String))

unfoldable pub attributes : String → List (String × String)
attributes id =
    ("application", "gitway")
    ∷ ("type", "ssh-passphrase")
    ∷ ("key-id", id)
    ∷ ("fingerprint", fingerprint_of id)
    ∷ []

abbrev expired : {A : Type 0} → Result (Unit {0}) A → Result BiometricError A
expired (ok a) = ok a
expired (err _) = err (unavailable "D-Bus call timed out")

module _ {W : Type 0} where
  -- `timeout`, where an operation that reaches its deadline ends in the error `tt`.
  abbrev pub timeout : {A : Type 0} → Io W (Unit {0}) A → Io W BiometricError A
  timeout m w = let (r, w') = m w in (expired r, w')

module _ {W : Type 0} (F : Fprint W) (S : Keyring W) where
  -- A failure to unlock is ignored.
  unfoldable pub open_keyring : Io W BiometricError (Unit {0})
  open_keyring = with_error (λ e. unavailable ("keyring: " <> e)) S.open_default >>= λ _.
      λ w. (ok tt, ignoring S.unlock w)

  unfoldable pub store : String → String → Io W BiometricError (Unit {0})
  unfolding open_keyring attributes
  store id passphrase = open_keyring >>= λ _.
      with_error (λ e. backend ("keyring write: " <> e))
        (S.create_item ("Gitway SSH passphrase (" <> fingerprint_of id <> ")") (attributes id)
          passphrase true)

  abbrev pub search : List (String × String) → Io W BiometricError (List S.Item)
  search query = with_error (λ e. backend ("keyring search: " <> e)) (S.search_items query)

  abbrev pub text_of : Option String → Result BiometricError String
  text_of none = err (backend "stored passphrase is not valid UTF-8")
  text_of (some text) = ok text

  -- The first item that was found: the fingerprint, then the secret.
  unfoldable pub released_item : List S.Item → Io W BiometricError String
  unfolding verify_fingerprint
  released_item [] = fail not_enrolled
  released_item (item ∷ items) = verify_fingerprint F >>= λ _.
      with_error (λ e. backend ("keyring read: " <> e)) (S.secret item) >>= λ text.
      lift (text_of text)

  unfoldable pub retrieve : String → Io W BiometricError String
  unfolding open_keyring attributes released_item
  retrieve id = open_keyring >>= λ _. search (attributes id) >>= λ items. released_item items

  pub deleted_items : String → List S.Item → Io W BiometricError (Unit {0})
  unfolding attributes
  deleted_items id [] = fail not_enrolled
  deleted_items id (item ∷ items) =
      with_error (λ e. backend ("keyring delete: " <> e)) (S.delete (attributes id))

  unfoldable pub delete : String → Io W BiometricError (Unit {0})
  unfolding open_keyring attributes deleted_items
  delete id = open_keyring >>= λ _. search (attributes id) >>= λ items. deleted_items id items

  enrolled_of : List (String × String) → EnrolledKey
  unfolding lookup
  enrolled_of attrs = record {
    fingerprint =
        unwrap_or
          (or_else (lookup "fingerprint" attrs)
            (elim (lookup "key-id" attrs) [ none ↦ none | some id ↦ some (fingerprint_of id) ]))
          "";
    comment = lookup "comment" attrs;
  }

  unfoldable pub enrolled_items : List S.Item → Io W BiometricError (List EnrolledKey)
  unfolding enrolled_of
  enrolled_items [] = give []
  enrolled_items (item ∷ items) =
      with_error (λ e. backend ("keyring attributes: " <> e)) (S.attributes_of item) >>= λ attrs.
      enrolled_items items >>= λ keys. give (enrolled_of attrs ∷ keys)

  unfoldable pub list : Io W BiometricError (List EnrolledKey)
  unfolding open_keyring enrolled_items
  list = open_keyring >>= λ _.
      search (("application", "gitway") ∷ ("type", "ssh-passphrase") ∷ []) >>= λ items.
      enrolled_items items

  probed : Result String (Unit {0}) → (String → String) → Io W BiometricError (Unit {0})
  probed (ok _) text = give tt
  probed (err e) text = fail (unavailable (text e))

  pub probe : Io W BiometricError (Unit {0})
  unfolding probed
  probe = with_error (λ e. unavailable ("system bus: " <> e)) F.system_bus >>= λ _.
      with_error (λ e. unavailable ("fprintd manager: " <> e)) F.manager >>= λ _.
      timeout F.probe_device >>= λ r. probed r (λ e. "no fingerprint device: " <> e) >>= λ _.
      timeout S.probe_default >>= λ q. probed q (λ e. "no keyring: " <> e)

  abbrev is_ok : Result BiometricError (Unit {0}) → Bool
  is_ok (ok _) = true
  is_ok (err e) = false

  unfoldable pub linux_vault : BiometricVault W
  unfolding probe store retrieve delete list
  linux_vault = record {
    is_available = λ w. is_ok (probe w).0;
    binding_tier = advisory;
    store = store;
    retrieve = retrieve;
    delete = delete;
    list = list;
  }
