-- ===== src/Biometric/Unlock/Laws.antt =====
-- `auto_unlock_passphrase` of gitway-cli/src/biometric/mod.rs over a lawful keystore.
use gitway.Base.{String, ◌≡◌, ◌≢◌, refl, ◌∙◌, Option, none, some, Result, ok, err}
use gitway.Keys.{Keys}
use gitway.Biometric.Vault.{BiometricVault, IsLawful, BiometricError}
use gitway.Biometric.Ids.{key_id, fingerprint_of}
use gitway.Biometric.Unlock.{
  AutoUnlock, passphrase, stale, fallback, checked, verified, auto_unlock_passphrase,
}

module _ {W : Type 0} (K : Keys) (v : BiometricVault W) (key : K.PrivateKey) where
  abbrev id : String
  id = key_id K key

  -- The three ways in which an automatic unlock can go.
  pub data Unlocks (w : W) : AutoUnlock → W → Type 0 where
    not_released :
        {e : BiometricError} → (v.retrieve id w).0 ≡ err e → Unlocks w fallback (v.retrieve id w).1
    released :
        {p : String} {k : K.PrivateKey}
        → (v.retrieve id w).0 ≡ ok p
        → K.decrypt key p ≡ ok k
        → Unlocks w (passphrase p) (v.retrieve id w).1
    outdated :
        {p e : String}
        → (v.retrieve id w).0 ≡ ok p
        → K.decrypt key p ≡ err e
        → Unlocks w stale (v.delete id (v.retrieve id w).1).1

  after_decrypt :
      (w : W) (p : String) (d : Result String K.PrivateKey)
      → (v.retrieve id w).0 ≡ ok p
      → K.decrypt key p ≡ d
      → Unlocks w
          (checked K v key p d (v.retrieve id w).1).0
          (checked K v key p d (v.retrieve id w).1).1
  unfolding checked
  after_decrypt w p (ok k) r q = released r q
  after_decrypt w p (err e) r q = outdated r q

  after_retrieve :
      (w : W) (r : Result BiometricError String)
      → (v.retrieve id w).0 ≡ r
      → Unlocks w (auto_unlock_passphrase K v key w).0 (auto_unlock_passphrase K v key w).1
  unfolding auto_unlock_passphrase
  after_retrieve w (ok p) r = rw (r, verified) (after_decrypt w p (K.decrypt key p) r refl)
  after_retrieve w (err e) r = rw (r, verified) (not_released r)

  -- `auto_unlock_passphrase` goes one of the three ways.
  pub auto_unlock_passphrase-Unlocks :
      (w : W) → Unlocks w (auto_unlock_passphrase K v key w).0 (auto_unlock_passphrase K v key w).1
  auto_unlock_passphrase-Unlocks w = after_retrieve w (v.retrieve id w).0 refl

  module _ {stored : W → String → Option String} (lawful : IsLawful v stored) where
    passphrase-stored :
        {w w' : W} {a : AutoUnlock} {p : String}
        → Unlocks w a w'
        → a ≡ passphrase p
        → (stored w id ≡ some p)
          × ((k : K.PrivateKey) × (K.decrypt key p ≡ ok k))
          × ((j : String) → stored w' j ≡ stored w j)
    passphrase-stored (not_released r) e = cc
    passphrase-stored {w} {p = q} (released {p} {k} r d) e =
        let same : p ≡ q = cc in
        (
          rw (← same) (lawful.retrieve_ok id p w r),
          (k, rw (← same) d),
          λ j. lawful.retrieve_keeps id j w,
        )
    passphrase-stored (outdated r d) e = cc

    -- A passphrase that is released is the one stored for this key, it decrypts the key, and no
    -- enrollment changes.
    pub auto_unlock_passphrase-released :
        (w : W) (p : String)
        → (auto_unlock_passphrase K v key w).0 ≡ passphrase p
        → (stored w id ≡ some p)
          × ((k : K.PrivateKey) × (K.decrypt key p ≡ ok k))
          × ((j : String) → stored (auto_unlock_passphrase K v key w).1 j ≡ stored w j)
    auto_unlock_passphrase-released w p e = passphrase-stored (auto_unlock_passphrase-Unlocks w) e

    stale-forgets :
        {w w' : W} {a : AutoUnlock}
        → Unlocks w a w'
        → a ≡ stale
        → (v.delete id (v.retrieve id w).1).0 ≡ ok tt
        → (stored w' id ≡ none)
          × ((j : String) → fingerprint_of id ≢ fingerprint_of j → stored w' j ≡ stored w j)
    stale-forgets (not_released r) e d = cc
    stale-forgets (released r q) e d = cc
    stale-forgets {w} (outdated r q) e d = (
      lawful.delete_ok id _ d,
      λ j other. lawful.delete_other id j _ other ∙ lawful.retrieve_keeps id j w,
    )

    missing-falls_back :
        {w w' : W} {a : AutoUnlock} → Unlocks w a w' → stored w id ≡ none → a ≡ fallback
    missing-falls_back (not_released r) h = refl
    missing-falls_back {w} (released {p} r q) h = cc (lawful.retrieve_ok id p w r)
    missing-falls_back {w} (outdated {p} r q) h = cc (lawful.retrieve_ok id p w r)

    -- A stale enrollment heals itself: once it is found stale and the keystore carries the
    -- removal out, it is gone, the enrollments of other fingerprints are as before, and the next attempt falls
    -- back to a typed passphrase without reporting it again.
    pub auto_unlock_passphrase-stale :
        (w : W)
        → (auto_unlock_passphrase K v key w).0 ≡ stale
        → (v.delete id (v.retrieve id w).1).0 ≡ ok tt
        → let w' = (auto_unlock_passphrase K v key w).1 in
          (stored w' id ≡ none)
          × ((j : String) → fingerprint_of id ≢ fingerprint_of j → stored w' j ≡ stored w j)
          × ((auto_unlock_passphrase K v key w').0 ≡ fallback)
    auto_unlock_passphrase-stale w e d =
        let (gone, others) = stale-forgets (auto_unlock_passphrase-Unlocks w) e d in
        (gone, others, missing-falls_back (auto_unlock_passphrase-Unlocks _) gone)
