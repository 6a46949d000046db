-- ===== src/Biometric/Unlock/Load.antt =====
-- Loading a key through `load_private_key` of gitway-cli/src/agent.rs.
use gitway.Base.{String, ◌≡◌, true, Option, ok, arith, Bool-cases, inl, inr}
use gitway.Base.Io.{Io}
use gitway.Errors.{Errors}
use gitway.Keys.{Keys}
use gitway.Biometric.Vault.{BiometricVault, IsLawful, auto, enroll}
use gitway.Biometric.Ids.{key_id}
use gitway.Biometric.Unlock.{
  AutoUnlock, auto_unlock_passphrase, typed, decrypt, enrolling, from_auto, load_private_key,
}
use gitway.Biometric.Unlock.Laws.{
  Unlocks, not_released, released, outdated, auto_unlock_passphrase-Unlocks,
}

module _ {W : Type 0} (K : Keys) (v : BiometricVault W) (key : K.PrivateKey) (E : Errors) where
  abbrev Prompt : Type 0
  Prompt = Io W E.Error String

  module _ (prompt : Prompt) (failed p : String) (k : K.PrivateKey) where
    typed-ok :
        (w : W)
        → (prompt w).0 ≡ ok p
        → K.decrypt key p ≡ ok k
        → (typed K v E prompt failed key w).0 ≡ ok k
    unfolding typed decrypt
    typed-ok w h d = ground arith

    from_auto-ok :
        {w w' : W} {a : AutoUnlock}
        → Unlocks K v key w a w'
        → (prompt w').0 ≡ ok p
        → K.decrypt key p ≡ ok k
        → (k' : K.PrivateKey) × ((from_auto K v E prompt failed key a w').0 ≡ ok k')
    unfolding from_auto
    from_auto-ok {w'} (not_released r) h d = (k, typed-ok w' h d)
    from_auto-ok {w'} (released {k = k'} r q) h d = (k', ground arith)
    from_auto-ok {w'} (outdated r q) h d = (k, typed-ok w' h d)

    -- Biometric unlock never stands in the way: where the passphrase that the user would type
    -- opens the key, loading it succeeds whatever the keystore and the sensor do.
    pub load_private_key-ok :
        (w : W)
        → ((u : W) → (prompt u).0 ≡ ok p)
        → K.decrypt key p ≡ ok k
        → (k' : K.PrivateKey) × ((load_private_key K v E prompt failed key auto w).0 ≡ ok k')
    unfolding load_private_key
    load_private_key-ok w h d = elim (Bool-cases (K.is_encrypted key)) [
      | inl encrypted ↦ rw (encrypted) (
          from_auto-ok (auto_unlock_passphrase-Unlocks K v key w)
            (h (auto_unlock_passphrase K v key w).1) d)
      | inr plain ↦ (key, rw plain)
    ]

    enrolling-ok :
        (w : W)
        → (prompt w).0 ≡ ok p
        → K.decrypt key p ≡ ok k
        → enrolling K v E prompt failed key w ≡ (ok k, (v.store (key_id K key) p (prompt w).1).1)
    unfolding enrolling decrypt
    enrolling-ok w h d = rw (h, decrypt, d)

  unlocks-again :
      {w w' : W} {a : AutoUnlock} {p : String} (k : K.PrivateKey) (prompt : Prompt)
      (failed : String)
      → Unlocks K v key w a w'
      → (v.retrieve (key_id K key) w).0 ≡ ok p
      → K.decrypt key p ≡ ok k
      → (from_auto K v E prompt failed key a w').0 ≡ ok k
  unfolding from_auto decrypt
  unlocks-again k prompt failed (not_released r) h d = cc (r, h)
  unlocks-again k prompt failed (released r q) h d = ground arith
  unlocks-again k prompt failed (outdated r q) h d = ground arith

  load_again :
      {w : W} {p : String} (k : K.PrivateKey) (prompt : Prompt) (failed : String)
      → K.is_encrypted key ≡ true
      → (v.retrieve (key_id K key) w).0 ≡ ok p
      → K.decrypt key p ≡ ok k
      → (load_private_key K v E prompt failed key auto w).0 ≡ ok k
  unfolding load_private_key
  load_again {w} k prompt failed c r d =
      rw c (unlocks-again k prompt failed (auto_unlock_passphrase-Unlocks K v key w) r d)

  load_private_key-enrolling :
      (prompt : Prompt) (failed p : String) (k : K.PrivateKey) (w : W)
      → K.is_encrypted key ≡ true
      → (prompt w).0 ≡ ok p
      → K.decrypt key p ≡ ok k
      → load_private_key K v E prompt failed key enroll w
        ≡ (ok k, (v.store (key_id K key) p (prompt w).1).1)
  unfolding load_private_key
  load_private_key-enrolling prompt failed p k w c h d = rw c (enrolling-ok prompt failed p k w h d)

  module _ {stored : W → String → Option String} (lawful : IsLawful v stored) where
    -- Enrolling loads the key with the typed passphrase and stores it. If the keystore took it,
    -- then the next load that the keystore releases a passphrase for gives the same key, and
    -- asks for nothing: it does so with every `prompt'`, also one that fails.
    pub load_private_key-enroll :
        (prompt prompt' : Prompt) (failed failed' p q : String) (k : K.PrivateKey) (w : W)
        → K.is_encrypted key ≡ true
        → (prompt w).0 ≡ ok p
        → K.decrypt key p ≡ ok k
        → (v.store (key_id K key) p (prompt w).1).0 ≡ ok tt
        → (v.retrieve (key_id K key) (load_private_key K v E prompt failed key enroll w).1).0 ≡ ok q
        → ((load_private_key K v E prompt failed key enroll w).0 ≡ ok k)
          × ((load_private_key K v E prompt' failed' key auto
                (load_private_key K v E prompt failed key enroll w).1).0
              ≡ ok k)
    load_private_key-enroll prompt prompt' failed failed' p q k w c h d s r =
        let done = load_private_key-enrolling prompt failed p k w c h d in
        let kept = lawful.store_ok (key_id K key) p (prompt w).1 s in
        let given = rw done at r in
        let found = lawful.retrieve_ok (key_id K key) q _ given in
        let same : q ≡ p = cc in
        (rw done, rw done (load_again k prompt' failed' c given (rw same d)))
