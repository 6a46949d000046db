-- ===== src/Biometric/Unlock/Reachable.antt =====
-- The keystore over any sequence of key loads (`load_private_key` of gitway-cli/src/agent.rs, in any mode) and
-- removals (`delete` of the trait in gitway-cli/src/biometric/mod.rs).
use gitway.Base.{
  String, ◌==◌, eq_iff, ◌≡◌, ◌≢◌, ◌⊎◌, inl, inr, refl, sym, ◌∙◌, Option, none, some, ok, Bool-cases,
  arith,
}
use gitway.Base.Io.{Io, bind-state, bind-run, ◌>>=◌, lift}
use gitway.Errors.{Errors}
use gitway.Keys.{Keys}
use gitway.KeygenShim.Args.{sha256}
use gitway.Biometric.Vault.{BiometricVault, IsLawful, UnlockMode, auto, enroll, disabled}
use gitway.Biometric.Ids.{
  key_id, fingerprint_of, key_id_from_fingerprint, fingerprint_of-key_id_from_fingerprint,
}
use gitway.Biometric.Unlock.{
  AutoUnlock, decrypt, enrolling, typed, from_auto, by_mode, load_private_key,
}
use gitway.Biometric.Unlock.Laws.{
  Unlocks, not_released, released, outdated, auto_unlock_passphrase-Unlocks,
}

-- What an operation that may fail leaves under its own identifier: a `store` the new passphrase, the old
-- one or none, and a `delete` the old one or none.
pub record IsAtomic {W : Type 0} (v : BiometricVault W) (stored : W → String → Option String)
    : Type 0 where
  pub store_own :
      (k p : String) (w : W)
      → (stored (v.store k p w).1 k ≡ some p)
        ⊎ ((stored (v.store k p w).1 k ≡ stored w k) ⊎ (stored (v.store k p w).1 k ≡ none))
  pub delete_own :
      (k : String) (w : W)
      → (stored (v.delete k w).1 k ≡ stored w k) ⊎ (stored (v.delete k w).1 k ≡ none)

module _ {W : Type 0} (K : Keys) (v : BiometricVault W) (E : Errors)
    (stored : W → String → Option String) where
  abbrev pub fp : K.PrivateKey → String
  fp key = K.fingerprint (K.public_key key) sha256

  -- A key of this fingerprint that the passphrase decrypts.
  pub record Opens (fingerprint p : String) : Type 0 where
    pub key : K.PrivateKey
    pub plain : K.PrivateKey
    pub same_fingerprint : fp key ≡ fingerprint
    pub decrypts : K.decrypt key p ≡ ok plain

  abbrev pub Sound : W → Type 0
  Sound w = (f p : String) → stored w (key_id_from_fingerprint f) ≡ some p → Opens f p

  -- One use of the keystore. A prompt leaves it alone.
  pub data Step (w : W) : W → Type 0 where
    loads :
        (key : K.PrivateKey) (mode : UnlockMode) (failed : String) (prompt : Io W E.Error String)
        → ((j : String) (u : W) → stored (prompt u).1 j ≡ stored u j)
        → Step w (load_private_key K v E prompt failed key mode w).1
    forgets : (f : String) → Step w (v.delete (key_id_from_fingerprint f) w).1

  pub data Reachable (start : W) : W → Type 0 where
    here : Reachable start start
    further : {u w : W} → Reachable start u → Step u w → Reachable start w

  module _ (lawful : IsLawful v stored) (atomic : IsAtomic v stored) where
    apart :
        (f g : String)
        → f ≢ g
        → fingerprint_of (key_id_from_fingerprint f) ≢ fingerprint_of (key_id_from_fingerprint g)
    apart f g differs same = differs (
        sym (fingerprint_of-key_id_from_fingerprint f)
        ∙ (same ∙ fingerprint_of-key_id_from_fingerprint g))

    kept-Sound : (u w : W) → ((j : String) → stored u j ≡ stored w j) → Sound w → Sound u
    kept-Sound u w kept sound f p h = sound f p (sym (kept _) ∙ h)

    own_delete :
        (g p : String) (w : W)
        → Sound w
        → stored (v.delete (key_id_from_fingerprint g) w).1 (key_id_from_fingerprint g) ≡ some p
        → Opens g p
    own_delete g p w sound h = elim (atomic.delete_own (key_id_from_fingerprint g) w) [
      | inl old ↦ sound g p (sym old ∙ h)
      | inr gone ↦ cc
    ]

    delete-Sound : (g : String) (w : W) → Sound w → Sound (v.delete (key_id_from_fingerprint g) w).1
    delete-Sound g w sound f p h = elim (Bool-cases (g == f)) [
      | inl equal ↦
          let same : g ≡ f = (eq_iff g f).0 equal in
          rw same at (own_delete g p w sound (rw (sym same) at h))
      | inr other ↦ sound f p (
          sym (
            lawful.delete_other (key_id_from_fingerprint g) (key_id_from_fingerprint f) w
              (apart g f (λ same. cc (rw ((eq_iff g f).1 same) at other))))
          ∙ h)
    ]

    own_store :
        (key plain : K.PrivateKey) (q p : String) (w : W)
        → K.decrypt key q ≡ ok plain
        → Sound w
        → stored
            (v.store (key_id_from_fingerprint (fp key)) q w).1
            (key_id_from_fingerprint (fp key))
          ≡ some p
        → Opens (fp key) p
    own_store key plain q p w opens sound h =
        elim (atomic.store_own (key_id_from_fingerprint (fp key)) q w) [
          | inl new ↦
              let same : q ≡ p = cc in
              record {
                key = key;
                plain = plain;
                same_fingerprint = refl;
                decrypts = rw same at opens;
              }
          | inr other ↦ elim other [ inl old ↦ sound (fp key) p (sym old ∙ h) | inr gone ↦ cc ]
        ]

    store-Sound :
        (key plain : K.PrivateKey) (q : String) (w : W)
        → K.decrypt key q ≡ ok plain
        → Sound w
        → Sound (v.store (key_id_from_fingerprint (fp key)) q w).1
    store-Sound key plain q w opens sound f p h = elim (Bool-cases (fp key == f)) [
      | inl equal ↦
          let same : fp key ≡ f = (eq_iff (fp key) f).0 equal in
          rw same at (own_store key plain q p w opens sound (rw (sym same) at h))
      | inr other ↦ sound f p (
          sym (
            lawful.store_other (key_id_from_fingerprint (fp key)) q (key_id_from_fingerprint f) w
              (apart (fp key) f (λ same. cc (rw ((eq_iff (fp key) f).1 same) at other))))
          ∙ h)
    ]

    module _ (key : K.PrivateKey) (failed : String) (prompt : Io W E.Error String)
        (quiet : (j : String) (u : W) → stored (prompt u).1 j ≡ stored u j) where
      prompt-Sound : (w : W) → Sound w → Sound (prompt w).1
      prompt-Sound w sound = kept-Sound (prompt w).1 w (λ j. quiet j w) sound

      typed-Sound : (w : W) → Sound w → Sound (typed K v E prompt failed key w).1
      unfolding typed
      typed-Sound w sound =
          bind-state Sound prompt (λ p. lift (decrypt K E failed key p)) w
            (λ e _. prompt-Sound w sound) (λ p. prompt-Sound w sound)

      decrypt-ok :
          (p : String) {k : K.PrivateKey} → decrypt K E failed key p ≡ ok k → K.decrypt key p ≡ ok k
      unfolding decrypt
      decrypt-ok p h = ground arith

      enrolling-Sound : (w : W) → Sound w → Sound (enrolling K v E prompt failed key w).1
      unfolding enrolling key_id key_id_from_fingerprint
      enrolling-Sound w sound =
          bind-state Sound prompt
            (λ p.
              lift (decrypt K E failed key p) >>= λ k. λ u. (ok k, (v.store (key_id K key) p u).1))
            w (λ e _. prompt-Sound w sound)
            (λ p.
              bind-run (λ (_, u). Sound u) (lift (decrypt K E failed key p))
                (λ k. λ u. (ok k, (v.store (key_id K key) p u).1)) _ (λ e _. prompt-Sound w sound)
                (λ k h. store-Sound key k p _ (decrypt-ok p h) (prompt-Sound w sound)))

      unlocks-Sound :
          {a : AutoUnlock} {w u : W}
          → Unlocks K v key w a u
          → Sound w
          → Sound (from_auto K v E prompt failed key a u).1
      unfolding from_auto key_id key_id_from_fingerprint
      unlocks-Sound {w = w} (not_released r) sound =
          typed-Sound _ (kept-Sound _ w (λ j. lawful.retrieve_keeps _ j w) sound)
      unlocks-Sound {w = w} (released r d) sound =
          kept-Sound _ w (λ j. lawful.retrieve_keeps _ j w) sound
      unlocks-Sound {w = w} (outdated r d) sound =
          typed-Sound _
            (delete-Sound (fp key) _ (kept-Sound _ w (λ j. lawful.retrieve_keeps _ j w) sound))

      by_mode-Sound :
          (mode : UnlockMode) (w : W) → Sound w → Sound (by_mode K v E prompt failed key mode w).1
      unfolding by_mode
      by_mode-Sound disabled w sound = typed-Sound w sound
      by_mode-Sound enroll w sound = enrolling-Sound w sound
      by_mode-Sound auto w sound = unlocks-Sound (auto_unlock_passphrase-Unlocks K v key w) sound

      load-Sound :
          (mode : UnlockMode) (w : W)
          → Sound w
          → Sound (load_private_key K v E prompt failed key mode w).1
      unfolding load_private_key
      load-Sound mode w sound = elim (Bool-cases (K.is_encrypted key)) [
        | inr plain ↦ rw (load_private_key, plain) sound
        | inl encrypted ↦ rw (load_private_key, encrypted) (by_mode-Sound mode w sound)
      ]

    Reachable-Sound : {start w : W} → Reachable start w → Sound start → Sound w
    Reachable-Sound here sound = sound
    Reachable-Sound (further before (loads key mode failed prompt quiet)) sound =
        load-Sound key failed prompt quiet mode _ (Reachable-Sound before sound)
    Reachable-Sound (further before (forgets f)) sound =
        delete-Sound f _ (Reachable-Sound before sound)

    -- In every state that is reached by loading keys in any mode, each with a prompt of its own, and by
    -- removals, a passphrase in the keystore decrypts a key of the fingerprint that it is stored under,
    -- where this was so at the start.
    pub Reachable-Opens :
        {start w : W} (f p : String)
        → Reachable start w
        → Sound start
        → stored w (key_id_from_fingerprint f) ≡ some p
        → Opens f p
    Reachable-Opens f p reached sound h = Reachable-Sound reached sound f p h
