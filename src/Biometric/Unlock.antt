-- ===== src/Biometric/Unlock.antt =====
-- `auto_unlock`, `AutoUnlock` and `auto_unlock_passphrase` of gitway-cli/src/biometric/mod.rs, and
-- `load_private_key` of gitway-cli/src/agent.rs, which is `load_and_decrypt` of
-- gitway-cli/src/bin/gitway-add.rs with other messages.
pub mod Laws
pub mod Load
pub mod Reachable
use gitway.Base.{String, ◌<>◌, Option, none, some, Result, ok, err, if◌then◌else◌, not}
use gitway.Base.Io.{Io, ◌>>=◌, give, lift}
use gitway.Errors.{Errors}
use gitway.Keys.{Keys}
use gitway.Biometric.Vault.{BiometricVault, BiometricError, UnlockMode, auto, enroll, disabled}
use gitway.Biometric.Ids.{key_id}

pub data AutoUnlock : Type 0 where
  passphrase : String → AutoUnlock
  stale fallback : AutoUnlock

-- The closure `decrypt` of the two loaders; `failed` is the text before the error.
unfoldable pub decrypt :
    (K : Keys) (E : Errors) → String → K.PrivateKey → String → Result E.Error K.PrivateKey
decrypt K E failed key p = elim (K.decrypt key p) [
  | ok k ↦ ok k
  | err e ↦ err (E.signing (failed <> e))
]

module _ {W : Type 0} (K : Keys) (v : BiometricVault W) where
  abbrev released : Result BiometricError String → Option String
  released (ok p) = some p
  released (err e) = none

  -- Every failure becomes `none`.
  unfoldable pub auto_unlock : String → W → Option String × W
  auto_unlock id w = let (r, w') = v.retrieve id w in (released r, w')

  checked : K.PrivateKey → String → Result String K.PrivateKey → W → AutoUnlock × W
  checked key p (ok k) w = (passphrase p, w)
  checked key p (err e) w = (stale, (v.delete (key_id K key) w).1)

  verified : K.PrivateKey → Option String → W → AutoUnlock × W
  unfolding checked
  verified key none w = (fallback, w)
  verified key (some p) w = checked key p (K.decrypt key p) w

  -- A passphrase that no longer decrypts the key is forgotten.
  unfoldable pub auto_unlock_passphrase : K.PrivateKey → W → AutoUnlock × W
  unfolding auto_unlock verified
  auto_unlock_passphrase key w = let (o, w') = auto_unlock (key_id K key) w in verified key o w'

  -- `prompt` asks the user for a passphrase; `failed` is
  -- the text before a decryption error.
  module _ (E : Errors) (prompt : Io W E.Error String) (failed : String) where
    -- A failed enrollment is only a warning.
    enrolling : K.PrivateKey → Io W E.Error K.PrivateKey
    unfolding decrypt
    enrolling key = prompt >>= λ p.
        lift (decrypt K E failed key p) >>= λ k. λ w. (ok k, (v.store (key_id K key) p w).1)

    typed : K.PrivateKey → Io W E.Error K.PrivateKey
    unfolding decrypt
    typed key = prompt >>= λ p. lift (decrypt K E failed key p)

    from_auto : K.PrivateKey → AutoUnlock → Io W E.Error K.PrivateKey
    unfolding decrypt typed
    from_auto key (passphrase p) = lift (decrypt K E failed key p)
    from_auto key stale = typed key
    from_auto key fallback = typed key

    by_mode : K.PrivateKey → UnlockMode → Io W E.Error K.PrivateKey
    unfolding enrolling typed from_auto auto_unlock_passphrase
    by_mode key disabled w = typed key w
    by_mode key enroll w = enrolling key w
    by_mode key auto w = let (a, w') = auto_unlock_passphrase key w in from_auto key a w'

    unfoldable pub load_private_key : K.PrivateKey → UnlockMode → Io W E.Error K.PrivateKey
    unfolding by_mode
    load_private_key key mode = if K.is_encrypted key then by_mode key mode else give key
