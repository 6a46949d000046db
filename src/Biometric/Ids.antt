-- ===== src/Biometric/Ids.antt =====
-- Keystore identifiers: `key_id`, `fingerprint_of` and `key_id_from_fingerprint` of
-- gitway-cli/src/biometric/mod.rs.
use text.Mathlib.TextLemmas.{append_cancel_left}
use gitway.Base.{String, ◌<>◌, ◌≡◌, unwrap_or}
use gitway.Base.Text.{strip_prefix, strip_prefix-append}
use gitway.Keys.{Keys}
use gitway.KeygenShim.Args.{sha256}

abbrev pub key_id_prefix : String
key_id_prefix = "gitway:ssh:"

module _ (K : Keys) where
  unfoldable pub key_id : K.PrivateKey → String
  key_id key = key_id_prefix <> K.fingerprint (K.public_key key) sha256

unfoldable pub fingerprint_of : String → String
fingerprint_of id = unwrap_or (strip_prefix key_id_prefix id) id

unfoldable pub key_id_from_fingerprint : String → String
key_id_from_fingerprint fingerprint = key_id_prefix <> fingerprint

pub fingerprint_of-key_id_from_fingerprint :
    (fingerprint : String) → fingerprint_of (key_id_from_fingerprint fingerprint) ≡ fingerprint
unfolding fingerprint_of key_id_from_fingerprint
fingerprint_of-key_id_from_fingerprint fingerprint = rw strip_prefix-append

-- The fingerprint that is listed for a stored key leads back to the identifier it is stored
-- under, and two keys share an identifier only if they share a fingerprint.
pub key_id-fingerprint_of :
    (K : Keys) (key other : K.PrivateKey)
    → (key_id_from_fingerprint (fingerprint_of (key_id K key)) ≡ key_id K key)
      × (fingerprint_of (key_id K key) ≡ K.fingerprint (K.public_key key) sha256)
      × (key_id K key ≡ key_id K other
          → K.fingerprint (K.public_key key) sha256 ≡ K.fingerprint (K.public_key other) sha256)
unfolding key_id fingerprint_of key_id_from_fingerprint
key_id-fingerprint_of K key other =
    (rw strip_prefix-append, rw strip_prefix-append, λ e. append_cancel_left key_id_prefix _ _ e)
