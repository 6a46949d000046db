-- ===== src/KeygenShim/Resolve/Laws.antt =====
-- The helpers of gitway-cli/src/bin/gitway-keygen.rs: which private key signs, and the number of bits that is shown.
use gitway.Base.{
  ◌≤◌, ap, ℕ, ◌*◌, ◌^◌, ◌<◌, String, ◌<>◌, ◌≡◌, refl, true, Option, none, some, Result, ok, err,
  Bool-cases, inl, inr, is_ok, is_some, ok-injective, arith,
}
use gitway.Base.Io.{bind-eq-ok}
use gitway.Base.Text.{trim, strip_suffix, strip_suffix-eq-some}
use gitway.Errors.{Errors}
use gitway.Keys.{Keys}
use gitway.KeygenShim.Resolve.{
  signing_text, stripped_path, path_of, resolve_signing_key_path, bits_of_length, bits_for,
  modulus_bits, rsa_modulus_bits, public_bit_estimate,
}
use gitway.Tools.{IoError, Tools, Algorithm, is_ed25519, is_p256, is_p384, is_p521, is_rsa, another}

modulus_bits-bounds : (o : Option ℕ) {b : ℕ} → modulus_bits o ≡ some b → b < 2 ^ 32
unfolding modulus_bits bits_of_length
modulus_bits-bounds none h = cc
modulus_bits-bounds (some n) {b} h = ground arith

bits_for-lt :
    (a : Algorithm) (o : Option ℕ) → ((b : ℕ) → o ≡ some b → b < 2 ^ 32) → bits_for a o < 2 ^ 32
unfolding bits_for
bits_for-lt is_ed25519 o small = omega arith
bits_for-lt is_p256 o small = omega arith
bits_for-lt is_p384 o small = omega arith
bits_for-lt is_p521 o small = omega arith
bits_for-lt is_rsa none small = omega arith
bits_for-lt is_rsa (some b) small = small b refl
bits_for-lt another o small = omega arith

module _ {W : Type 0} (E : Errors) (K : Keys) (T : Tools W E K) where
  -- The key file for signing with `path`, which has the text `raw`.
  pub data KeyFile (path raw : String) (w : W) : String → Type 0 where
    itself : is_ok (K.parse_private raw) ≡ true → KeyFile path raw w path
    beside :
        (candidate : String)
        → is_some (K.parse_public (trim raw)) ≡ true
        → path ≡ candidate <> ".pub"
        → T.exists candidate w ≡ true
        → KeyFile path raw w candidate

  stripped-KeyFile :
      (path raw : String) (w : W) (o : Option String) {found : String}
      → is_some (K.parse_public (trim raw)) ≡ true
      → strip_suffix ".pub" path ≡ o
      → stripped_path E K T path o w ≡ ok found
      → KeyFile path raw w found
  unfolding stripped_path
  stripped-KeyFile path raw w none public stripped h = cc
  stripped-KeyFile path raw w (some candidate) {found} public stripped h =
      elim (Bool-cases (T.exists candidate w)) [
        | inl there ↦
            let same : candidate ≡ found = ok-injective (rw (stripped_path, there) at h) in
            rw⁻¹ same (beside candidate public (strip_suffix-eq-some ".pub" path stripped) there)
        | inr missing ↦ cc (rw (stripped_path, missing) at h)
      ]

  path_of-KeyFile :
      (path raw : String) (w : W) {found : String}
      → path_of E K T path raw w ≡ ok found
      → KeyFile path raw w found
  unfolding path_of
  path_of-KeyFile path raw w {found} h = elim (Bool-cases (is_ok (K.parse_private raw))) [
    | inl private ↦
        let same : path ≡ found = ok-injective (rw (path_of, private) at h) in
        rw⁻¹ same (itself private)
    | inr other ↦ elim (Bool-cases (is_some (K.parse_public (trim raw)))) [
      | inl public ↦ stripped-KeyFile path raw w _ public refl (rw (path_of, other, public) at h)
      | inr neither ↦ cc (rw (path_of, other, neither) at h)
    ]
  ]

  signing_text-ok :
      (r : Result IoError String) {raw : String} → signing_text E K T r ≡ ok raw → r ≡ ok raw
  unfolding signing_text
  signing_text-ok (ok raw) h = ap ok (ok-injective h)
  signing_text-ok (err e) h = elim (Bool-cases e.not_found) [
    | inl missing ↦ cc (rw (signing_text, missing) at h)
    | inr other ↦ cc (rw (signing_text, other) at h)
  ]

  -- The key file that is resolved for signing with a path is the path itself, where it holds a private
  -- key, or the path without its ending .pub, where the path holds a public key and the other file exists. Nothing
  -- is changed.
  pub resolve_signing_key_path-KeyFile :
      (path found : String) (w : W)
      → (resolve_signing_key_path E K T path w).0 ≡ ok found
      → (raw : String) × (T.read_to_string path w ≡ ok raw)
        × KeyFile path raw w found
        × ((resolve_signing_key_path E K T path w).1 ≡ w)
  unfolding resolve_signing_key_path
  resolve_signing_key_path-KeyFile path found w h =
      let (raw, read, rest, state) =
        bind-eq-ok (λ u. (signing_text E K T (T.read_to_string path u), u))
          (λ raw. λ u. (path_of E K T path raw u, u)) w h in
      (raw, signing_text-ok _ read, path_of-KeyFile path raw w rest, state)

  -- The number of bits that is shown is 256, 256, 384 or 521 for a key on the curve of that name; for a key of RSA
  -- it is eight for each byte in which ssh-key holds the modulus, exactly, where this is below 2 ^ 32,
  -- and 0 where it is not; and it fits in 32 bits for every key.
  pub public_bit_estimate-bounds :
      (key : K.PublicKey)
      → (public_bit_estimate E K T key < 2 ^ 32)
        × (T.algorithm key ≡ is_ed25519 → public_bit_estimate E K T key ≡ 256)
        × (T.algorithm key ≡ is_p256 → public_bit_estimate E K T key ≡ 256)
        × (T.algorithm key ≡ is_p384 → public_bit_estimate E K T key ≡ 384)
        × (T.algorithm key ≡ is_p521 → public_bit_estimate E K T key ≡ 521)
        × ((n : ℕ)
            → T.algorithm key ≡ is_rsa
            → T.modulus_length key ≡ some n
            → (8 * n < 2 ^ 32 → public_bit_estimate E K T key ≡ 8 * n)
              × (2 ^ 32 ≤ 8 * n → public_bit_estimate E K T key ≡ 0))
  unfolding public_bit_estimate rsa_modulus_bits bits_for modulus_bits bits_of_length
  public_bit_estimate-bounds key = (
    bits_for-lt (T.algorithm key) _ (λ b h. modulus_bits-bounds (T.modulus_length key) h),
    λ on. rw on refl,
    λ on. rw on refl,
    λ on. rw on refl,
    λ on. rw on refl,
    λ n on length. rw (on, length) (λ small. ground arith, λ large. ground arith),
  )
