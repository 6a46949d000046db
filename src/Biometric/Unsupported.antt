-- ===== src/Biometric/Unsupported.antt =====
-- `UnsupportedVault` of gitway-cli/src/biometric/unsupported.rs. The reason depends on whether the build
-- has the feature `biometric`.
use gitway.Base.{Bool, false, err, if◌then◌else◌}
use gitway.Biometric.Vault.{BiometricVault, BiometricError, unavailable, unsupported}

unfoldable pub reason : Bool → BiometricError
reason has_feature = unavailable (
    if has_feature
    then "no biometric backend is available for this platform"
    else "this build was compiled without the `biometric` feature")

unfoldable pub unsupported_vault : {W : Type 0} → Bool → BiometricVault W
unfolding reason
unsupported_vault has_feature = record {
  is_available = λ w. false;
  binding_tier = unsupported;
  store = λ id p w. (err (reason has_feature), w);
  retrieve = λ id w. (err (reason has_feature), w);
  delete = λ id w. (err (reason has_feature), w);
  list = λ w. (err (reason has_feature), w);
}
