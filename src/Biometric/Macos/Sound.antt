-- ===== src/Biometric/Macos/Sound.antt =====
-- The keystore of `MacosVault` of gitway-cli/src/biometric/macos.rs over any sequence of key loads and removals.
use gitway.Base.{String, ◌≡◌, Option, err}
use gitway.Errors.{Errors}
use gitway.Keys.{Keys}
use gitway.Biometric.Unlock.Reachable.{Reachable}
use gitway.Biometric.Macos.{Keychain}

-- A call that fails changes nothing.
pub record FailsCleanly {W : Type 0} (C : Keychain W) (held : W → String → Option String)
    : Type 0 where
  pub set_fails :
      (label a p e : String) (w : W)
      → (C.set_password label a p w).0 ≡ err e
      → held (C.set_password label a p w).1 a ≡ held w a
  pub delete_fails :
      (a e : String) (w : W)
      → (C.delete_password a w).0 ≡ err e
      → held (C.delete_password a w).1 a ≡ held w a
