-- ===== src/Biometric.antt =====
-- gitway-cli/src/biometric/mod.rs and its back ends, and gitway-cli/src/biometric_cmd.rs.
pub mod Entries
pub mod Vault
pub mod Windows
pub mod Unsupported
pub mod Ids
pub mod Unlock
pub mod Fingerprint
pub mod Linux
pub mod Macos
pub mod Command
mod Tests
