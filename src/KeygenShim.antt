-- ===== src/KeygenShim.antt =====
-- gitway-cli/src/bin/gitway-keygen.rs, the `ssh-keygen` that git calls for signatures.
pub mod Args
pub mod Resolve
pub mod Sign
pub mod Run
mod Tests
