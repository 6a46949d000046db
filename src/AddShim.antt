-- ===== src/AddShim.antt =====
-- gitway-cli/src/bin/gitway-add.rs, the `ssh-add` that other tools call by name.
pub mod Args
pub mod Run
mod Tests
