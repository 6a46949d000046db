-- ===== src/Host.antt =====
-- What the commands ask of the machine about key files: the home directory, whether a path exists,
-- and how Rust's `Path::join` joins two paths. No law is assumed of them.
use gitway.Base.{String, Bool, Option}

pub record Host : Type 0 where
  pub home_dir : Option String
  pub exists : String → Bool
  pub join : String → String → String
