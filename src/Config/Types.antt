-- ===== src/Config/Types.antt =====
-- The types that gitway-cli/src/config.rs reads, of anvil-ssh and of gitway-cli/src/cli.rs, and what
-- anvil-ssh does for it.
use gitway.Base.{ℕ, String, Bool, Option, List, Result}
use gitway.Errors.{Errors}

-- What the code reads of the types of anvil-ssh.
pub data Strict : Type 0 where
  strict_yes strict_no accept_new : Strict

pub record Hop : Type 0 where
  pub user : Option String
  pub host : String
  pub port : ℕ

pub record Source : Type 0 where
  pub directive : String
  pub file : String
  pub line : ℕ

pub record Resolved : Type 0 where
  pub hostname : Option String
  pub user : Option String
  pub port : Option ℕ
  pub identity_files : List String
  pub identities_only : Option Bool
  pub identity_agent : Option String
  pub certificate_files : List String
  pub proxy_command : Option String
  pub proxy_jump : Option String
  pub user_known_hosts_files : List String
  pub strict_host_key_checking : Option Strict
  pub host_key_algorithms : Option String
  pub kex_algorithms : Option String
  pub ciphers : Option String
  pub macs : Option String
  -- The seconds.
  pub connect_timeout : Option ℕ
  pub connection_attempts : Option ℕ
  pub provenance : List Source

pub record CertAuthority : Type 0 where
  pub host_pattern : String
  pub algorithm : String
  pub fingerprint : String

pub record Revoked : Type 0 where
  pub host_pattern : String
  pub fingerprint : String

pub record Trust : Type 0 where
  pub cert_authorities : List CertAuthority
  pub revoked : List Revoked

pub record SshConfigPaths : Type 0 where
  pub user : Option String
  pub system : Option String

pub record Resolver (W : Type 0) (E : Errors) : Type 0 where
  pub default_paths : W → SshConfigPaths
  pub resolve : String → SshConfigPaths → W → Result E.Error Resolved
  pub parse_jump_chain : String → Result E.Error (List Hop)
  pub host_key_trust : String → Option String → W → Result E.Error Trust

-- From gitway-cli/src/cli.rs.
pub record ConfigShowArgs : Type 0 where
  pub host : String
  pub show_secrets : Bool
  pub user_config : Option String
  pub system_config : Option String
