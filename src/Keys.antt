-- ===== src/Keys.antt =====
-- The keys of the crate ssh-key, which is not part of the repository: unknown types with the
-- operations that the program calls. Errors are their texts. No law is assumed of them here.
use gitway.Base.{String, Bool, Option, Result}
use gitway.KeygenShim.Args.{HashAlg}

pub record Keys : Type 1 where
  pub PrivateKey : Type 0
  pub PublicKey : Type 0
  pub parse_private : String → Result String PrivateKey
  pub parse_public : String → Option PublicKey
  pub is_encrypted : PrivateKey → Bool
  pub decrypt : PrivateKey → String → Result String PrivateKey
  pub public_key : PrivateKey → PublicKey
  pub fingerprint : PublicKey → HashAlg → String
  pub to_openssh : PublicKey → Result String String
  -- The name of the algorithm in upper case.
  pub algorithm : PublicKey → String
