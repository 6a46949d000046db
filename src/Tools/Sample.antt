-- ===== src/Tools/Sample.antt =====
-- A concrete machine for the tests: its state is the text of the one file that there is.
use gitway.Base.{
  String, ◌<>◌, ◌==◌, true, false, Option, none, some, [], ◌∷◌, ok, err, if◌then◌else◌,
}
use gitway.Keys.{Keys}
use gitway.Samples.{text_errors}
use gitway.Tools.{Tools, is_ed25519}

-- Every private key has the public key `id`, and is encrypted unless it is `plain`.
abbrev pub one_key : Keys
one_key = record {
  PrivateKey = String;
  PublicKey = String;
  parse_private = λ pem. if pem == "pub" then err "no private key" else ok pem;
  parse_public = λ text. if text == "pub" then some "id" else none;
  is_encrypted = λ key. false;
  decrypt = λ key p. ok "plain";
  public_key = λ key. "id";
  fingerprint = λ key hash. "SHA256:" <> key;
  to_openssh = λ key. ok key;
  algorithm = λ key. "ED25519";
}

abbrev pub variables : String → Option String
variables name = if name == "SSH_AUTH_SOCK" then some "/run/agent" else none

-- A user at a terminal who types `secret`, and an agent that holds the key `id`.
abbrev pub desk : Tools String text_errors one_key
desk = record {
  from_io = λ e. e.shown;
  with_hint = λ e hint. e;
  env = variables;
  Bytes = String;
  read_to_string = λ path w. ok w;
  read = λ path w. ok w;
  open_file = λ path w. ok tt;
  exists = λ path w. true;
  read_stdin = λ w. (ok "message", w);
  write = λ path text w. (ok tt, text);
  write_stdout = λ text w. (ok tt, w);
  stderr_is_terminal = λ w. true;
  prompt_password = λ text w. (ok "secret", w);
  generate = λ kind bits comment w. (ok "plain", w);
  write_keypair = λ key path p w. (ok tt, "private");
  change_passphrase = λ path old new w. (ok tt, w);
  extract_public = λ path out w. (ok tt, w);
  cli_name = λ kind. "ed25519";
  comment = λ key. "u@host";
  algorithm_name = λ key. "ssh-ed25519";
  algorithm = λ key. is_ed25519;
  modulus_length = λ key. some 256;
  Sig = String;
  sig_sign = λ key namespace hash content. ok content;
  to_pem = λ sig. ok sig;
  AllowedSigners = String;
  load_allowed = λ path w. ok w;
  sign = λ input key namespace hash w. (ok "SIGNATURE", w);
  sign_with_agent = λ input key namespace hash w. (ok "SIGNATURE", w);
  verify = λ input armored signer namespace allowed w.
      (ok (record { principal = signer; fingerprint = "SHA256:id" }), w);
  check_novalidate = λ input armored namespace w. (ok tt, w);
  find_principals = λ armored allowed namespace. ok [];
  find_principals_any_ns = λ armored allowed. ok [];
  agent_from_env = λ w. (ok tt, w);
  agent_identities = λ w. (ok ("SHA256:id" ∷ []), w);
  find_identity = λ w. ok none;
}
