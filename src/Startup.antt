-- ===== src/Startup.antt =====
-- gitway-cli/src/main.rs: `run` without a subcommand, with the configuration of the session from the
-- flags, the argument and ssh_config, and `run_install`. The builder of the configuration, from anvil-ssh, is the parameter `Builders`.
pub mod Precedence
mod Tests
use gitway.Base.{
  ℕ, zero, suc, String, ◌<>◌, Bool, true, false, not, Option, none, some, List, [], ◌∷◌, ◌++◌,
  Result, ok, err, ◌>>=◌, ltb, or_else, unwrap_or, if◌then◌else◌,
}
use gitway.Base.Io.{Io}
use gitway.Base.Json.{string, boolean, Output, lines, document, fields}
use gitway.Config.Types.{SshConfigPaths}
use gitway.Console.{OutputMode, human, json, Env, detect_output_mode, parse_user_host}
use gitway.Session.{Ssh, Resolved, resolve_proxy_directives, run_test, run_exec}

-- The flags of `Cli` of gitway-cli/src/cli.rs that `run` reads for a session.
pub record Cli : Type 0 where
  pub host : Option String
  pub command : List String
  pub no_config : Bool
  pub verbose : ℕ
  pub port : Option ℕ
  pub insecure_skip_host_check : Bool
  pub user : Option String
  pub identity : Option String
  pub cert : Option String
  pub kex : Option String
  pub ciphers : Option String
  pub macs : Option String
  pub host_key_algorithms : Option String
  pub connect_timeout : Option ℕ
  pub attempts : Option ℕ
  pub max_retry_window : Option ℕ
  pub proxy_command : Option String
  pub jump_host : List String
  pub test : Bool
  pub install : Bool
  pub json_flag : Bool
  pub format_json : Bool

-- What is set on the builder of the configuration.
pub data Setting : Type 0 where
  verbose : Bool → Setting
  port : ℕ → Setting
  no_host_key_checking : Setting
  username identity_file cert_file : String → Setting
  kex ciphers macs host_keys : List String → Setting
  connect_timeout connection_attempts max_retry_window : ℕ → Setting

pub data Category : Type 0 where
  kex_category cipher_category mac_category host_key_category : Category

pub record Builders {W : Type 0} (S : Ssh W) : Type 1 where
  pub Builder : Type 0
  pub Config : Type 0
  pub builder : String → Builder
  pub set : Setting → Builder → Builder
  pub apply_ssh_config : Config → Builder → Builder
  pub build : Builder → S.Config
  -- `resolve` for a host and the default paths, and the proxy directives of its result.
  pub resolve : String → W → Result S.Error Config
  pub proxies : Config → Resolved
  pub defaults : Category → List String
  -- `apply_overrides` with the defaults and the value of the flag.
  pub apply_overrides : Category → List String → String → Result S.Error (List String)
  pub invalid_config : String → S.Error
  -- DEFAULT_GITHUB_HOST
  pub default_host : String

abbrev pub setting_if : {A : Type 0} → (A → Setting) → Option A → List Setting
setting_if f none = []
setting_if f (some a) = f a ∷ []

abbrev pub setting_when : Bool → Setting → List Setting
setting_when true s = s ∷ []
setting_when false s = []

module _ {W : Type 0} (S : Ssh W) (B : Builders S) where
  overriding :
      (List String → Setting) → Result S.Error (List String) → Result S.Error (List Setting)
  overriding setter (ok algorithms) = ok (setter algorithms ∷ [])
  overriding setter (err e) = err e

  unfoldable pub apply_alg_override :
      Category → (List String → Setting) → Option String → Result S.Error (List Setting)
  unfolding overriding
  apply_alg_override category setter none = ok []
  apply_alg_override category setter (some value) =
      overriding setter (B.apply_overrides category (B.defaults category) value)

  -- The four overrides, in their order.
  unfoldable pub algorithm_settings : Cli → Result S.Error (List Setting)
  unfolding apply_alg_override
  algorithm_settings cli = apply_alg_override kex_category kex cli.kex >>= λ a.
      apply_alg_override cipher_category ciphers cli.ciphers >>= λ b.
      apply_alg_override mac_category macs cli.macs >>= λ c.
      apply_alg_override host_key_category host_keys cli.host_key_algorithms >>= λ d.
      ok (a ++ (b ++ (c ++ d)))

  -- The flags before the overrides; `parsed` is the user of the argument.
  unfoldable pub first_settings : Cli → Option String → List Setting
  first_settings cli parsed =
      setting_if port cli.port
      ++ (setting_when cli.insecure_skip_host_check no_host_key_checking
          ++ (setting_if username (or_else cli.user parsed)
              ++ (setting_if identity_file cli.identity ++ setting_if cert_file cli.cert)))

  unfoldable pub last_settings : Cli → List Setting
  last_settings cli =
      setting_if connect_timeout cli.connect_timeout
      ++ (setting_if connection_attempts cli.attempts
          ++ setting_if max_retry_window cli.max_retry_window)

  unfoldable pub apply : List Setting → B.Builder → B.Builder
  apply [] b = b
  apply (s ∷ settings) b = apply settings (B.set s b)

  abbrev pub with_config : Option B.Config → B.Builder → B.Builder
  with_config none b = b
  with_config (some r) b = B.apply_ssh_config r b

  -- What stands before the flags.
  abbrev pub base : Cli → String → Option B.Config → B.Builder
  base cli host resolved =
      with_config resolved (B.set (verbose (ltb 0 cli.verbose)) (B.builder host))

  -- The builder before `build`.
  unfoldable pub configure :
      Cli → Option String → String → Option B.Config → Result S.Error B.Builder
  unfolding algorithm_settings first_settings last_settings apply
  configure cli parsed host resolved = algorithm_settings cli >>= λ algorithms. ok (
      apply (first_settings cli parsed ++ (algorithms ++ last_settings cli))
        (base cli host resolved))

  if_ok : Result S.Error B.Config → Option B.Config
  if_ok (ok r) = some r
  if_ok (err e) = none

  -- An ssh_config that cannot be resolved is ignored, with a warning.
  unfoldable pub resolved_config : Cli → String → W → Option B.Config
  unfolding if_ok
  resolved_config cli host w = if cli.no_config then none else if_ok (B.resolve host w)

  proxies_of : Option B.Config → Option Resolved
  proxies_of none = none
  proxies_of (some r) = some (B.proxies r)

  abbrev pub raw_host : Cli → String
  raw_host cli = unwrap_or cli.host B.default_host

  is_json : OutputMode → Bool
  is_json json = true
  is_json human = false

  with_command :
      (String → Io W S.Error String)
      → S.Config
      → List String
      → String
      → Option String × List S.JumpHost
      → Io W S.Error ℕ
  with_command prompt config [] alias (proxy, hosts) w = (
    err (
        B.invalid_config
          "no remote command specified; pass a git-upload-pack / git-receive-pack command"),
    w,
  )
  with_command prompt config (c ∷ parts) alias (proxy, hosts) w =
      run_exec S prompt config (c ∷ parts) alias proxy hosts w

  -- The session, once it is configured; `mode` is the output mode with the check of the terminal.
  pub session :
      (String → Io W S.Error String)
      → Cli
      → OutputMode
      → S.Config
      → Option String × List S.JumpHost
      → Io W S.Error ℕ
  unfolding with_command is_json
  session prompt cli mode config (proxy, hosts) =
      if cli.test
      then run_test S prompt config (raw_host cli) proxy hosts (is_json mode)
      else with_command prompt config cli.command (raw_host cli) (proxy, hosts)

  prepared :
      Cli
      → Option String
      → String
      → Option B.Config
      → Result S.Error (S.Config × Option String × List S.JumpHost)
  unfolding proxies_of
  prepared cli parsed host resolved = configure cli parsed host resolved >>= λ b.
      resolve_proxy_directives S cli.proxy_command cli.jump_host (proxies_of resolved)
      >>= λ directives. ok (B.build b, directives.0, directives.1)

  started :
      (String → Io W S.Error String)
      → Cli
      → OutputMode
      → Result S.Error (S.Config × Option String × List S.JumpHost)
      → Io W S.Error ℕ
  unfolding session
  started prompt cli mode (err e) w = (err e, w)
  started prompt cli mode (ok (config, proxy, hosts)) w =
      session prompt cli mode config (proxy, hosts) w

  -- `run`, where there is no subcommand and no `--install`.
  unfoldable pub run_session : (String → Io W S.Error String) → Cli → OutputMode → Io W S.Error ℕ
  unfolding prepared started
  run_session prompt cli mode w =
      let (parsed, host) = parse_user_host (raw_host cli) in
      started prompt cli mode (prepared cli parsed host (resolved_config cli host w)) w

abbrev pub if_exists : (String → Bool) → Option String → List String
if_exists exists none = []
if_exists exists (some path) = if exists path then path ∷ [] else []

-- `default` are the default paths of ssh_config.
unfoldable pub compute_config_sources : Cli → SshConfigPaths → (String → Bool) → List String
compute_config_sources cli default exists =
    if cli.no_config then [] else if_exists exists default.user ++ if_exists exists default.system

-- `run_install`: the exit status of git, or why it could not be run. The text is for the error of a
-- status that is no success.
installed : OutputMode → Output
installed human = lines []
installed json = document "gitway --install" (
    fields (
      ("configured", boolean true)
      ∷ ("config_key", string "core.sshCommand")
      ∷ ("config_value", string "gitway")
      ∷ ("scope", string "global")
      ∷ []))

module _ {W Error : Type 0} (from_text : String → Error)
    (status : String → List String → Io W Error Bool) where
  checked : OutputMode → Result Error Bool → Result Error (ℕ × Output)
  unfolding installed
  checked mode (ok true) = ok (0, installed mode)
  checked mode (ok false) = err (from_text "git config --global core.sshCommand failed")
  checked mode (err e) = err e

  unfoldable pub run_install : OutputMode → Io W Error (ℕ × Output)
  unfolding checked
  run_install mode w =
      let (r, w') = status "git" ("config" ∷ "--global" ∷ "core.sshCommand" ∷ "gitway" ∷ []) w in
      (checked mode r, w')
