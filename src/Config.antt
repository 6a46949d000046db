-- ===== src/Config.antt =====
-- gitway-cli/src/config.rs: `gitway config show`, over what anvil-ssh resolves. Paths are those of Unix.
pub mod Paths
pub mod Types
pub mod Hides
mod Tests
use gitway.Base.{
  ℕ, suc, String, ◌<>◌, ◌==◌, Bool, true, false, Option, none, some, List, [], ◌∷◌, ◌++◌, map,
  Result, ok, err, if◌then◌else◌,
}
use gitway.Base.Decimal.{decimal}
use gitway.Base.Json.{
  Json, null, string, number, boolean, array, object, Items, no_items, items, Output, lines,
  document, fields,
}
use gitway.Base.Text.{eq_ignore_ascii_case, is_empty_text}
use gitway.Config.Paths.{redacted, display_path}
use gitway.Config.Types.{
  Strict, strict_yes, strict_no, accept_new, Hop, Source, Resolved, CertAuthority, Revoked, Trust,
  SshConfigPaths, Resolver, ConfigShowArgs,
}
use gitway.Console.{OutputMode, human, json}
use gitway.Errors.{Errors}

-- A flag over the default of its tier: an empty one disables it.
abbrev pub tier : Option String → Option String → Option String
tier none default = default
tier (some path) default = if is_empty_text path then none else some path

abbrev pub strict_label : Strict → String
strict_label strict_yes = "yes"
strict_label strict_no = "no"
strict_label accept_new = "accept-new"

abbrev pub yes_no : Bool → String
yes_no true = "yes"
yes_no false = "no"

module _ {A : Type 0} where
  abbrev pub line_if : String → (A → String) → Option A → List String
  line_if name text none = []
  line_if name text (some a) = (name <> " " <> text a) ∷ []

  abbrev pub or_null : (A → Json) → Option A → Json
  or_null value none = null
  or_null value (some a) = value a

abbrev pub the_text : String → String
the_text s = s

abbrev pub lines_of : String → List String → List String
lines_of name texts = map (λ s. name <> " " <> s) texts

abbrev pub user_prefix : Option String → String
user_prefix none = ""
user_prefix (some u) = u <> "@"

-- `index` is that of the first hop.
unfoldable pub hop_lines : ℕ → List Hop → List String
hop_lines index [] = []
hop_lines index (hop ∷ chain) =
    ("proxyjump_hop_"
      <> decimal (suc index)
      <> "_to "
      <> user_prefix hop.user
      <> hop.host
      <> ":"
      <> decimal hop.port)
    ∷ hop_lines (suc index) chain

abbrev pub hop_json : Hop → Json
hop_json hop = object (
    fields (
      ("host", string hop.host)
      ∷ ("port", number hop.port)
      ∷ ("user", or_null string hop.user)
      ∷ []))

abbrev pub authority_json : CertAuthority → Json
authority_json ca = object (
    fields (
      ("host_pattern", string ca.host_pattern)
      ∷ ("algorithm", string ca.algorithm)
      ∷ ("fingerprint", string ca.fingerprint)
      ∷ []))

abbrev pub revoked_json : Revoked → Json
revoked_json r =
    object (
      fields (("host_pattern", string r.host_pattern) ∷ ("fingerprint", string r.fingerprint) ∷ []))

abbrev pub source_json : Source → Json
source_json src = object (
    fields (
      ("directive", string src.directive)
      ∷ ("file", string src.file)
      ∷ ("line", number src.line)
      ∷ []))

abbrev pub first : List String → Option String
first [] = none
first (x ∷ xs) = some x

-- The names that are reported for values that were redacted.
unfoldable pub redactions : List String → Option String → List String
redactions (s ∷ files) agent =
    let rest = redactions files agent in if s == redacted then "identityfile" ∷ rest else rest
redactions [] (some s) = if s == redacted then "identityagent" ∷ [] else []
redactions [] none = []

-- What is shown of the private keys and of the agent.
abbrev pub shown_files : ConfigShowArgs → Resolved → List String
shown_files args r = map (λ p. display_path p args.show_secrets) r.identity_files

abbrev pub shown_agent : Bool → Option String → Option String
shown_agent show none = none
shown_agent show (some p) = some (display_path p show)

module _ {W : Type 0} (E : Errors) (C : Resolver W E) where
  unfoldable pub ssh_config_paths_from_args : ConfigShowArgs → W → SshConfigPaths
  ssh_config_paths_from_args args w =
      let default = C.default_paths w in
      record {
        user = tier args.user_config default.user;
        system = tier args.system_config default.system;
      }

  abbrev chain_lines : Result E.Error (List Hop) → List String
  chain_lines (ok chain) = hop_lines 0 chain
  chain_lines (err e) = []

  unfoldable pub jump_lines : Option String → List String
  unfolding hop_lines
  jump_lines none = []
  jump_lines (some v) =
      ("proxyjump " <> v)
      ∷ (if eq_ignore_ascii_case v "none" then [] else chain_lines (C.parse_jump_chain v))

  -- The lines from `hostkeyalgorithms` on.
  abbrev settings_lines : Resolved → List String
  settings_lines r =
      line_if "hostkeyalgorithms" the_text r.host_key_algorithms
      ++ (line_if "kexalgorithms" the_text r.kex_algorithms
          ++ (line_if "ciphers" the_text r.ciphers
              ++ (line_if "macs" the_text r.macs
                  ++ (line_if "connecttimeout" decimal r.connect_timeout
                      ++ line_if "connectionattempts" decimal r.connection_attempts))))

  -- The lines, from what is shown of the private keys and of the agent.
  unfoldable pub emit_human_show : List String → Option String → Resolved → List String
  unfolding jump_lines
  emit_human_show files agent r =
      line_if "hostname" the_text r.hostname
      ++ (line_if "user" the_text r.user
          ++ (line_if "port" decimal r.port
              ++ (lines_of "identityfile" files
                  ++ (line_if "identitiesonly" yes_no r.identities_only
                      ++ (line_if "identityagent" the_text agent
                          ++ (lines_of "certificatefile" r.certificate_files
                              ++ (line_if "proxycommand" the_text r.proxy_command
                                  ++ (jump_lines r.proxy_jump
                                      ++ (lines_of "userknownhostsfile" r.user_known_hosts_files
                                          ++ (line_if "stricthostkeychecking" strict_label
                                                r.strict_host_key_checking
                                              ++ settings_lines r))))))))))

  chain_json : Result E.Error (List Hop) → Json
  chain_json (ok chain) = array (items hop_json chain)
  chain_json (err e) = null

  unfoldable pub jump_chain_json : Option String → Json
  unfolding chain_json
  jump_chain_json none = null
  jump_chain_json (some raw) =
      if eq_ignore_ascii_case raw "none" then null else chain_json (C.parse_jump_chain raw)

  audited : Result E.Error Trust → Items × Items
  audited (ok trust) =
      (items authority_json trust.cert_authorities, items revoked_json trust.revoked)
  audited (err e) = (no_items, no_items)

  unfoldable pub cert_and_revoked_json : String → Option String → W → Items × Items
  unfolding audited
  cert_and_revoked_json host custom_path w = audited (C.host_key_trust host custom_path w)

  -- The `data` of the document, from what is shown of the private keys and of the agent, and the
  -- audited keys of the host.
  unfoldable pub emit_json_show :
      String → List String → Option String → Items × Items → Resolved → Output
  unfolding jump_chain_json redactions
  emit_json_show host files agent (authorities, revoked) r = document "gitway config show" (
      fields (
        ("host", string host)
        ∷ ("hostname", or_null string r.hostname)
        ∷ ("user", or_null string r.user)
        ∷ ("port", or_null number r.port)
        ∷ ("identity_files", array (items string files))
        ∷ ("identities_only", or_null boolean r.identities_only)
        ∷ ("identity_agent", or_null string agent)
        ∷ ("certificate_files", array (items string r.certificate_files))
        ∷ ("proxy_command", or_null string r.proxy_command)
        ∷ ("proxy_jump", or_null string r.proxy_jump)
        ∷ ("proxy_jump_chain", jump_chain_json r.proxy_jump)
        ∷ ("user_known_hosts_files", array (items string r.user_known_hosts_files))
        ∷ (
          "strict_host_key_checking",
          or_null (λ p. string (strict_label p)) r.strict_host_key_checking,
        )
        ∷ ("host_key_algorithms", or_null string r.host_key_algorithms)
        ∷ ("kex_algorithms", or_null string r.kex_algorithms)
        ∷ ("ciphers", or_null string r.ciphers)
        ∷ ("macs", or_null string r.macs)
        ∷ ("connect_timeout_secs", or_null number r.connect_timeout)
        ∷ ("connection_attempts", or_null number r.connection_attempts)
        ∷ ("cert_authorities", array authorities)
        ∷ ("revoked", array revoked)
        ∷ ("provenance", array (items source_json r.provenance))
        ∷ ("redacted", array (items string (redactions files agent)))
        ∷ []))

  unfoldable pub emit_show : ConfigShowArgs → OutputMode → Resolved → W → Output
  unfolding emit_human_show emit_json_show cert_and_revoked_json
  emit_show args json r w =
      emit_json_show args.host (shown_files args r) (shown_agent args.show_secrets r.identity_agent)
        (cert_and_revoked_json args.host (first r.user_known_hosts_files) w) r
  emit_show args human r w =
      lines
        (emit_human_show (shown_files args r) (shown_agent args.show_secrets r.identity_agent) r)

  unfoldable pub after_resolve :
      ConfigShowArgs → OutputMode → W → Result E.Error Resolved → Result E.Error (ℕ × Output)
  unfolding emit_show
  after_resolve args mode w (ok r) = ok (0, emit_show args mode r w)
  after_resolve args mode w (err e) = err e

  -- Nothing but the files of the configuration is read, and nothing is changed.
  unfoldable pub run_show : ConfigShowArgs → OutputMode → W → Result E.Error (ℕ × Output)
  unfolding after_resolve ssh_config_paths_from_args
  run_show args mode w =
      after_resolve args mode w (C.resolve args.host (ssh_config_paths_from_args args w) w)
