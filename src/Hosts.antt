-- ===== src/Hosts.antt =====
-- gitway-cli/src/hosts.rs: `gitway hosts add`, `revoke` and `list`, over a parameter for the session
-- with the host, the files of known hosts and the terminal. A command that succeeds returns its exit
-- code and what it prints.
pub mod Add
pub mod Revoke
pub mod Listing
mod Tests
use gitway.Base.{
  ℕ, suc, String, ◌<>◌, ◌==◌, ◌&&◌, ◌||◌, not, Bool, true, false, Option, none, some, List, [], ◌∷◌,
  ◌++◌, map, Result, ok, err, ok_or, if◌then◌else◌, is_some, length,
}
use gitway.Base.Io.{Io, ◌>>=◌, give, lift, fail}
use gitway.Base.Json.{
  Json, string, number, boolean, array, object, Output, lines, document, items, items_before,
  fields,
}
use gitway.Base.Text.{trim, lower_is, strip_prefix}
use gitway.Errors.{Errors, with_context}
use gitway.Console.{OutputMode, human, json}

-- `HostsAddArgs`, `HostsRevokeArgs`, `HostsListArgs` and `HostsSubcommand`
pub record AddArgs : Type 0 where
  pub host : String
  pub known_hosts : Option String
  pub yes : Bool
  pub hash : Bool
  pub no_hash : Bool

pub record RevokeArgs : Type 0 where
  pub input : String
  pub known_hosts : Option String

pub record ListArgs : Type 0 where
  pub known_hosts : Option String

pub data Subcommand : Type 0 where
  add : AddArgs → Subcommand
  revoke : RevokeArgs → Subcommand
  list : ListArgs → Subcommand

-- From anvil-ssh: how a session treats an unknown key of its host, its configuration as far as it is
-- set here, the format of a file of known hosts, and what is read from one.
pub data StrictHostKeyChecking : Type 0 where
  yes_checking accept_new no_checking : StrictHostKeyChecking

pub record ProbeConfig : Type 0 where
  pub host : String
  pub strict_host_key_checking : StrictHostKeyChecking
  pub custom_known_hosts : String

pub data HashMode : Type 0 where
  hashed plaintext empty : HashMode

pub record Pin : Type 0 where
  pub host_pattern : String
  pub fingerprint : String

pub record Authority : Type 0 where
  pub host_pattern : String
  pub fingerprint : String
  pub algorithm : String

pub record KnownHostsFile : Type 0 where
  pub direct : List Pin
  pub hashed_fingerprints : List String
  pub cert_authorities : List Authority
  pub revoked : List Pin

pub record Network (W : Type 0) (E : Errors) : Type 1 where
  pub Session : Type 0
  pub connect : ProbeConfig → Io W E.Error Session
  pub verified_fingerprint : Session → W → Option String
  pub close : Session → Io W E.Error (Unit {0})
  pub default_known_hosts_path : W → Option String
  pub detect_hash_mode : String → W → Result E.Error HashMode
  pub append_known_host : String → String → String → Io W E.Error (Unit {0})
  pub append_known_host_hashed : String → String → String → Io W E.Error (Unit {0})
  pub prepend_revoked : String → String → String → Io W E.Error (Unit {0})
  -- The fingerprints that are trusted for a host, with the file at the path.
  pub host_key_trust : String → Option String → W → Result E.Error (List String)
  pub parse_known_hosts : String → Result E.Error KnownHostsFile
  pub all_embedded : List (String × String × String)

-- The machine: a new directory, the files and the terminal. Errors of the system are their texts.
pub record Machine (W : Type 0) : Type 0 where
  pub tempdir : Io W String String
  pub join : String → String → String
  pub exists : String → W → Bool
  pub read_to_string : String → W → Result String String
  pub stdin_is_terminal : W → Bool
  pub read_line : Io W String String

abbrev pub exit_user_declined : ℕ
exit_user_declined = 73

abbrev pub exit_needs_yes : ℕ
exit_needs_yes = 78

abbrev pub Printed : Type 0
Printed = ℕ × Output

-- `{text:<width}`, by the number of characters that are left.
unfoldable pub pad : ℕ → String → String
pad ℕ.zero s = s
pad (suc n) String.[] = " " <> pad n ""
pad (suc n) (String.◌∷◌ c s) = String.◌∷◌ c (pad n s)

unfoldable pub is_hashed : HashMode → Bool
is_hashed hashed = true
is_hashed plaintext = false
is_hashed empty = false

abbrev pub is_yes : String → Bool
is_yes answer = lower_is (trim answer) "y" || lower_is (trim answer) "yes"

pub data Answer : Type 0 where
  confirmed declined unavailable : Answer

unfoldable pub answered : String → Answer
answered line = if is_yes line then confirmed else declined

unfoldable pub is_json : OutputMode → Bool
is_json json = true
is_json human = false

unfoldable pub added : OutputMode → String → String → String → Bool → Output
added json host fingerprint path as_hashed = document "gitway hosts add" (
    fields (
      ("host", string host)
      ∷ ("fingerprint", string fingerprint)
      ∷ ("known_hosts_path", string path)
      ∷ ("hashed", boolean as_hashed)
      ∷ []))
added human host fingerprint path as_hashed = lines []

unfoldable pub revoked_output : OutputMode → String → String → String → Output
revoked_output json pattern fingerprint path = document "gitway hosts revoke" (
    fields (
      ("host_pattern", string pattern)
      ∷ ("fingerprint", string fingerprint)
      ∷ ("known_hosts_path", string path)
      ∷ []))
revoked_output human pattern fingerprint path = lines []

abbrev pub no_known_hosts : KnownHostsFile
no_known_hosts = record {
  direct = [];
  hashed_fingerprints = [];
  cert_authorities = [];
  revoked = [];
}

abbrev pub row : String → String → String → String
row host fingerprint last = pad 24 host <> " " <> pad 60 fingerprint <> " " <> last

abbrev pub embedded_json : String × String × String → Json
embedded_json (host, fingerprint, algorithm) = object (
    fields (
      ("host", string host)
      ∷ ("fingerprint", string fingerprint)
      ∷ ("algorithm", string algorithm)
      ∷ []))

abbrev pub pin_json : Bool → String → String → Json
pin_json as_hashed pattern fingerprint = object (
    fields (
      ("host_pattern", string pattern)
      ∷ ("fingerprint", string fingerprint)
      ∷ ("hashed", boolean as_hashed)
      ∷ []))

abbrev pub authority_json : Authority → Json
authority_json a = object (
    fields (
      ("host_pattern", string a.host_pattern)
      ∷ ("fingerprint", string a.fingerprint)
      ∷ ("algorithm", string a.algorithm)
      ∷ []))

abbrev pub revoked_json : Pin → Json
revoked_json p =
    object (
      fields (("host_pattern", string p.host_pattern) ∷ ("fingerprint", string p.fingerprint) ∷ []))

module _ {W : Type 0} (E : Errors) (N : Network W E) (M : Machine W) where
  unfoldable pub resolve_path : Option String → W → Result E.Error String
  resolve_path (some path) w = ok path
  resolve_path none w = ok_or (N.default_known_hosts_path w) (
      E.invalid_config "could not resolve default known_hosts path; pass --known-hosts to override")

  abbrev pub probe_config : String → String → ProbeConfig
  probe_config host dir = record {
    host = host;
    strict_host_key_checking = no_checking;
    custom_known_hosts = M.join dir "probe_known_hosts";
  }

  captured : N.Session → Io W E.Error String
  captured session w = (
    ok_or (N.verified_fingerprint session w) (
        E.invalid_config
          "host-key fingerprint was not captured during probe (StrictHostKeyChecking::No path should always set it)"),
    w,
  )

  -- The fingerprint that the host shows, without credentials.
  unfoldable pub probe : String → Io W E.Error String
  unfolding captured
  probe host = with_context E "could not create temp dir for probe: " M.tempdir >>= λ dir.
      N.connect (probe_config host dir) >>= λ session.
      captured session >>= λ fingerprint. N.close session >>= λ _. give fingerprint

  detected : Result E.Error HashMode → Result E.Error Bool
  unfolding is_hashed
  detected (ok mode) = ok (is_hashed mode)
  detected (err e) = err e

  unfoldable pub choose_hashed : AddArgs → String → Io W E.Error Bool
  unfolding detected
  choose_hashed args path w = (
    if args.hash
        then ok true
        else if args.no_hash
        then ok false
        else detected (N.detect_hash_mode path w),
    w,
  )

  -- The confirmation, unless `--yes` is given.
  unfoldable pub confirm : Bool → OutputMode → Io W E.Error Answer
  unfolding answered is_json
  confirm true mode w = (ok confirmed, w)
  confirm false mode w =
      if is_json mode || not (M.stdin_is_terminal w)
      then (ok unavailable, w)
      else ((with_context E "could not read stdin: " M.read_line >>= λ line. give (answered line))
          w)

  abbrev pub append : Bool → String → String → String → Io W E.Error (Unit {0})
  append true = N.append_known_host_hashed
  append false = N.append_known_host

  unfoldable pub act_on :
      AddArgs → OutputMode → String → String → Bool → Answer → Io W E.Error Printed
  unfolding added
  act_on args mode path fingerprint as_hashed unavailable = give (exit_needs_yes, lines [])
  act_on args mode path fingerprint as_hashed declined = give (exit_user_declined, lines [])
  act_on args mode path fingerprint as_hashed confirmed =
      append as_hashed path args.host fingerprint >>= λ _.
      give (0, added mode args.host fingerprint path as_hashed)

  unfoldable pub run_add : AddArgs → OutputMode → Io W E.Error Printed
  unfolding resolve_path probe choose_hashed confirm act_on
  run_add args mode w =
      (lift (resolve_path args.known_hosts w) >>= λ path. probe args.host >>= λ fingerprint.
      choose_hashed args path >>= λ as_hashed.
      confirm args.yes mode >>= λ answer. act_on args mode path fingerprint as_hashed answer)
        w

  first_of : String → List String → Result E.Error (String × String)
  first_of input [] = err (
      E.invalid_config (
        "no fingerprints known for host '" <> input
        <> "'; nothing to revoke. Pass a SHA256:... fingerprint to revoke a specific key unconditionally, or run `gitway hosts add "
        <> input <> "` first."))
  first_of input (fingerprint ∷ others) = ok (input, fingerprint)

  trusted : String → Result E.Error (List String) → Result E.Error (String × String)
  unfolding first_of
  trusted input (ok fingerprints) = first_of input fingerprints
  trusted input (err e) = err e

  -- The host pattern and the fingerprint that a trimmed input stands for.
  unfoldable pub classify : String → String → W → Result E.Error (String × String)
  unfolding trusted
  classify path input w =
      if is_some (strip_prefix "SHA256:" input)
      then ok ("*", input)
      else trusted input (N.host_key_trust input (some path) w)

  unfoldable pub run_revoke : RevokeArgs → OutputMode → Io W E.Error Printed
  unfolding resolve_path classify revoked_output
  run_revoke args mode w =
      (lift (resolve_path args.known_hosts w) >>= λ path.
      (λ u. (classify path (trim args.input) u, u)) >>= λ (pattern, fingerprint).
      N.prepend_revoked path pattern fingerprint >>= λ _.
      give (0, revoked_output mode pattern fingerprint path))
        w

  parsed_text : String → Result String String → Result E.Error KnownHostsFile
  parsed_text path (ok content) = N.parse_known_hosts content
  parsed_text path (err e) =
      err (E.invalid_config ("could not read known_hosts " <> path <> ": " <> e))

  unfoldable pub load_known_hosts : String → W → Result E.Error KnownHostsFile
  unfolding parsed_text
  load_known_hosts path w =
      if M.exists path w then parsed_text path (M.read_to_string path w) else ok no_known_hosts

  unfoldable pub human_lines : String → KnownHostsFile → List String
  human_lines path k =
      "# Embedded (built into anvil-ssh)"
        ∷ map (λ (host, fingerprint, algorithm). row host fingerprint algorithm) N.all_embedded
      ++ ("" ∷ ("# User pins (" <> path <> ")") ∷ [])
      ++ map (λ (p : Pin). row p.host_pattern p.fingerprint "direct") k.direct
      ++ map (λ fingerprint. row "(hashed)" fingerprint "direct") k.hashed_fingerprints
      ++ ("" ∷ "# Cert authorities" ∷ [])
      ++ map (λ (a : Authority). row a.host_pattern a.fingerprint "ca") k.cert_authorities
      ++ ("" ∷ "# Revoked" ∷ [])
      ++ map (λ (p : Pin). row p.host_pattern p.fingerprint "revoked") k.revoked

  unfoldable pub json_fields : String → KnownHostsFile → List (String × Json)
  json_fields path k =
      ("known_hosts_path", string path)
      ∷ ("embedded", array (items embedded_json N.all_embedded))
      ∷ (
        "direct",
        array (
            items_before (λ (p : Pin). pin_json false p.host_pattern p.fingerprint) k.direct
              (items (λ fingerprint. pin_json true "(hashed)" fingerprint) k.hashed_fingerprints)),
      )
      ∷ ("cert_authorities", array (items authority_json k.cert_authorities))
      ∷ ("revoked", array (items revoked_json k.revoked))
      ∷ ("hashed_count", number (length k.hashed_fingerprints))
      ∷ []

  unfoldable pub listing : OutputMode → String → KnownHostsFile → Output
  unfolding human_lines json_fields
  listing json path k = document "gitway hosts list" (fields (json_fields path k))
  listing human path k = lines (human_lines path k)

  unfoldable pub run_list : ListArgs → OutputMode → Io W E.Error Printed
  unfolding resolve_path load_known_hosts listing
  run_list args mode w =
      (lift (resolve_path args.known_hosts w) >>= λ path.
      lift (load_known_hosts path w) >>= λ known. give (0, listing mode path known))
        w

  unfoldable pub run : Subcommand → OutputMode → Io W E.Error Printed
  unfolding run_add run_revoke run_list
  run (add args) mode = run_add args mode
  run (revoke args) mode = run_revoke args mode
  run (list args) mode = run_list args mode
