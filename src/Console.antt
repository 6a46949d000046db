-- ===== src/Console.antt =====
-- gitway-cli/src/main.rs: the output mode, the log filter and the `[user@]host` argument.
pub mod Laws
mod Tests
use gitway.Base.{
  ℕ, zero, suc, String, ◌<>◌, ◌==◌, ◌&&◌, ◌||◌, not, Bool, true, false, Option, none, some, List,
  [], ◌∷◌, map, if◌then◌else◌, unwrap_or,
}
use gitway.Base.Text.{is_empty_text, eq_ignore_ascii_case, split_once_at, lookup}

pub data OutputMode : Type 0 where
  human json : OutputMode

-- `std::env::var`
abbrev pub Env : Type 0
Env = String → Option String

abbrev is_one : Option String → Bool
is_one none = false
is_one (some v) = v == "1"

abbrev is_true : Option String → Bool
is_true none = false
is_true (some v) = eq_ignore_ascii_case v "true"

unfoldable pub is_agent_or_ci_env : Env → Bool
unfolding eq_ignore_ascii_case
is_agent_or_ci_env env =
    is_one (env "AI_AGENT")
    || is_one (env "AGENT")
    || is_true (env "CI")
    || is_one (env "CLAUDECODE")
    || is_one (env "CURSOR_AGENT")
    || is_one (env "GEMINI_CLI")

-- The flags `--json` and `--format json`, the environment, `check_tty`, and whether stdout is a
-- terminal.
unfoldable pub detect_output_mode : Bool → Bool → Env → Bool → Bool → OutputMode
unfolding is_agent_or_ci_env
detect_output_mode json_flag format_json env check_tty stdout_tty =
    if json_flag || format_json
    then json
    else if is_agent_or_ci_env env
    then json
    else if check_tty && not stdout_tty
    then json
    else human

unfoldable pub expand_category : String → String
unfolding lookup
expand_category short =
    unwrap_or
      (lookup short (
        ("kex", "anvil_ssh::kex")
        ∷ ("auth", "anvil_ssh::auth")
        ∷ ("channel", "anvil_ssh::channel")
        ∷ ("config", "anvil_ssh::config")
        ∷ []))
      short

abbrev pub level : ℕ → String
level zero = "warn"
level (suc zero) = "info"
level (suc (suc zero)) = "debug"
level (suc (suc (suc n))) = "trace"

abbrev defaults : ℕ → String
defaults zero = "warn"
defaults (suc zero) = "gitway=info,anvil_ssh=info,russh=warn"
defaults (suc (suc zero)) = "gitway=debug,anvil_ssh=debug,russh=info"
defaults (suc (suc (suc n))) = "gitway=trace,anvil_ssh=trace,russh=info"

-- `join(",")` of the directives after the first, each behind its comma.
abbrev pub commas : List String → String
commas [] = ""
commas (d ∷ ds) = "," <> d <> commas ds

unfoldable pub build_filter_directive : ℕ → List String → String
unfolding expand_category
build_filter_directive verbose [] = defaults verbose
build_filter_directive verbose (c ∷ categories) =
    "warn" <> commas (map (λ cat. expand_category cat <> "=" <> level verbose) (c ∷ categories))

abbrev pub user_host : String → Option (String × String) → Option String × String
user_host raw none = (none, raw)
user_host raw (some (user, host)) = if is_empty_text user then (none, host) else (some user, host)

unfoldable pub parse_user_host : String → Option String × String
unfolding split_once_at
parse_user_host raw = user_host raw (split_once_at raw)
