-- ===== src/Session.antt =====
-- gitway-cli/src/main.rs: the way to the host, the passphrase that is asked for before connecting,
-- the authentication, `run_exec` and what `run_test` returns. The crate anvil-ssh, which is not part
-- of the repository, is the parameter `Ssh`; the build is for Unix, where the agent is asked.

pub mod Route
pub mod Auth
mod Tests
use gitway.Base.{
  ℕ, String, ◌<>◌, ◌==◌, ◌&&◌, ◌||◌, not, Bool, true, false, Option, none, some, List, [], ◌∷◌,
  Result, ok, err, if◌then◌else◌, or_else,
}
use gitway.Base.Io.{Io, ◌>>=◌, ◌>>◌, give, lift, fail}
use gitway.Base.Text.{eq_ignore_ascii_case}

-- `IdentityResolution`
pub data Identity : Type 0 where
  found encrypted : String → Identity
  not_found : Identity

pub record Ssh (W : Type 0) : Type 1 where
  pub Error : Type 0
  pub is_key_encrypted : Error → Bool
  pub is_no_key_found : Error → Bool
  pub no_key_found : Error
  pub authentication_failed : Error
  pub Config : Type 0
  pub JumpHost : Type 0
  pub Session : Type 0
  pub parse_jump_chain : String → Result Error (List JumpHost)
  pub find_identity : Config → W → Result Error Identity
  -- Whether the agent is reachable and holds an identity: `Ok(Some(_))`.
  pub agent_has_keys : W → Bool × W
  pub connect : Config → Io W Error Session
  pub connect_via_proxy_command : Config → String → String → Io W Error Session
  pub connect_via_jump_hosts : Config → List JumpHost → Io W Error Session
  pub authenticate_best : Session → Config → Io W Error (Unit {0})
  pub authenticate_with_passphrase : Session → Config → String → String → Io W Error (Unit {0})
  pub exec : Session → String → Io W Error ℕ
  pub close : Session → Io W Error (Unit {0})

-- What the resolver of ssh_config gives, where it ran.
pub record Resolved : Type 0 where
  pub proxy_command : Option String
  pub proxy_jump : Option String

-- `join(sep)`
abbrev pub join : String → List String → String
join sep [] = ""
join sep (x ∷ []) = x
join sep (x ∷ y ∷ ys) = x <> sep <> join sep (y ∷ ys)

abbrev pub resolved_proxy : Option Resolved → Option String
resolved_proxy none = none
resolved_proxy (some r) = r.proxy_command

abbrev pub resolved_jump : Option Resolved → Option String
resolved_jump none = none
resolved_jump (some r) = r.proxy_jump

module _ {W : Type 0} (S : Ssh W) where
  -- A chain in one text, where `none` is the empty chain.
  pub chain_of : String → Result S.Error (List S.JumpHost)
  unfolding eq_ignore_ascii_case
  chain_of raw = if eq_ignore_ascii_case raw "none" then ok [] else S.parse_jump_chain raw

  unfoldable pub jump_chain : List String → Option Resolved → Result S.Error (List S.JumpHost)
  unfolding chain_of
  jump_chain (h ∷ []) r = chain_of h
  jump_chain (h ∷ g ∷ hosts) r = S.parse_jump_chain (join "," (h ∷ g ∷ hosts))
  jump_chain [] r = elim (resolved_jump r) [ none ↦ ok [] | some raw ↦ chain_of raw ]

  abbrev with_chain :
      Option String
      → Result S.Error (List S.JumpHost)
      → Result S.Error (Option String × List S.JumpHost)
  with_chain proxy (ok hosts) = ok (proxy, hosts)
  with_chain proxy (err e) = err e

  -- The flags `--proxy-command` and `--jump-host`, and what ssh_config gave.
  unfoldable pub resolve_proxy_directives :
      Option String
      → List String
      → Option Resolved
      → Result S.Error (Option String × List S.JumpHost)
  unfolding jump_chain
  resolve_proxy_directives proxy_command jump_hosts r =
      with_chain (or_else proxy_command (resolved_proxy r)) (jump_chain jump_hosts r)

  -- `filter`: a literal `none` is no proxy.
  unfoldable pub effective_proxy : Option String → Option String
  unfolding eq_ignore_ascii_case
  effective_proxy none = none
  effective_proxy (some s) = if eq_ignore_ascii_case s "none" then none else some s

  pub unproxied : S.Config → List S.JumpHost → Io W S.Error S.Session
  unproxied config [] = S.connect config
  unproxied config (h ∷ hosts) = S.connect_via_jump_hosts config (h ∷ hosts)

  unfoldable pub connect_session :
      S.Config → String → Option String → List S.JumpHost → Io W S.Error S.Session
  unfolding effective_proxy unproxied
  connect_session config alias proxy hosts = elim (effective_proxy proxy) [
    | none ↦ unproxied config hosts
    | some template ↦ S.connect_via_proxy_command config template alias
  ]

  abbrev pub on_disk : Result S.Error Identity → Bool
  on_disk (ok not_found) = false
  on_disk (ok (found path)) = true
  on_disk (ok (encrypted path)) = true
  on_disk (err e) = false

  unfoldable pub reclassify_no_key_found : S.Config → S.Error → W → S.Error × W
  reclassify_no_key_found config e w =
      let key_on_disk = on_disk (S.find_identity config w) in
      let (agent_has_keys, w') = S.agent_has_keys w in
      (if key_on_disk || agent_has_keys then S.authentication_failed else e, w')

  -- `prompt_passphrase`
  module _ (prompt : String → Io W S.Error String) where
    pub without_agent : String → Bool × W → Result S.Error (Option (String × String)) × W
    without_agent path (true, w) = (ok none, w)
    without_agent path (false, w) = (prompt path >>= λ passphrase. give (some (passphrase, path))) w

    pub collecting : Result S.Error Identity → Io W S.Error (Option (String × String))
    unfolding without_agent
    collecting (err e) w = (err e, w)
    collecting (ok not_found) w = (ok none, w)
    collecting (ok (found path)) w = (ok none, w)
    collecting (ok (encrypted path)) w = without_agent path (S.agent_has_keys w)

    unfoldable pub maybe_collect_passphrase : S.Config → Io W S.Error (Option (String × String))
    unfolding collecting
    maybe_collect_passphrase config w = collecting (S.find_identity config w) w

    pub unlocking : S.Session → S.Config → Result S.Error Identity → Io W S.Error (Unit {0})
    unlocking session config (err e) w = (err e, w)
    unlocking session config (ok not_found) w = (err S.no_key_found, w)
    unlocking session config (ok (found path)) w = (err S.no_key_found, w)
    unlocking session config (ok (encrypted path)) w =
        (prompt path >>= λ passphrase.
        S.authenticate_with_passphrase session config path passphrase)
          w

    pub after_best : S.Session → S.Config → Result S.Error (Unit {0}) → Io W S.Error (Unit {0})
    unfolding unlocking reclassify_no_key_found
    after_best session config (ok _) w = (ok tt, w)
    after_best session config (err e) w =
        if S.is_key_encrypted e
        then unlocking session config (S.find_identity config w) w
        else if S.is_no_key_found e
        then (let (e', w') = reclassify_no_key_found config e w in (err e', w'))
        else (err e, w)

    unfoldable pub authenticate_with_prompt : S.Session → S.Config → Io W S.Error (Unit {0})
    unfolding after_best
    authenticate_with_prompt session config w =
        let (r, w') = S.authenticate_best session config w in after_best session config r w'

    -- With the passphrase that was collected before connecting, or by the prompt.
    unfoldable pub authenticate :
        S.Session → S.Config → Option (String × String) → Io W S.Error (Unit {0})
    unfolding authenticate_with_prompt
    authenticate session config none = authenticate_with_prompt session config
    authenticate session config (some (passphrase, path)) =
        S.authenticate_with_passphrase session config path passphrase

    unfoldable pub run_exec :
        S.Config → List String → String → Option String → List S.JumpHost → Io W S.Error ℕ
    unfolding maybe_collect_passphrase connect_session authenticate
    run_exec config parts alias proxy hosts = maybe_collect_passphrase config >>= λ pre.
        connect_session config alias proxy hosts >>= λ session.
        authenticate session config pre >>= λ _.
        S.exec session (join " " parts) >>= λ code. S.close session >>= λ _. give code

    abbrev no_key : Result S.Error (Unit {0}) → Bool
    no_key (ok _) = false
    no_key (err e) = S.is_no_key_found e

    abbrev pub ended : Result S.Error (Unit {0}) → Io W S.Error ℕ
    ended (ok _) w = (ok 0, w)
    ended (err e) w = (if S.is_no_key_found e then ok 0 else err e, w)

    -- What `run_test` makes of the result of the authentication; `is_json` is the output mode. For a
    -- human, an error that is not a missing key comes back whatever the closing gives.
    unfoldable pub concluded : Bool → S.Session → Result S.Error (Unit {0}) → Io W S.Error ℕ
    concluded is_json session (ok _) = S.close session >>= λ _. give 0
    concluded true session (err e) = S.close session >>= λ _. ended (err e)
    concluded false session (err e) =
        if S.is_no_key_found e
        then (S.close session >>= λ _. give 0)
        else (λ w. (err e, (S.close session w).1))

    unfoldable pub run_test :
        S.Config → String → Option String → List S.JumpHost → Bool → Io W S.Error ℕ
    unfolding maybe_collect_passphrase connect_session authenticate concluded
    run_test config alias proxy hosts is_json = maybe_collect_passphrase config >>= λ pre.
        connect_session config alias proxy hosts >>= λ session.
        λ w. let (r, w') = authenticate session config pre w in concluded is_json session r w'
