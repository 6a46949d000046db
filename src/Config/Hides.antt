-- ===== src/Config/Hides.antt =====
-- `run_show` of gitway-cli/src/config.rs: what it keeps from whoever reads its output.
use gitway.Base.{
  ap, String, ◌≡◌, refl, sym, ◌∙◌, true, false, Option, none, some, List, [], ◌∷◌, map, ok,
}
use gitway.Base.Json.{Items, Output, lines}
use gitway.Config.{
  first, shown_agent, emit_human_show, emit_json_show, cert_and_revoked_json, emit_show,
  after_resolve, run_show, ssh_config_paths_from_args,
}
use gitway.Config.Types.{Resolved, Resolver, ConfigShowArgs}
use gitway.Config.Paths.{looks_like_private_key, display_path}
use gitway.Console.{OutputMode, human, json}
use gitway.Errors.{Errors}

-- The same path, or two that both look like private keys.
pub data Alike (p q : String) : Type 0 where
  same_path : p ≡ q → Alike p q
  both_private : looks_like_private_key p ≡ true → looks_like_private_key q ≡ true → Alike p q

pub data AlikeFiles : List String → List String → Type 0 where
  no_files : AlikeFiles [] []
  next_file :
      {p q : String} {ps qs : List String}
      → Alike p q
      → AlikeFiles ps qs
      → AlikeFiles (p ∷ ps) (q ∷ qs)

pub data AlikeAgents : Option String → Option String → Type 0 where
  no_agent : AlikeAgents none none
  agents : {p q : String} → Alike p q → AlikeAgents (some p) (some q)

-- The rest of a configuration.
abbrev pub without_identities : Resolved → Resolved
without_identities r = record r { identity_files = []; identity_agent = none }

-- Two configurations that differ in the names of private keys at most.
pub record AlikeConfigs (r s : Resolved) : Type 0 where
  pub files : AlikeFiles r.identity_files s.identity_files
  pub agent : AlikeAgents r.identity_agent s.identity_agent
  pub rest : without_identities r ≡ without_identities s

display_path-Alike : {p q : String} → Alike p q → display_path p false ≡ display_path q false
unfolding display_path
display_path-Alike (same_path same) = ap (λ p. display_path p false) same
display_path-Alike (both_private p_private q_private) = rw (p_private, q_private) refl

map-AlikeFiles :
    {ps qs : List String}
    → AlikeFiles ps qs
    → map (λ p. display_path p false) ps ≡ map (λ p. display_path p false) qs
map-AlikeFiles no_files = refl
map-AlikeFiles (next_file {p} {q} {ps} {qs} alike rest) =
    let head = display_path-Alike alike in let tail = map-AlikeFiles rest in cc

shown_agent-Alike :
    {a b : Option String} → AlikeAgents a b → shown_agent false a ≡ shown_agent false b
shown_agent-Alike no_agent = refl
shown_agent-Alike (agents alike) = ap some (display_path-Alike alike)

module _ {W : Type 0} (E : Errors) (C : Resolver W E) where
  -- The output from what is shown of the identities, the audited keys and the rest.
  abbrev output :
      String → OutputMode → List String → Option String → Items × Items → Resolved → Output
  output host json files agent audit r = emit_json_show E C host files agent audit r
  output host human files agent audit r = lines (emit_human_show E C files agent r)

  emit_show-output :
      (args : ConfigShowArgs) (mode : OutputMode) (r : Resolved) (w : W)
      → emit_show E C args mode r w
        ≡ output args.host mode
            (map (λ p. display_path p args.show_secrets) r.identity_files)
            (shown_agent args.show_secrets r.identity_agent)
            (cert_and_revoked_json E C args.host (first r.user_known_hosts_files) w)
            (without_identities r)
  unfolding emit_show emit_json_show emit_human_show
  emit_show-output args json r w = refl
  emit_show-output args human r w = refl

  module _ (args : ConfigShowArgs) (mode : OutputMode) (w v : W)
      (hidden : args.show_secrets ≡ false)
      (trusted : (path : Option String)
        → C.host_key_trust args.host path w ≡ C.host_key_trust args.host path v) where
    cert_and_revoked_json-same :
        (path : Option String)
        → cert_and_revoked_json E C args.host path w ≡ cert_and_revoked_json E C args.host path v
    unfolding cert_and_revoked_json
    cert_and_revoked_json-same path = rw (trusted path) refl

    emit_show-Alike :
        {r s : Resolved}
        → AlikeConfigs r s
        → emit_show E C args mode r w ≡ emit_show E C args mode s v
    emit_show-Alike {r} {s} alike =
        let files = map-AlikeFiles (alike.files) in
        let agent = shown_agent-Alike (alike.agent) in
        let rest = alike.rest in
        let audit = cert_and_revoked_json-same (first r.user_known_hosts_files) in
        let known : cert_and_revoked_json E C args.host (first r.user_known_hosts_files) v
            ≡ cert_and_revoked_json E C args.host (first s.user_known_hosts_files) v =
          ap (λ t. cert_and_revoked_json E C args.host (first t.user_known_hosts_files) v) rest in
        let left = emit_show-output args mode r w in
        let right = emit_show-output args mode s v in
        left ∙ (rw (hidden, files, agent, audit, known, rest) refl) ∙ sym right

    -- Without --show-secrets, two runs whose resolved configurations differ in nothing but the paths of
    -- identity files and of the agent that look like private keys, and whose files of known hosts
    -- say the same of the host, print the same, in either mode.
    pub run_show-hides :
        (r s : Resolved)
        → C.resolve args.host (ssh_config_paths_from_args E C args w) w ≡ ok r
        → C.resolve args.host (ssh_config_paths_from_args E C args v) v ≡ ok s
        → AlikeConfigs r s
        → run_show E C args mode w ≡ run_show E C args mode v
    unfolding run_show after_resolve
    run_show-hides r s first_resolved second_resolved alike =
        rw (first_resolved, second_resolved) (ap (λ o. ok (0, o)) (emit_show-Alike alike))
