-- ===== src/Console/Tests.antt =====
-- The pure parts of gitway-cli/src/main.rs at the values of its own tests.
use gitway.Base.{
  String, ◌<>◌, ◌≡◌, ◌≢◌, refl, true, false, none, some, [], ◌∷◌, if◌then◌else◌, ◌==◌,
}
use gitway.Base.Text.{eq_ignore_ascii_case, lookup}
use gitway.Console.{human, json, Env, detect_output_mode, build_filter_directive, parse_user_host}
use gitway.Console.Laws.{parse_user_host-roundtrip}

filter_tests :
    (build_filter_directive 0 [] ≡ "warn")
    × (build_filter_directive 3 [] ≡ "gitway=trace,anvil_ssh=trace,russh=info")
    × (build_filter_directive 2 ("kex" ∷ "auth" ∷ [])
        ≡ "warn,anvil_ssh::kex=debug,anvil_ssh::auth=debug")
    × (build_filter_directive 1 ("russh" ∷ []) ≡ "warn,russh=info")
unfolding build_filter_directive lookup
filter_tests = (refl, refl, refl, refl)

abbrev in_ci : Env
in_ci name = if name == "CI" then some "TRUE" else none

mode_tests :
    (detect_output_mode false false in_ci false true ≡ json)
    × (detect_output_mode false false (λ name. none) true false ≡ json)
    × (detect_output_mode false false (λ name. none) false false ≡ human)
unfolding detect_output_mode eq_ignore_ascii_case
mode_tests = (refl, refl, refl)

parse_user_host-roundtrip_example :
    (◌≢◌ {A = String} "aur" ""
      → parse_user_host ("aur" <> "@" <> "aur.archlinux.org") ≡ (some "aur", "aur.archlinux.org"))
    × (parse_user_host ("@" <> "aur.archlinux.org") ≡ (none, "aur.archlinux.org"))
    × (parse_user_host "aur" ≡ (none, "aur"))
parse_user_host-roundtrip_example =
    parse_user_host-roundtrip "aur" "aur.archlinux.org" (refl, (refl, (refl, tt)))
