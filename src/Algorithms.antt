-- ===== src/Algorithms.antt =====
-- gitway-cli/src/algorithms.rs: `gitway list-algorithms`. The catalogue, from anvil-ssh, is an argument.
mod Tests
use gitway.Base.{ℕ, String, ◌<>◌, Bool, true, false, List, [], ◌∷◌, ◌++◌, map, if◌then◌else◌}
use gitway.Base.Json.{
  Json, string, boolean, array, object, Items, items, Output, lines, document, fields,
}
use gitway.Console.{OutputMode, human, json}
use gitway.Hosts.{pad}

-- What the code reads of `AlgEntry` and `Catalogue`.
pub record AlgEntry : Type 0 where
  pub name : String
  pub is_default : Bool
  pub denylisted : Bool

pub record Catalogue : Type 0 where
  pub kex : List AlgEntry
  pub cipher : List AlgEntry
  pub mac : List AlgEntry
  pub host_key : List AlgEntry

unfoldable pub tag : AlgEntry → String
tag entry =
    if entry.denylisted then "denylisted" else (if entry.is_default then "default" else "available")

unfoldable pub format_entry : AlgEntry → String
unfolding tag pad
format_entry entry = pad 44 entry.name <> " " <> tag entry

abbrev pub formatted : List AlgEntry → List String
formatted entries = map (λ entry. format_entry entry) entries

abbrev pub emit_human_catalogue : Catalogue → List String
emit_human_catalogue cat =
    ("# KEX" ∷ formatted cat.kex)
    ++ (("" ∷ "# Ciphers" ∷ formatted cat.cipher)
        ++ (("" ∷ "# MACs" ∷ formatted cat.mac)
            ++ ("" ∷ "# Host-key algorithms" ∷ formatted cat.host_key)))

abbrev pub entry_to_json : AlgEntry → Json
entry_to_json entry = object (
    fields (
      ("name", string entry.name)
      ∷ ("is_default", boolean entry.is_default)
      ∷ ("denylisted", boolean entry.denylisted)
      ∷ []))

abbrev listed : List AlgEntry → Json
listed entries = array (items entry_to_json entries)

abbrev pub emit_json_catalogue : Catalogue → Output
emit_json_catalogue cat = document "gitway list-algorithms" (
    fields (
      ("kex", listed cat.kex)
      ∷ ("cipher", listed cat.cipher)
      ∷ ("mac", listed cat.mac)
      ∷ ("host_key", listed cat.host_key)
      ∷ []))

-- The exit code and what is printed.
unfoldable pub run : Catalogue → OutputMode → ℕ × Output
run cat json = (0, emit_json_catalogue cat)
run cat human = (0, lines (emit_human_catalogue cat))
