-- ===== src/Config/Paths.antt =====
-- gitway-cli/src/config.rs: `display_path` and `looks_like_private_key`, with the methods of Rust's
-- `Path` that they call, on Unix and for paths of valid UTF-8.
use gitway.Base.{
  ℕ, String, ◌==◌, ◌&&◌, ◌||◌, not, Bool, true, false, Option, none, some, List, [], ◌∷◌, or_else,
  nat_eq, if◌then◌else◌,
}
use gitway.Base.Text.{codes, eq_ignore_ascii_case, is_empty_text}
use Prim.Native.Char.{Char, code}

abbrev onto_first : Char → List String → List String
onto_first c [] = String.◌∷◌ c "" ∷ []
onto_first c (part ∷ parts) = String.◌∷◌ c part ∷ parts

-- The parts between the slashes.
unfoldable split_slash : String → List String
split_slash String.[] = "" ∷ []
split_slash (String.◌∷◌ c s) =
    let parts = split_slash s in if nat_eq (code c) b'/' then "" ∷ parts else onto_first c parts

-- The last part that is neither empty nor a dot.
unfoldable last_part : List String → Option String
last_part [] = none
last_part (part ∷ parts) =
    or_else (last_part parts) (if is_empty_text part || (part == ".") then none else some part)

abbrev unless_dots : Option String → Option String
unless_dots none = none
unless_dots (some part) = if part == ".." then none else some part

-- `Path::file_name`
unfoldable pub file_name : String → Option String
unfolding split_slash last_part
file_name path = unless_dots (last_part (split_slash path))

abbrev before_dot : Char → String → Option (String × String) → Option (String × String)
before_dot c s (some (stem, ext)) = some (String.◌∷◌ c stem, ext)
before_dot c s none = if nat_eq (code c) b'.' then some ("", s) else none

-- The text before the last dot and after it.
unfoldable rsplit_dot : String → Option (String × String)
rsplit_dot String.[] = none
rsplit_dot (String.◌∷◌ c s) = before_dot c s (rsplit_dot s)

abbrev after_stem : Option (String × String) → Option String
after_stem none = none
after_stem (some (stem, ext)) = if is_empty_text stem then none else some ext

-- `Path::extension`, of a file name.
unfoldable pub extension : String → Option String
unfolding rsplit_dot
extension name = if name == ".." then none else after_stem (rsplit_dot name)

abbrev starts : List ℕ → List ℕ → Bool
starts [] cs = true
starts (k ∷ ks) [] = false
starts (k ∷ ks) (c ∷ cs) = nat_eq k c && starts ks cs

abbrev contains_codes : List ℕ → List ℕ → Bool
contains_codes needle [] = starts needle []
contains_codes needle (c ∷ cs) = starts needle (c ∷ cs) || contains_codes needle cs

-- `str::contains`, the text first.
unfoldable pub contains : String → String → Bool
contains text needle = contains_codes (codes needle) (codes text)

abbrev is_pub : Option String → Bool
is_pub none = false
is_pub (some ext) = eq_ignore_ascii_case ext "pub"

unfoldable pub private_name : String → String → Bool
unfolding extension contains eq_ignore_ascii_case
private_name path name =
    not (is_pub (extension name))
    && contains name "id_"
    && (contains path ".ssh" || contains path "/.config/gitway/keys")

abbrev named_private : String → Option String → Bool
named_private path none = false
named_private path (some name) = private_name path name

unfoldable pub looks_like_private_key : String → Bool
unfolding file_name
looks_like_private_key path = named_private path (file_name path)

abbrev pub redacted : String
redacted = "[REDACTED]"

unfoldable pub display_path : String → Bool → String
unfolding looks_like_private_key
display_path path show_secrets =
    if show_secrets || not (looks_like_private_key path) then path else redacted
