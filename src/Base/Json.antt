-- ===== src/Base/Json.antt =====
-- What a command prints: lines for a human, or the `data` of a JSON document with the name that its
-- metadata carry.
use Prim.Native.Nat.{ℕ, suc}
use Prim.Native.String.{String}
use mathlib.Core.Bool.{Bool}
use package.gitway.Base.Signed.{ℤ}
use mathlib.Core.List.{List, [], ◌∷◌}

mutual
  pub data Json : Type 0 where
    null : Json
    string : String → Json
    number : ℕ → Json
    signed : ℤ → Json
    boolean : Bool → Json
    array : Items → Json
    object : Fields → Json

  pub data Items : Type 0 where
    no_items : Items
    item : Json → Items → Items

  pub data Fields : Type 0 where
    no_fields : Fields
    field : String → Json → Fields → Fields

pub data Output : Type 0 where
  lines : List String → Output
  document : String → Fields → Output

module _ {A : Type 0} (f : A → Json) where
  -- `iter().map(f).collect()`, before the items `rest`.
  abbrev pub items_before : List A → Items → Items
  items_before [] rest = rest
  items_before (a ∷ others) rest = item (f a) (items_before others rest)

  abbrev pub items : List A → Items
  items given = items_before given no_items

abbrev pub fields : List (String × Json) → Fields
fields [] = no_fields
fields ((name, value) ∷ rest) = field name value (fields rest)

abbrev pub count_items : Items → ℕ
count_items no_items = 0
count_items (item j rest) = suc (count_items rest)
