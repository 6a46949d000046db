-- ===== src/Base/Listed.antt =====
-- Texts that stand in a list.
use Prim.Native.String.{String}
use mathlib.Core.Path.{◌≡◌}
use mathlib.Core.Logic.{inl, inr}
use mathlib.Core.Bool.{true}
use mathlib.Core.List.{List, [], ◌∷◌}
use text.Mathlib.Text.{◌==◌}
use text.Mathlib.TextEquality.{eq_iff}
use package.gitway.Base.Tests.{any, Bool-cases}

pub data Listed (text : String) : List String → Type 0 where
  here : {texts : List String} → Listed text (text ∷ texts)
  later : {other : String} {texts : List String} → Listed text texts → Listed text (other ∷ texts)

pub any-Listed :
    (text : String) (texts : List String) → any (λ t. t == text) texts ≡ true → Listed text texts
any-Listed text [] h = cc
any-Listed text (t ∷ texts) h = elim (Bool-cases (t == text)) [
  | inl same ↦ rw ((eq_iff t text).0 same) here
  | inr other ↦ later (any-Listed text texts (rw other at h))
]

pub none_listed : {P : Type 0} {a : String} → Listed a [] → P
none_listed l = elim l [ ]
