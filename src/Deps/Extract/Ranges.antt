-- ===== src/Deps/Extract/Ranges.antt =====
-- src/deps.ts: the tables that a query reads or writes.
pub mod Found
use mathlib.Core.List.{Memᴰ}
use migraguard.Prelude.{
  ◌≡◌, refl, ◌⊎◌, inl, inr, ◌↔◌, Bool, true, false, Option, none, some, List, [], ◌∷◌, ◌++◌,
  if◌then◌else◌, Bool-cases, if_true,
}
use migraguard.Prelude.Text.{Text, codes, ◌==◌}
use migraguard.Prelude.Maps.{has}
use migraguard.Ast.{
  Json, null, boolean, number, string, array, object, Items, empty, item, Fields, end, entry, Value,
  field_at,
}
use migraguard.Deps.Build.{table, ObjectRef}
use migraguard.Deps.Extract.Names.{push_range}

-- BARE_RANGE_VAR_FIELDS
abbrev pub bare_range_var_fields : List Text
bare_range_var_fields = codes "relation" ∷ codes "rel" ∷ []

unfoldable pub push_range_var : Value → List ObjectRef
unfolding push_range
push_range_var node = push_range table node

-- An array is read item by item, and so is an array in an array.
unfoldable mutual
  unfolding push_range_var

  pub collect_range_vars_from_node : Json → List ObjectRef
  collect_range_vars_from_node (object fields) =
      push_range_var (field_at (codes "RangeVar") fields) ++ collect_fields fields
  collect_range_vars_from_node (array items) = collect_items items
  collect_range_vars_from_node null = []
  collect_range_vars_from_node (boolean b) = []
  collect_range_vars_from_node (number n) = []
  collect_range_vars_from_node (string s) = []

  pub collect_items : Items → List ObjectRef
  collect_items empty = []
  collect_items (item j rest) = collect_range_vars_from_node j ++ collect_items rest

  pub collect_fields : Fields → List ObjectRef
  collect_fields end = []
  collect_fields (entry key value rest) =
      (if has bare_range_var_fields key then push_range_var (some value) else [])
      ++ collect_range_vars_from_node value
      ++ collect_fields rest

-- A value stands in an array, and under a key in an object.
pub data ItemOf (j : Json) : Items → Type 0 where
  first : {rest : Items} → ItemOf j (item j rest)
  later : {k : Json} {rest : Items} → ItemOf j rest → ItemOf j (item k rest)

pub data FieldOf (key : Text) (j : Json) : Fields → Type 0 where
  here : {rest : Fields} → FieldOf key j (entry key j rest)
  below :
      {k : Text} {i : Json} {rest : Fields} → FieldOf key j rest → FieldOf key j (entry k i rest)

-- `ref` is the table of a range variable somewhere in the tree: one that stands wrapped in an
-- object, one that stands bare in a field for it, or one of an item or a field.
pub data Names (ref : ObjectRef) : Json → Type 0 where
  wrapped :
      {fields : Fields}
      → Memᴰ ref (push_range_var (field_at (codes "RangeVar") fields))
      → Names ref (object fields)
  bare :
      {fields : Fields} (key : Text) (j : Json)
      → FieldOf key j fields
      → has bare_range_var_fields key ≡ true
      → Memᴰ ref (push_range_var (some j))
      → Names ref (object fields)
  in_item : {items : Items} (j : Json) → ItemOf j items → Names ref j → Names ref (array items)
  in_field :
      {fields : Fields} (key : Text) (j : Json)
      → FieldOf key j fields
      → Names ref j
      → Names ref (object fields)
