-- ===== src/Deps/Extract/Ranges/Found.antt =====
-- src/deps.ts: which tables `collectRangeVarsFromNode` finds.
use mathlib.Core.List.{Memᴰ}
use mathlib.Core.List.Memᴰ.{append_left, append_right, append_cases, not-nil}
use migraguard.Prelude.{
  ◌≡◌, refl, ◌⊎◌, inl, inr, ◌↔◌, Bool, true, false, some, List, [], ◌++◌, if◌then◌else◌,
}
use migraguard.Prelude.Text.{Text, codes}
use migraguard.Prelude.Maps.{has}
use migraguard.Ast.{
  Json, null, boolean, number, string, array, object, Items, empty, item, Fields, end, entry,
  field_at,
}
use migraguard.Deps.Build.{ObjectRef}
use migraguard.Deps.Extract.Ranges.{
  bare_range_var_fields, push_range_var, collect_range_vars_from_node, collect_items,
  collect_fields, ItemOf, first, later, FieldOf, here, below, Names, wrapped, bare, in_item,
  in_field,
}

Memᴰ-if_true :
    {r : ObjectRef} (b : Bool) (xs : List ObjectRef)
    → b ≡ true
    → Memᴰ r xs
    → Memᴰ r (if b then xs else [])
Memᴰ-if_true true xs h m = m
Memᴰ-if_true false xs h m = cc

Memᴰ-if_cases :
    {r : ObjectRef} (b : Bool) (xs : List ObjectRef)
    → Memᴰ r (if b then xs else [])
    → (b ≡ true) × Memᴰ r xs
Memᴰ-if_cases true xs m = (refl, m)
Memᴰ-if_cases false xs m = absurd (not-nil m)

module _ (ref : ObjectRef) where
  of_bare :
      (key : Text) (j : Json) (fields : Fields)
      → FieldOf key j fields
      → has bare_range_var_fields key ≡ true
      → Memᴰ ref (push_range_var (some j))
      → Memᴰ ref (collect_fields fields)
  unfolding collect_range_vars_from_node
  of_bare key j end x h m = elim x [ ]
  of_bare key j (entry _ _ rest) here h m = append_left (collect_fields rest) (
      append_left (collect_range_vars_from_node j)
        (Memᴰ-if_true (has bare_range_var_fields key) (push_range_var (some j)) h m))
  of_bare key j (entry _ _ rest) (below f) h m = append_right _ (of_bare key j rest f h m)

  of_field :
      (key : Text) (j : Json) (fields : Fields)
      → FieldOf key j fields
      → Memᴰ ref (collect_range_vars_from_node j)
      → Memᴰ ref (collect_fields fields)
  unfolding collect_range_vars_from_node
  of_field key j end x m = elim x [ ]
  of_field key j (entry _ _ rest) here m = append_left (collect_fields rest) (append_right _ m)
  of_field key j (entry _ _ rest) (below f) m = append_right _ (of_field key j rest f m)

  of_item :
      (j : Json) (items : Items)
      → ItemOf j items
      → Memᴰ ref (collect_range_vars_from_node j)
      → Memᴰ ref (collect_items items)
  unfolding collect_range_vars_from_node
  of_item j empty x m = elim x [ ]
  of_item j (item _ rest) first m = append_left (collect_items rest) m
  of_item j (item k rest) (later i) m =
      append_right (collect_range_vars_from_node k) (of_item j rest i m)

  found : (j : Json) → Names ref j → Memᴰ ref (collect_range_vars_from_node j)
  unfolding collect_range_vars_from_node
  found (object fields) (wrapped m) = append_left (collect_fields fields) m
  found (object fields) (bare key j f h m) = append_right _ (of_bare key j fields f h m)
  found (object fields) (in_field key j f n) = append_right _ (of_field key j fields f (found j n))
  found (array items) (in_item j i n) = of_item j items i (found j n)
  found null x = elim x [ ]
  found (boolean _) x = elim x [ ]
  found (number _) x = elim x [ ]
  found (string _) x = elim x [ ]

  -- Where a field of an object names the table.
  abbrev InField : Fields → Type 0
  InField fields =
      (key : Text) × (j : Json) × (FieldOf key j fields)
      × (((has bare_range_var_fields key ≡ true) × Memᴰ ref (push_range_var (some j)))
          ⊎ Names ref j)

  abbrev InItem : Items → Type 0
  InItem items = (j : Json) × (ItemOf j items) × Names ref j

  to_below : (k : Text) (i : Json) (fields : Fields) → InField fields → InField (entry k i fields)
  to_below k i fields (key, j, f, n) = (key, j, below f, n)

  to_later : (k : Json) (items : Items) → InItem items → InItem (item k items)
  to_later k items (j, i, n) = (j, later i, n)

  of_in_field : (fields : Fields) → InField fields → Names ref (object fields)
  of_in_field fields (key, j, f, inl (h, m)) = bare key j f h m
  of_in_field fields (key, j, f, inr n) = in_field key j f n

  mutual
    unfolding collect_range_vars_from_node

    names : (j : Json) → Memᴰ ref (collect_range_vars_from_node j) → Names ref j
    names null m = absurd (not-nil m)
    names (boolean b) m = absurd (not-nil m)
    names (number n) m = absurd (not-nil m)
    names (string s) m = absurd (not-nil m)
    names (array items) m = let i = names_item items m in in_item i.0 i.1 i.2
    names (object fields) m =
        elim (append_cases (push_range_var (field_at (codes "RangeVar") fields)) m) [
          | inl h ↦ wrapped h
          | inr h ↦ of_in_field fields (names_field fields h)
        ]

    names_item : (items : Items) → Memᴰ ref (collect_items items) → InItem items
    names_item empty m = absurd (not-nil m)
    names_item (item j rest) m = elim (append_cases (collect_range_vars_from_node j) m) [
      | inl h ↦ (j, first, names j h)
      | inr h ↦ to_later j rest (names_item rest h)
    ]

    names_field : (fields : Fields) → Memᴰ ref (collect_fields fields) → InField fields
    names_field end m = absurd (not-nil m)
    names_field (entry key j rest) m =
        let own = if has bare_range_var_fields key then push_range_var (some j) else [] in
        elim (append_cases (own ++ collect_range_vars_from_node j) m) [
          | inr h ↦ to_below key j rest (names_field rest h)
          | inl h ↦ elim (append_cases own h) [
            | inl h ↦ (
              key,
              j,
              here,
              inl (Memᴰ-if_cases (has bare_range_var_fields key) (push_range_var (some j)) h),
            )
            | inr h ↦ (key, j, here, inr (names j h))
          ]
        ]

-- A reference is in what `collectRangeVarsFromNode` pushes for a tree exactly if a range variable
-- of the tree names its table: one that stands wrapped in a RangeVar node or bare in a field
-- `relation` or `rel`, at any depth.
pub collected_ranges :
    (ref : ObjectRef) (j : Json) → Memᴰ ref (collect_range_vars_from_node j) ↔ Names ref j
collected_ranges ref j = (names ref j, found ref j)
