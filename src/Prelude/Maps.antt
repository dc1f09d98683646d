-- ===== src/Prelude/Maps.antt =====
-- JavaScript's `Set` and `Map` with string members and keys, in insertion order.
use mathlib.Core.Path.{◌≡◌, refl}
use mathlib.Core.Bool.{Bool, true, false, ◌||◌}
use mathlib.Core.Option.{Option, none, some}
use mathlib.Core.List.{List, [], ◌∷◌, ◌++◌}
use native.Mathlib.Omega.{arith}
use migraguard.Prelude.Tests.{if◌then◌else◌}
use migraguard.Prelude.Text.{Text, ◌==◌, eq_iff}

-- set.has(k), and xs.includes(k) on a list of strings
unfoldable pub has : List Text → Text → Bool
has [] k = false
has (x ∷ xs) k = (x == k) || has xs k

-- set.add(k)
unfoldable pub add : Text → List Text → List Text
add k xs = if has xs k then xs else xs ++ k ∷ []

-- No member twice.
abbrev pub Distinct : List Text → Type 0
Distinct [] = Unit
Distinct (x ∷ xs) = (has xs x ≡ false) × Distinct xs

pub has-append : (xs ys : List Text) (k : Text) → has (xs ++ ys) k ≡ (has xs k || has ys k)
unfolding has
has-append [] ys k = refl
has-append (x ∷ xs) ys k = ground (arith, has-append xs ys k)

pub has-add : (k : Text) (xs : List Text) (j : Text) → has (add k xs) j ≡ ((k == j) || has xs j)
unfolding has add
has-add k xs j = ground (arith, has-append xs (k ∷ []) j, eq_iff k j)

-- `has` answers alike for equal keys.
pub Distinct-snoc :
    (xs : List Text) (k : Text) → Distinct xs → has xs k ≡ false → Distinct (xs ++ k ∷ [])
unfolding has
Distinct-snoc [] k d h = (refl, tt)
Distinct-snoc (x ∷ xs) k d h =
    ground (arith, Distinct-snoc xs k d.1, has-append xs (k ∷ []) x, eq_iff x k, eq_iff k x)

pub Distinct-add : (k : Text) (xs : List Text) → Distinct xs → Distinct (add k xs)
unfolding add
Distinct-add k xs d = ground (arith, Distinct-snoc xs k d)

module _ {ℓ} {V : Type ℓ} where
  -- map.get(k)
  unfoldable pub lookup : (key : Text) (map : List (Text × V)) → Option V
  lookup key [] = none
  lookup key (entry ∷ rest) = if entry.0 == key then some entry.1 else lookup key rest

  -- map.set(key, value): a key that is there keeps its place
  unfoldable pub insert : (key : Text) (value : V) (map : List (Text × V)) → List (Text × V)
  insert key value [] = (key, value) ∷ []
  insert key value (entry ∷ rest) =
      if entry.0 == key then (entry.0, value) ∷ rest else entry ∷ insert key value rest

  pub lookup-insert :
      (set asked : Text) (value : V) (map : List (Text × V))
      → lookup asked (insert set value map)
        ≡ (if set == asked then some value else lookup asked map)
  unfolding lookup insert
  lookup-insert set asked value [] = refl
  lookup-insert set asked value (entry ∷ rest) = ground (
    arith,
    lookup-insert set asked value rest,
    eq_iff entry.0 asked,
    eq_iff set asked,
    eq_iff entry.0 set,
  )

  abbrev pub keys : List (Text × V) → List Text
  keys [] = []
  keys (entry ∷ rest) = entry.0 ∷ keys rest

  has-keys-insert :
      (key : Text) (value : V) (map : List (Text × V)) (asked : Text)
      → has (keys (insert key value map)) asked ≡ ((key == asked) || has (keys map) asked)
  unfolding insert has
  has-keys-insert key value [] asked = refl
  has-keys-insert key value (entry ∷ rest) asked =
      ground (arith, has-keys-insert key value rest asked, eq_iff entry.0 key)

  Distinct-keys_if :
      (b : Bool) (m n : List (Text × V))
      → Distinct (keys m)
      → (b ≡ false → Distinct (keys n))
      → Distinct (keys (if b then m else n))
  Distinct-keys_if true m n p q = p
  Distinct-keys_if false m n p q = q refl

  pub Distinct-keys-insert :
      (key : Text) (value : V) (map : List (Text × V))
      → Distinct (keys map)
      → Distinct (keys (insert key value map))
  unfolding insert has
  Distinct-keys-insert key value [] d = (refl, tt)
  Distinct-keys-insert key value (entry ∷ rest) d =
      Distinct-keys_if (entry.0 == key) ((entry.0, value) ∷ rest) (entry ∷ insert key value rest) d
        (λ other. (
          ground (
            arith,
            has-keys-insert key value rest entry.0,
            eq_iff key entry.0,
            eq_iff entry.0 key,
            d.0,
          ),
          Distinct-keys-insert key value rest d.1,
        ))

  pub lookup-not_key :
      (key : Text) (map : List (Text × V)) → has (keys map) key ≡ false → lookup key map ≡ none
  unfolding has lookup
  lookup-not_key key [] h = refl
  lookup-not_key key (entry ∷ rest) h = ground (arith, lookup-not_key key rest)
