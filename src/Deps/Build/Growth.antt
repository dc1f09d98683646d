-- ===== src/Deps/Build/Growth.antt =====
-- src/deps.ts: `edges` and `edgeSet` grow together, and no step takes an edge away.
use migraguard.Prelude.{
  ◌≡◌, ap, Bool, true, false, List, [], ◌∷◌, foldl, any, any-append, arith, if◌then◌else◌,
}
use migraguard.Prelude.Text.{Text, ◌==◌, eq_iff}
use migraguard.Prelude.Maps.{has, has-append}
use migraguard.Deps.{DependencyEdge}
use migraguard.Deps.Build.{Building, edge_key, push_edge}

-- An edge has the key.
abbrev pub linked : Text → List DependencyEdge → Bool
linked key edges = any (λ e. edge_key e.from e.to == key) edges

-- The set has the keys of the edges.
abbrev pub KeysAgree : Building → Type 0
KeysAgree b = (key : Text) → has b.edge_set key ≡ linked key b.edges

-- A step keeps the edges, and the set their keys.
abbrev pub Grows : Building → Building → Type 0
Grows b b' =
    ((key : Text) → linked key b.edges ≡ true → linked key b'.edges ≡ true)
    × (KeysAgree b → KeysAgree b')

pub Grows-refl : (b : Building) → Grows b b
Grows-refl b = (λ key h. h, λ h. h)

pub Grows-trans : (b c d : Building) → Grows b c → Grows c d → Grows b d
Grows-trans b c d (k, s) (k', s') = (λ key h. k' key (k key h), λ h. s' (s h))

pub Grows-if : (t : Bool) (b c : Building) → Grows b c → Grows b (if t then c else b)
Grows-if true b c h = h
Grows-if false b c h = Grows-refl b

pub Grows-foldl {ℓ} :
    {A : Type ℓ} (step : Building → A → Building)
    → ((b : Building) (x : A) → Grows b (step b x))
    → (xs : List A) (b : Building) → Grows b (foldl step b xs)
Grows-foldl step h [] b = Grows-refl b
Grows-foldl step h (x ∷ xs) b =
    Grows-trans b (step b x) (foldl step (step b x) xs) (h b x) (Grows-foldl step h xs (step b x))

pub linked-push_edge :
    (from to via key : Text) (b : Building)
    → KeysAgree b
    → linked key (push_edge from to via b).edges
      ≡ (if edge_key from to == key then true else linked key b.edges)
unfolding push_edge
linked-push_edge from to via key b agree = ground (
  arith,
  agree (edge_key from to),
  any-append (λ e. edge_key e.from e.to == key) b.edges
      (record { from = from; to = to; via = via } ∷ []),
  eq_iff (edge_key from to) key,
  ap (λ k. linked k b.edges) {x = edge_key from to} {y = key},
)

pub push_edge-Grows : (from to via : Text) (b : Building) → Grows b (push_edge from to via b)
unfolding push_edge has
push_edge-Grows from to via b =
    let added : DependencyEdge = record { from = from; to = to; via = via } in
    (
      λ key h. ground (arith, any-append (λ e. edge_key e.from e.to == key) b.edges (added ∷ [])),
      λ agree key. ground (
        arith,
        agree key,
        any-append (λ e. edge_key e.from e.to == key) b.edges (added ∷ []),
        has-append b.edge_set (edge_key from to ∷ []) key,
      ),
    )
