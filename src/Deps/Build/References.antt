-- ===== src/Deps/Build/References.antt =====
-- src/deps.ts: the edges that references get in the graph of `buildDependencyGraphFromFiles`.
use mathlib.Core.Path.{subst}
use mathlib.Core.List.{Memᴰ}
use mathlib.Core.List.Memᴰ.{head, tail, not-nil}
use migraguard.Prelude.{
  ◌≡◌, refl, sym, ap, ◌∙◌, true, false, not, ◌&&◌, some, List, [], ◌∷◌, ◌++◌, foldl, map, arith,
  if_true, All, All-map, All-zip, Option-cases, inl, inr,
}
use migraguard.Prelude.Text.{Text, codes, ◌==◌, eq_refl}
use migraguard.Prelude.Maps.{has, lookup, insert, lookup-insert, Distinct}
use migraguard.Scanner.{MigrationFile}
use migraguard.Deps.{DependencyEdge}
use migraguard.Deps.Build.{
  ObjectRef, FileDeps, ExplicitDep, BuildEnv, Building, edge_key, push_edge, graph_files, file_deps,
  object_creators, add_reference, add_explicit, add_configured, add_file_edges,
  build_dependency_graph_from_files, object_key, resolve_target, references_of, configured_for,
  via_of,
}
use migraguard.Deps.Build.Creators.{makes, lookup-object_creators}
use migraguard.Deps.Build.Growth.{
  linked, KeysAgree, Grows, Grows-refl, Grows-trans, Grows-if, Grows-foldl, linked-push_edge,
  push_edge-Grows,
}

All-at {ℓ κ} : {A : Type ℓ} (P : A → Type κ) (xs : List A) (x : A) → All P xs → Memᴰ x xs → P x
All-at P [] x h m = absurd (not-nil m)
All-at P (y ∷ ys) x h m = elim m [ head e ↦ subst P (sym e) h.0 | tail k ↦ All-at P ys x h.1 k ]

module _ (env : BuildEnv) where
  reference-Grows :
      (file : Text) (b : Building) (ref : ObjectRef) → Grows b (add_reference env file b ref)
  unfolding add_reference
  reference-Grows file b ref = elim (Option-cases (lookup (object_key ref) (object_creators env))) [
    | inl nothing ↦ rw (nothing, add_reference) (Grows-refl b)
    | inr (creator, found) ↦
        rw (found, add_reference)
          (Grows-if (not (creator == []) && not (creator == file)) b _
            (push_edge-Grows file creator ref.name b))
  ]

  explicit-Grows :
      (file : Text) (b : Building) (dep : ExplicitDep) → Grows b (add_explicit env file b dep)
  unfolding add_explicit
  explicit-Grows file b dep =
      Grows-if _ b _ (push_edge-Grows file (resolve_target env dep.target) (via_of dep.phase) b)

  configured-Grows :
      (file : Text) (b : Building) (dep : Text) → Grows b (add_configured env file b dep)
  unfolding add_configured
  configured-Grows file b dep = Grows-if _ b _ (push_edge-Grows file dep (codes "(config)") b)

  -- The references of a file that another file creates have an edge.
  abbrev HasEdge : Text → List DependencyEdge → ObjectRef → Type 0
  HasEdge file edges ref =
      (creator : Text)
      → lookup (object_key ref) (object_creators env) ≡ some creator
      → (creator == []) ≡ false
      → (creator == file) ≡ false
      → linked (edge_key file creator) edges ≡ true

  HasEdge-Grows :
      (file : Text) (b c : Building)
      → Grows b c
      → (refs : List ObjectRef) → All (HasEdge file b.edges) refs
      → All (HasEdge file c.edges) refs
  HasEdge-Grows file b c (k, s) refs h =
      All-map _ _ refs
        (λ ref e creator found some_name other. k _ (e creator found some_name other)) h

  reference-HasEdge :
      (file : Text) (b : Building) (ref : ObjectRef)
      → KeysAgree b
      → HasEdge file (add_reference env file b ref).edges ref
  unfolding add_reference
  reference-HasEdge file b ref agree creator found some_name other =
      rw (found, add_reference)
        (rw
          (if_true (not (creator == []) && not (creator == file))
            (push_edge file creator ref.name b) b (ground arith))
          (linked-push_edge file creator ref.name (edge_key file creator) b agree
            ∙ if_true _ _ _ (eq_refl (edge_key file creator))))

  references-HasEdge :
      (file : Text) (refs : List ObjectRef) (b : Building)
      → KeysAgree b
      → All (HasEdge file (foldl (add_reference env file) b refs).edges) refs
  references-HasEdge file [] b agree = tt
  references-HasEdge file (ref ∷ refs) b agree =
      let b' = add_reference env file b ref in
      let rest = foldl (add_reference env file) b' refs in
      (
        (HasEdge-Grows file b' rest
            (Grows-foldl (add_reference env file) (reference-Grows file) refs b') (ref ∷ [])
            (reference-HasEdge file b ref agree, tt)).0,
        references-HasEdge file refs b' ((reference-Grows file b ref).1 agree),
      )

  -- What the loop over the files adds behind the references of a file.
  abbrev rest_of_file : MigrationFile → Building → Building
  rest_of_file f b =
      foldl (add_configured env f.file_name)
        (foldl (add_explicit env f.file_name) b (env.explicit_deps f))
        (configured_for (lookup f.file_name env.config_deps))

  rest_of_file-Grows : (f : MigrationFile) (b : Building) → Grows b (rest_of_file f b)
  rest_of_file-Grows f b =
      let b1 = foldl (add_explicit env f.file_name) b (env.explicit_deps f) in
      Grows-trans b b1 (rest_of_file f b)
        (Grows-foldl (add_explicit env f.file_name) (explicit-Grows f.file_name)
          (env.explicit_deps f) b)
        (Grows-foldl (add_configured env f.file_name) (configured-Grows f.file_name)
          (configured_for (lookup f.file_name env.config_deps)) b1)

  abbrev refs_of : MigrationFile → List ObjectRef
  refs_of f = references_of (lookup f.file_name (file_deps env))

  file-Grows : (b : Building) (f : MigrationFile) → Grows b (add_file_edges env b f)
  unfolding add_file_edges
  file-Grows b f =
      let b1 = foldl (add_reference env f.file_name) b (refs_of f) in
      Grows-trans b b1 (rest_of_file f b1)
        (Grows-foldl (add_reference env f.file_name) (reference-Grows f.file_name) (refs_of f) b)
        (rest_of_file-Grows f b1)

  file-HasEdge :
      (b : Building) (f : MigrationFile)
      → KeysAgree b
      → All (HasEdge f.file_name (add_file_edges env b f).edges) (refs_of f)
  unfolding add_file_edges
  file-HasEdge b f agree =
      let b1 = foldl (add_reference env f.file_name) b (refs_of f) in
      HasEdge-Grows f.file_name b1 (rest_of_file f b1) (rest_of_file-Grows f b1) (refs_of f)
        (references-HasEdge f.file_name (refs_of f) b agree)

  files-HasEdge :
      (fs : List MigrationFile) (b : Building)
      → KeysAgree b
      → All (λ f. All (HasEdge f.file_name (foldl (add_file_edges env) b fs).edges) (refs_of f)) fs
  files-HasEdge [] b agree = tt
  files-HasEdge (f ∷ fs) b agree =
      let b' = add_file_edges env b f in
      (
        HasEdge-Grows f.file_name b' (foldl (add_file_edges env) b' fs)
            (Grows-foldl (add_file_edges env) file-Grows fs b') (refs_of f)
            (file-HasEdge b f agree),
        files-HasEdge fs b' ((file-Grows b f).1 agree),
      )

  -- The analysis of a file under its name.
  lookup-others :
      (k : Text) (fs : List MigrationFile) (m : List (Text × FileDeps))
      → has (map (λ f. f.file_name) fs) k ≡ false
      → lookup k (foldl (λ m f. insert f.file_name (env.analyze_file f) m) m fs) ≡ lookup k m
  unfolding has
  lookup-others k [] m h = refl
  lookup-others k (f ∷ fs) m h =
      lookup-others k fs (insert f.file_name (env.analyze_file f) m) (ground arith)
      ∙ ground (arith, lookup-insert f.file_name k (env.analyze_file f) m)

  lookup-files :
      (fs : List MigrationFile) (m : List (Text × FileDeps))
      → Distinct (map (λ f. f.file_name) fs)
      → All
          (λ f.
            lookup f.file_name (foldl (λ m f. insert f.file_name (env.analyze_file f) m) m fs)
            ≡ some (env.analyze_file f))
          fs
  lookup-files [] m d = tt
  lookup-files (f ∷ fs) m d = (
    lookup-others f.file_name fs _ d.0
        ∙ lookup-insert f.file_name f.file_name (env.analyze_file f) m
        ∙ if_true _ _ _ (eq_refl f.file_name),
    lookup-files fs (insert f.file_name (env.analyze_file f) m) d.1,
  )

  files_linked :
      Distinct (graph_files env)
      → All
          (λ f.
            All
              (HasEdge f.file_name (build_dependency_graph_from_files env).edges)
              (env.analyze_file f).references)
          env.files
  unfolding build_dependency_graph_from_files has file_deps
  files_linked d =
      All-zip _ _ env.files
        (All-map _ _ env.files
          (λ f found h.
            subst
              (λ refs. All (HasEdge f.file_name (build_dependency_graph_from_files env).edges) refs)
              (ap references_of found) h)
          (lookup-files env.files [] d))
        (files-HasEdge env.files (record { edges = []; edge_set = [] }) (λ key. refl))

  -- For files of different names: if the analysis of a file finds a reference to an object that another
  -- file creates, and no file behind that one does, the built graph has an edge with the key of an edge
  -- from the file to that one. Objects are the same if their names are and their kinds share one
  -- space of names, as tables, views, sequences and indexes do. The name of the creator is not empty.
  pub references_linked :
      (f : MigrationFile) (ref : ObjectRef) (before : List MigrationFile) (g : MigrationFile)
      (after : List MigrationFile)
      → Distinct (graph_files env)
      → Memᴰ f env.files
      → Memᴰ ref (env.analyze_file f).references
      → env.files ≡ before ++ g ∷ after
      → makes (env.analyze_file g).creates ref ≡ true
      → All (λ h. makes (env.analyze_file h).creates ref ≡ false) after
      → (g.file_name == []) ≡ false
      → (g.file_name == f.file_name) ≡ false
      → linked (edge_key f.file_name g.file_name) (build_dependency_graph_from_files env).edges
        ≡ true
  references_linked f ref before g after d here there split made last some_name other =
      All-at _ (env.analyze_file f).references ref (All-at _ env.files f (files_linked d) here)
        there g.file_name (lookup-object_creators env before g after ref d split made last)
        some_name other
