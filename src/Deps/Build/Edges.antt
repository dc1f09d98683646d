-- ===== src/Deps/Build/Edges.antt =====
-- src/deps.ts: the edges of the graph that `buildDependencyGraphFromFiles` makes.
use mathlib.Core.Path.{subst}
use mathlib.Core.List.{append_assoc}
use migraguard.Prelude.{
  ◌≡◌, refl, Bool, true, false, not, ◌&&◌, some, List, [], ◌∷◌, ◌++◌, foldl, map, arith,
  if◌then◌else◌, All, All-append, Option-cases, inl, inr,
}
use migraguard.Prelude.Text.{Text, codes, ◌==◌, eq_refl, eq_sym}
use migraguard.Prelude.Maps.{has, lookup, insert, lookup-insert}
use migraguard.Scanner.{MigrationFile}
use migraguard.Deps.{DependencyEdge}
use migraguard.Deps.Build.{
  ObjectRef, FileDeps, BuildEnv, Building, push_edge, graph_files, file_deps, object_creators,
  add_reference, add_explicit, add_configured, add_file_edges, build_dependency_graph_from_files,
  object_key, resolve_target, references_of, configured_for, via_of,
}

-- The edge joins two different files of the graph.
abbrev pub JoinsFiles : List Text → DependencyEdge → Type 0
JoinsFiles files e = ((has files e.from && has files e.to) ≡ true) × ((e.from == e.to) ≡ false)

if-All :
    (files : List Text) (b : Bool) (x y : Building)
    → (b ≡ true → All (JoinsFiles files) x.edges)
    → (b ≡ false → All (JoinsFiles files) y.edges)
    → All (JoinsFiles files) (if b then x else y).edges
if-All files true x y t e = t refl
if-All files false x y t e = e refl

push_edge-All :
    (files : List Text) (from to via : Text) (b : Building)
    → (has files from && has files to) ≡ true
    → (from == to) ≡ false
    → All (JoinsFiles files) b.edges
    → All (JoinsFiles files) (push_edge from to via b).edges
unfolding push_edge
push_edge-All files from to via b in_files differ h =
    if-All files _ b _ (λ _. h)
      (λ _.
        All-append (JoinsFiles files) b.edges (record { from = from; to = to; via = via } ∷ []) h
          ((in_files, differ), tt))

foldl-All {ℓ} :
    {A : Type ℓ} (files : List Text) (step : Building → A → Building) (xs : List A) (b : Building)
    → ((b : Building) (x : A)
        → All (JoinsFiles files) b.edges
        → All (JoinsFiles files) (step b x).edges)
    → All (JoinsFiles files) b.edges
    → All (JoinsFiles files) (foldl step b xs).edges
foldl-All files step [] b keeps h = h
foldl-All files step (x ∷ xs) b keeps h = foldl-All files step xs (step b x) keeps (keeps b x h)

module _ (env : BuildEnv) where
  -- All creators are files of the graph.
  abbrev CreatorsIn : List (Text × Text) → Type 0
  CreatorsIn m = (k c : Text) → lookup k m ≡ some c → has (graph_files env) c ≡ true

  insert-CreatorsIn :
      (m : List (Text × Text)) (key file : Text)
      → has (graph_files env) file ≡ true
      → CreatorsIn m
      → CreatorsIn (insert key file m)
  insert-CreatorsIn m key file there h k c e =
      ground (arith, lookup-insert key k file m, h k c, there)

  add_creators-CreatorsIn :
      (objs : List ObjectRef) (m : List (Text × Text)) (file : Text)
      → has (graph_files env) file ≡ true
      → CreatorsIn m
      → CreatorsIn (foldl (λ m obj. insert (object_key obj) file m) m objs)
  add_creators-CreatorsIn [] m file there h = h
  add_creators-CreatorsIn (obj ∷ objs) m file there h =
      add_creators-CreatorsIn objs (insert (object_key obj) file m) file there
        (insert-CreatorsIn m (object_key obj) file there h)

  -- All keys are files of the graph.
  abbrev KeysIn : List (Text × FileDeps) → Type 0
  KeysIn = All (λ entry. has (graph_files env) entry.0 ≡ true)

  all-CreatorsIn :
      (deps : List (Text × FileDeps)) (m : List (Text × Text))
      → KeysIn deps
      → CreatorsIn m
      → CreatorsIn (
          foldl
            (λ m (entry : Text × FileDeps).
              foldl (λ m obj. insert (object_key obj) entry.0 m) m entry.1.creates)
            m
            deps)
  all-CreatorsIn [] m there h = h
  all-CreatorsIn ((file, d) ∷ deps) m there h =
      all-CreatorsIn deps _ there.1 (add_creators-CreatorsIn d.creates m file there.0 h)

  if-KeysIn :
      (b : Bool) (m n : List (Text × FileDeps)) → KeysIn m → KeysIn n → KeysIn (if b then m else n)
  if-KeysIn true m n p q = p
  if-KeysIn false m n p q = q

  insert-KeysIn :
      (m : List (Text × FileDeps)) (key : Text) (d : FileDeps)
      → has (graph_files env) key ≡ true
      → KeysIn m
      → KeysIn (insert key d m)
  unfolding insert
  insert-KeysIn [] key d there h = (there, tt)
  insert-KeysIn (entry ∷ m) key d there h =
      if-KeysIn (entry.0 == key) ((entry.0, d) ∷ m) (entry ∷ insert key d m) (h.0, h.1)
        (h.0, insert-KeysIn m key d there h.1)

  file_deps-KeysIn :
      (fs : List MigrationFile) (m : List (Text × FileDeps))
      → All (λ f. has (graph_files env) f.file_name ≡ true) fs
      → KeysIn m
      → KeysIn (foldl (λ m f. insert f.file_name (env.analyze_file f) m) m fs)
  file_deps-KeysIn [] m there h = h
  file_deps-KeysIn (f ∷ fs) m there h =
      file_deps-KeysIn fs _ there.1 (insert-KeysIn m f.file_name (env.analyze_file f) there.0 h)

has-map_append :
    (gs fs : List MigrationFile) (f : MigrationFile)
    → has (map (λ f. f.file_name) (gs ++ f ∷ fs)) f.file_name ≡ true
unfolding has
has-map_append [] fs f = ground (arith, eq_refl f.file_name)
has-map_append (g ∷ gs) fs f = ground (arith, has-map_append gs fs f)

names_there :
    (fs gs : List MigrationFile)
    → All (λ f. has (map (λ f. f.file_name) (gs ++ fs)) f.file_name ≡ true) fs
unfolding has
names_there [] gs = tt
names_there (f ∷ fs) gs = (
  has-map_append gs fs f,
  subst (λ hs. All (λ f. has (map (λ f. f.file_name) hs) f.file_name ≡ true) fs)
      (append_assoc gs (f ∷ []) fs) (names_there fs (gs ++ f ∷ [])),
)

module _ (env : BuildEnv) where
  creators_in :
      (k c : Text) → lookup k (object_creators env) ≡ some c → has (graph_files env) c ≡ true
  unfolding object_creators file_deps lookup
  creators_in =
      all-CreatorsIn env (file_deps env) []
        (file_deps-KeysIn env env.files [] (names_there env.files []) tt) (λ k c e. cc)

  reference-All :
      (file : Text) (b : Building) (ref : ObjectRef)
      → has (graph_files env) file ≡ true
      → All (JoinsFiles (graph_files env)) b.edges
      → All (JoinsFiles (graph_files env)) (add_reference env file b ref).edges
  unfolding add_reference
  reference-All file b ref there h =
      elim (Option-cases (lookup (object_key ref) (object_creators env))) [
        | inl nothing ↦ rw (nothing, add_reference) h
        | inr (creator, found) ↦
            rw (found, add_reference)
              (if-All (graph_files env) (not (creator == []) && not (creator == file)) _ b
                (λ fits.
                  push_edge-All (graph_files env) file creator ref.name b
                    (ground (arith, there, creators_in (object_key ref) creator found))
                    (ground (arith, eq_sym file creator)) h)
                (λ _. h))
      ]

  target-All :
      (file target via : Text) (b : Building)
      → has (graph_files env) file ≡ true
      → All (JoinsFiles (graph_files env)) b.edges
      → All
          (JoinsFiles (graph_files env))
          (if has (graph_files env) target && not (target == file)
            then push_edge file target via b
            else b).edges
  target-All file target via b there h =
      if-All (graph_files env) (has (graph_files env) target && not (target == file)) _ b
        (λ fits.
          push_edge-All (graph_files env) file target via b (ground (arith, there))
            (ground (arith, eq_sym file target)) h)
        (λ _. h)

  file-All :
      (f : MigrationFile) (b : Building)
      → has (graph_files env) f.file_name ≡ true
      → All (JoinsFiles (graph_files env)) b.edges
      → All (JoinsFiles (graph_files env)) (add_file_edges env b f).edges
  unfolding add_file_edges add_explicit add_configured
  file-All f b there h =
      let refs = references_of (lookup f.file_name (file_deps env)) in
      let b1 = foldl (add_reference env f.file_name) b refs in
      let b2 = foldl (add_explicit env f.file_name) b1 (env.explicit_deps f) in
      let h1 =
        foldl-All (graph_files env) (add_reference env f.file_name) refs b
          (λ b ref k. reference-All f.file_name b ref there k) h in
      let h2 =
        foldl-All (graph_files env) (add_explicit env f.file_name) (env.explicit_deps f) b1
          (λ b dep k.
            target-All f.file_name (resolve_target env dep.target) (via_of dep.phase) b there k)
          h1 in
      foldl-All (graph_files env) (add_configured env f.file_name)
        (configured_for (lookup f.file_name env.config_deps)) b2
        (λ b dep k. target-All f.file_name dep (codes "(config)") b there k) h2

  files-All :
      (fs : List MigrationFile) (b : Building)
      → All (λ f. has (graph_files env) f.file_name ≡ true) fs
      → All (JoinsFiles (graph_files env)) b.edges
      → All (JoinsFiles (graph_files env)) (foldl (add_file_edges env) b fs).edges
  files-All [] b there h = h
  files-All (f ∷ fs) b there h =
      files-All fs (add_file_edges env b f) there.1 (file-All f b there.0 h)

  -- Each edge of the graph that is built, whatever the analysis finds, joins two different files of the
  -- graph.
  pub built_edges_join :
      let g = build_dependency_graph_from_files env in All (JoinsFiles g.files) g.edges
  unfolding build_dependency_graph_from_files
  built_edges_join =
      files-All env.files (record { edges = []; edge_set = [] }) (names_there env.files []) tt
