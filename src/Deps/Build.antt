-- ===== src/Deps/Build.antt =====
-- src/deps.ts: the graph that `buildDependencyGraphFromFiles` makes of the analyzed files.
pub mod Edges
pub mod Creators
pub mod Growth
pub mod References
use migraguard.Prelude.{
  Bool, true, false, not, ◌&&◌, ◌||◌, Option, none, some, List, [], ◌∷◌, ◌++◌, foldl, map, find,
  if◌then◌else◌,
}
use migraguard.Prelude.Text.{Text, codes, ◌==◌, starts_with, ends_with}
use migraguard.Prelude.Maps.{has, lookup, insert}
use migraguard.Naming.{Phase, phase_name}
use migraguard.Scanner.{MigrationFile}
use migraguard.Deps.{DependencyEdge, DependencyGraph}

pub data ObjectType : Type 0 where
  table view sequence function index type role schema database : ObjectType

pub record ObjectRef : Type 0 where
  pub object_type : ObjectType
  pub name : Text

-- OBJECT_NAMESPACES
abbrev pub object_namespace : ObjectType → Text
object_namespace table = codes "relation"
object_namespace view = codes "relation"
object_namespace sequence = codes "relation"
object_namespace index = codes "relation"
object_namespace function = codes "function"
object_namespace type = codes "type"
object_namespace role = codes "role"
object_namespace schema = codes "schema"
object_namespace database = codes "database"

unfoldable pub object_key : ObjectRef → Text
object_key ref = object_namespace ref.object_type ++ codes ":" ++ ref.name

-- The part of `FileDeps` that the graph is made of.
pub record FileDeps : Type 0 where
  pub creates : List ObjectRef
  pub references : List ObjectRef

pub record ExplicitDep : Type 0 where
  pub target : Text
  pub phase : Option Phase

-- What the function reads: the files, and for each the results of `analyzeFile`,
-- `parseExplicitDepsFromSql` and `parseExplicitDepsFromConfig`.
pub record BuildEnv : Type 0 where
  pub files : List MigrationFile
  pub analyze_file : MigrationFile → FileDeps
  pub explicit_deps : MigrationFile → List ExplicitDep
  pub config_deps : List (Text × List Text)

-- `edges` and `edgeSet`, which grow together.
pub record Building : Type 0 where
  pub edges : List DependencyEdge
  pub edge_set : List Text

-- `${from}->${to}`
abbrev pub edge_key : Text → Text → Text
edge_key from to = from ++ codes "->" ++ to

-- if (!edgeSet.has(key)) { edgeSet.add(key); edges.push({ from, to, via }); }
unfoldable pub push_edge : Text → Text → Text → Building → Building
push_edge from to via b = if has b.edge_set (edge_key from to) then b else record {
  edges = b.edges ++ record { from = from; to = to; via = via } ∷ [];
  edge_set = b.edge_set ++ edge_key from to ∷ [];
}

abbrev pub via_of : Option Phase → Text
via_of none = codes "(explicit)"
via_of (some p) = codes "(explicit:" ++ phase_name p ++ codes ")"

abbrev or_target : Text → Option Text → Text
or_target target none = target
or_target target (some name) = if name == [] then target else name

abbrev pub references_of : Option FileDeps → List ObjectRef
references_of none = []
references_of (some deps) = deps.references

abbrev pub configured_for : Option (List Text) → List Text
configured_for none = []
configured_for (some deps) = deps

module _ (env : BuildEnv) where
  abbrev pub graph_files : List Text
  graph_files = map (λ f. f.file_name) env.files

  -- `fileDeps`: of two files of one name the later one stays
  unfoldable pub file_deps : List (Text × FileDeps)
  file_deps = foldl (λ m f. insert f.file_name (env.analyze_file f) m) [] env.files

  abbrev pub add_creator : Text → List (Text × Text) → ObjectRef → List (Text × Text)
  add_creator file m obj = insert (object_key obj) file m

  abbrev pub add_creators : List (Text × Text) → Text × FileDeps → List (Text × Text)
  add_creators m (file, deps) = foldl (add_creator file) m deps.creates

  -- `objectCreators`
  unfoldable pub object_creators : List (Text × Text)
  unfolding file_deps
  object_creators = foldl add_creators [] file_deps

  -- An edge to the creator of a referenced object.
  unfoldable pub add_reference : Text → Building → ObjectRef → Building
  unfolding object_creators push_edge
  add_reference file b ref = elim (lookup (object_key ref) object_creators) [
    | none ↦ b
    | some creator ↦
        if not (creator == []) && not (creator == file)
        then push_edge file creator ref.name b
        else b
  ]

  -- The target itself, or the expand file of the group that it names.
  unfoldable pub resolve_target : Text → Text
  resolve_target target =
      if has graph_files target
      then target
      else or_target target (
          find (λ f. starts_with f (target ++ codes "/") && ends_with f (codes "_expand.sql"))
            graph_files)

  unfoldable pub add_explicit : Text → Building → ExplicitDep → Building
  unfolding resolve_target push_edge
  add_explicit file b dep =
      let target = resolve_target dep.target in
      if has graph_files target && not (target == file)
      then push_edge file target (via_of dep.phase) b
      else b

  unfoldable pub add_configured : Text → Building → Text → Building
  unfolding push_edge
  add_configured file b dep =
      if has graph_files dep && not (dep == file)
      then push_edge file dep (codes "(config)") b
      else b

  -- One round of the loop over the files. `fileDeps` has every file.
  unfoldable pub add_file_edges : Building → MigrationFile → Building
  unfolding add_reference add_explicit add_configured
  add_file_edges b f =
      let b1 = foldl (add_reference f.file_name) b (references_of (lookup f.file_name file_deps)) in
      let b2 = foldl (add_explicit f.file_name) b1 (env.explicit_deps f) in
      foldl (add_configured f.file_name) b2 (configured_for (lookup f.file_name env.config_deps))

  unfoldable pub build_dependency_graph_from_files : DependencyGraph
  unfolding add_file_edges
  build_dependency_graph_from_files = record {
    files = graph_files;
    edges = (foldl add_file_edges (record { edges = []; edge_set = [] }) env.files).edges;
  }
