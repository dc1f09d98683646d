-- ===== src/Deps/Build/Creators.antt =====
-- src/deps.ts: which file `objectCreators` has for an object.
use mathlib.Core.List.{append-nil, append_assoc}
use migraguard.Prelude.{
  ◌≡◌, refl, sym, ap, ◌∙◌, Bool, true, false, ◌&&◌, ◌||◌, some, List, [], ◌∷◌, ◌++◌, foldl, map,
  any, arith, if◌then◌else◌, All, every, not, nat_eq,
}
use migraguard.Prelude.Text.{Text, ◌==◌, eq_iff}
use migraguard.Prelude.Maps.{has, lookup, insert, lookup-insert, Distinct}
use migraguard.Scanner.{MigrationFile}
use migraguard.Deps.Build.{
  ObjectType, table, view, sequence, function, index, type, role, schema, database, ObjectRef,
  FileDeps, BuildEnv, graph_files, file_deps, object_creators, object_key, object_namespace,
  add_creator, add_creators,
}

-- Tables, views, sequences and indexes have their names in common; every other kind has its own.
abbrev pub same_kind : ObjectType → ObjectType → Bool
same_kind function function = true
same_kind type type = true
same_kind role role = true
same_kind schema schema = true
same_kind database database = true
same_kind function _ = false
same_kind type _ = false
same_kind role _ = false
same_kind schema _ = false
same_kind database _ = false
same_kind _ function = false
same_kind _ type = false
same_kind _ role = false
same_kind _ schema = false
same_kind _ database = false
same_kind _ _ = true

abbrev pub same_object : ObjectRef → ObjectRef → Bool
same_object a b = same_kind a.object_type b.object_type && (a.name == b.name)

has_no_colon : Text → Bool
has_no_colon s = every (λ c. not (nat_eq c 58)) s

-- The first colon parts a key.
colon-same :
    (p q m n : Text)
    → has_no_colon p ≡ true
    → has_no_colon q ≡ true
    → ((p ++ 58 ∷ m) == (q ++ 58 ∷ n)) ≡ ((p == q) && (m == n))
unfolding ◌==◌ has_no_colon
colon-same [] [] m n h k = refl
colon-same [] (b ∷ q) m n h k = ground (arith, k)
colon-same (a ∷ p) [] m n h k = ground (arith, h)
colon-same (a ∷ p) (b ∷ q) m n h k = ground (arith, h, k, colon-same p q m n)

namespace-no_colon : (t : ObjectType) → has_no_colon (object_namespace t) ≡ true
unfolding has_no_colon
namespace-no_colon table = refl
namespace-no_colon view = refl
namespace-no_colon sequence = refl
namespace-no_colon function = refl
namespace-no_colon index = refl
namespace-no_colon type = refl
namespace-no_colon role = refl
namespace-no_colon schema = refl
namespace-no_colon database = refl

namespace-same : (s t : ObjectType) → (object_namespace s == object_namespace t) ≡ same_kind s t
unfolding ◌==◌
namespace-same _ _ = ground arith

pub object_key-same : (a b : ObjectRef) → (object_key a == object_key b) ≡ same_object a b
unfolding object_key
object_key-same a b =
    ap (λ k. k == object_key b) (append_assoc (object_namespace a.object_type) (58 ∷ []) a.name)
    ∙ ap (λ k. (object_namespace a.object_type ++ 58 ∷ a.name) == k)
        (append_assoc (object_namespace b.object_type) (58 ∷ []) b.name)
    ∙ colon-same (object_namespace a.object_type) (object_namespace b.object_type) a.name b.name
        (namespace-no_colon a.object_type) (namespace-no_colon b.object_type)
    ∙ ap (λ k. k && (a.name == b.name)) (namespace-same a.object_type b.object_type)

-- The objects have the one that is meant.
abbrev pub makes : List ObjectRef → ObjectRef → Bool
makes objects ref = any (λ o. same_object o ref) objects

module _ (env : BuildEnv) where
  abbrev creators_of : MigrationFile → List ObjectRef
  creators_of f = (env.analyze_file f).creates

  lookup-add_creator :
      (file : Text) (objects : List ObjectRef) (m : List (Text × Text)) (ref : ObjectRef)
      → lookup (object_key ref) (foldl (add_creator env file) m objects)
        ≡ (if makes objects ref then some file else lookup (object_key ref) m)
  lookup-add_creator file [] m ref = refl
  lookup-add_creator file (o ∷ objects) m ref = ground (
    arith,
    lookup-add_creator file objects (insert (object_key o) file m) ref,
    lookup-insert (object_key o) (object_key ref) file m,
    object_key-same o ref,
  )

  -- The pairs of `fileDeps`, in the order of the files.
  abbrev pairs : List MigrationFile → List (Text × FileDeps)
  pairs fs = map (λ f. (f.file_name, env.analyze_file f)) fs

  lookup-later :
      (fs : List MigrationFile) (m : List (Text × Text)) (ref : ObjectRef)
      → All (λ f. makes (creators_of f) ref ≡ false) fs
      → lookup (object_key ref) (foldl (add_creators env) m (pairs fs)) ≡ lookup (object_key ref) m
  lookup-later [] m ref h = refl
  lookup-later (f ∷ fs) m ref h =
      lookup-later fs (foldl (add_creator env f.file_name) m (creators_of f)) ref h.1
      ∙ lookup-add_creator f.file_name (creators_of f) m ref
      ∙ ap (λ b. if b then some f.file_name else lookup (object_key ref) m) h.0

  lookup-creator :
      (before : List MigrationFile) (g : MigrationFile) (after : List MigrationFile)
      (m : List (Text × Text)) (ref : ObjectRef)
      → makes (creators_of g) ref ≡ true
      → All (λ f. makes (creators_of f) ref ≡ false) after
      → lookup (object_key ref) (foldl (add_creators env) m (pairs (before ++ g ∷ after)))
        ≡ some g.file_name
  lookup-creator [] g after m ref made last =
      lookup-later after (foldl (add_creator env g.file_name) m (creators_of g)) ref last
      ∙ lookup-add_creator g.file_name (creators_of g) m ref
      ∙ ap (λ b. if b then some g.file_name else lookup (object_key ref) m) made
  lookup-creator (f ∷ before) g after m ref made last =
      lookup-creator before g after (foldl (add_creator env f.file_name) m (creators_of f)) ref made
        last

  insert-absent :
      (k : Text) (v : FileDeps) (m : List (Text × FileDeps))
      → has (map (λ e. e.0) m) k ≡ false
      → insert k v m ≡ m ++ (k, v) ∷ []
  unfolding insert has
  insert-absent k v [] h = refl
  insert-absent k v (e ∷ m) h = ground (arith, insert-absent k v m)

  has-keys-snoc :
      (k : Text) (v : FileDeps) (m : List (Text × FileDeps)) (n : Text)
      → has (map (λ e. e.0) (m ++ (k, v) ∷ [])) n ≡ (has (map (λ e. e.0) m) n || (k == n))
  unfolding has
  has-keys-snoc k v [] n = ground arith
  has-keys-snoc k v (e ∷ m) n = ground (arith, has-keys-snoc k v m n)

  -- No name of the files is a key of the map.
  abbrev AreNew : List (Text × FileDeps) → List MigrationFile → Type 0
  AreNew m fs = All (λ f. has (map (λ e. e.0) m) f.file_name ≡ false) fs

  AreNew-snoc :
      (k : Text) (v : FileDeps) (m : List (Text × FileDeps)) (fs : List MigrationFile)
      → AreNew m fs
      → has (map (λ f. f.file_name) fs) k ≡ false
      → AreNew (m ++ (k, v) ∷ []) fs
  unfolding has
  AreNew-snoc k v m [] h d = tt
  AreNew-snoc k v m (f ∷ fs) h d = (
    ground
        (arith, h.0, has-keys-snoc k v m f.file_name, eq_iff k f.file_name, eq_iff f.file_name k),
    AreNew-snoc k v m fs h.1 (ground (arith, d)),
  )

  file_deps-pairs :
      (fs : List MigrationFile) (m : List (Text × FileDeps))
      → AreNew m fs
      → Distinct (map (λ f. f.file_name) fs)
      → foldl (λ m f. insert f.file_name (env.analyze_file f) m) m fs ≡ m ++ pairs fs
  file_deps-pairs [] m h d = sym (append-nil m)
  file_deps-pairs (f ∷ fs) m h d =
      let v = env.analyze_file f in
      let snoc = m ++ (f.file_name, v) ∷ [] in
      ap (λ m. foldl (λ m f. insert f.file_name (env.analyze_file f) m) m fs)
        (insert-absent f.file_name v m h.0)
      ∙ file_deps-pairs fs snoc (AreNew-snoc f.file_name v m fs h.1 d.0) d.1
      ∙ append_assoc m ((f.file_name, v) ∷ []) (pairs fs)

  all_new : (fs : List MigrationFile) → AreNew [] fs
  unfolding has
  all_new [] = tt
  all_new (f ∷ fs) = (refl, all_new fs)

  -- The creator of an object is the last file that makes it.
  pub lookup-object_creators :
      (before : List MigrationFile) (g : MigrationFile) (after : List MigrationFile)
      (ref : ObjectRef)
      → Distinct (graph_files env)
      → env.files ≡ before ++ g ∷ after
      → makes (creators_of g) ref ≡ true
      → All (λ f. makes (creators_of f) ref ≡ false) after
      → lookup (object_key ref) (object_creators env) ≡ some g.file_name
  unfolding object_creators file_deps
  lookup-object_creators before g after ref d split made last =
      ap (λ m. lookup (object_key ref) (foldl (add_creators env) [] m))
        (file_deps-pairs env.files [] (all_new env.files) d ∙ ap pairs split)
      ∙ lookup-creator before g after [] ref made last
