-- ===== src/Commands/Squash.antt =====
-- src/commands/squash.ts: a group of new files is merged into one.
pub mod Folders
pub mod Settles
pub mod Unread
pub mod Components
pub mod Run
use migraguard.Prelude.{
  Bool, true, false, not, Option, none, some, List, [], ◌∷◌, ◌++◌, map, keep, get_last?, ◌>>=◌,
  if◌then◌else◌, length, nat_eq,
}
use migraguard.Prelude.Text.{Text, codes, ◌==◌}
use migraguard.Prelude.Maps.{has, lookup, insert}
use migraguard.Checksum.{normalize_sql}
use migraguard.Scanner.{MigrationFile}
use migraguard.Metadata.{MetadataJson, MigrationEntry, add_entry, is_dag_mode}

-- The files under the migration directories, by path.
abbrev pub Folder : Type 0
Folder = List (Text × Text)

-- The configuration, `localeCompare(a, b) < 0` and the digest of the platform.
pub record SquashEnv : Type 0 where
  pub migrations_dir : Text
  pub locale_lt : Text → Text → Bool
  pub sha256 : Text → Text

-- What is on disk after the command, and if it threw.
pub record Squashed : Type 0 where
  pub folder : Folder
  pub metadata : MetadataJson
  pub threw : Bool

-- parts.join(separator)
unfoldable pub join_texts : Text → List Text → Text
join_texts separator [] = []
join_texts separator (x ∷ []) = x
join_texts separator (x ∷ y ∷ xs) = x ++ (separator ++ join_texts separator (y ∷ xs))

-- group[group.length - 1] of an empty list has no `parsed`, and the access throws.
unfoldable pub build_squashed_file_name : List MigrationFile → Option Text
unfolding join_texts
build_squashed_file_name [] = none
build_squashed_file_name (f ∷ fs) = do
  latest ← get_last? (f ∷ fs)
  let combined = join_texts (codes "_and_") (map (λ g. g.parsed.description) (f ∷ fs))
  let name = latest.parsed.timestamp ++ (codes "__" ++ (combined ++ codes ".sql"))
  some (if f.parsed.prefix == [] then name else f.parsed.prefix ++ (codes "_" ++ name))

-- unlink(path)
unfoldable pub unlink : Text → Folder → Option Folder
unlink path folder = elim (lookup path folder) [
  | none ↦ none
  | some _ ↦ some (keep (λ e. not (e.0 == path)) folder)
]

unfoldable pub source_text : MigrationFile → Text → Text
source_text f content = codes "-- Source: " ++ (f.file_name ++ (10 ∷ content))

unfoldable pub read_contents : List MigrationFile → Folder → Option (List Text)
unfolding source_text
read_contents [] folder = some []
read_contents (f ∷ fs) folder = do
  content ← lookup f.file_path folder
  rest ← read_contents fs folder
  some (source_text f content ∷ rest)

-- The folder behind the loop of `unlink`, and if a call threw.
unfoldable pub remove_files : List MigrationFile → Folder → Folder × Bool
unfolding unlink
remove_files [] folder = (folder, false)
remove_files (f ∷ fs) folder = elim (unlink f.file_path folder) [
  | none ↦ (folder, true)
  | some left ↦ remove_files fs left
]

-- checksumString(content)
unfoldable pub checksum_string : (Text → Text) → Text → Option Text
checksum_string sha256 content = do normal ← normalize_sql content; some (sha256 normal)

module _ (env : SquashEnv) where
  unfoldable pub insert_by_key : MigrationFile → List MigrationFile → List MigrationFile
  insert_by_key f [] = f ∷ []
  insert_by_key f (g ∷ gs) =
      if env.locale_lt g.parsed.sort_key f.parsed.sort_key
      then g ∷ insert_by_key f gs
      else f ∷ g ∷ gs

  -- [...group].sort((a, b) => compareSortKeys(a.parsed.sortKey, b.parsed.sortKey)), which is stable
  unfoldable pub sorted_by_key : List MigrationFile → List MigrationFile
  unfolding insert_by_key
  sorted_by_key [] = []
  sorted_by_key (f ∷ fs) = insert_by_key f (sorted_by_key fs)

  -- const merged = contents.join('\n\n'), under a header for each file
  unfoldable pub merge_contents : List Text → Text
  unfolding join_texts
  merge_contents contents = join_texts (10 ∷ 10 ∷ []) contents

  unfoldable pub squashed_path : Text → Text
  squashed_path name = env.migrations_dir ++ (codes "/" ++ name)

  -- `loaded` is the metadata before the call. A throw leaves it as it is.
  abbrev pub after_removal : Folder × Bool → Option Text → Text → MetadataJson → Squashed
  after_removal (folder, true) checksum name loaded = record {
    folder = folder;
    metadata = loaded;
    threw = true;
  }
  after_removal (folder, false) none name loaded = record {
    folder = folder;
    metadata = loaded;
    threw = true;
  }
  after_removal (folder, false) (some checksum) name loaded = record {
    folder = folder;
    metadata =
        add_entry loaded
          (record { file = name; checksum = checksum; migration_class = none; group_name = none });
    threw = false;
  }

  abbrev pub squash_sorted :
      List MigrationFile → Option (List Text) → Option Text → MetadataJson → Folder → Squashed
  squash_sorted sorted none _ loaded folder = record {
    folder = folder;
    metadata = loaded;
    threw = true;
  }
  squash_sorted sorted (some contents) none loaded folder = record {
    folder = folder;
    metadata = loaded;
    threw = true;
  }
  squash_sorted sorted (some contents) (some name) loaded folder =
      let written = insert (squashed_path name) (merge_contents contents) folder in
      after_removal (remove_files sorted written)
        (checksum_string env.sha256 (merge_contents contents)) name loaded

  unfoldable pub squash_group : List MigrationFile → MetadataJson → Folder → Squashed
  unfolding read_contents build_squashed_file_name remove_files checksum_string sorted_by_key
      merge_contents squashed_path
  squash_group group loaded folder =
      let sorted = sorted_by_key group in
      squash_sorted sorted (read_contents sorted folder) (build_squashed_file_name sorted) loaded
        folder
