-- ===== src/Examples/Squashes.antt =====
-- Two new files are squashed.
use mathlib.Core.List.Memᴰ.{head, tail}
use migraguard.Prelude.{true, ◌≡◌, refl, false, none, some, List, [], ◌∷◌, ◌++◌, if◌then◌else◌}
use migraguard.Prelude.Text.{Text, codes, ◌==◌, text_lt}
use migraguard.Prelude.Maps.{has, lookup, insert, add}
use migraguard.Scanner.{MigrationFile}
use migraguard.Metadata.{MetadataJson, add_entry}
use migraguard.Commands.Squash.{
  Folder, SquashEnv, sorted_by_key, build_squashed_file_name, squashed_path, checksum_string,
  squash_group,
}
use migraguard.Commands.Squash.Components.{
  find_connected_components, walk?, components_from?, neighbors_of, new_file_map,
}
use migraguard.Commands.Squash.Settles.{merged_text, squash_group_settles}
use migraguard.Commands.Squash.Components.Total.{find_connected_components_total}
use migraguard.Commands.Squash.Unread.{squash_group_unread}
use migraguard.Examples.ApplyRuns.{safe_file}

abbrev named_file : Text → MigrationFile
named_file n = record (safe_file n) {
  parsed = record { full_name = n; prefix = []; timestamp = n; description = n; sort_key = n };
}

abbrev squash_env : SquashEnv
squash_env = record { migrations_dir = codes "d"; locale_lt = text_lt; sha256 = λ s. s }

abbrev two_files : List MigrationFile
two_files = named_file (codes "b") ∷ named_file (codes "a") ∷ []

abbrev no_entries : MetadataJson
no_entries = record { dag_model = false; model_since = none; migrations = []; baselines = none }

abbrev text_at : MigrationFile → Text
text_at f = f.file_name ++ codes ";"

abbrev squash_folder : Folder
squash_folder = (codes "a", codes "a;") ∷ (codes "b", codes "b;") ∷ (codes "c", []) ∷ []

abbrev squashed_name : Text
squashed_name = codes "b__a_and_b.sql"

squash_group_settles_example :
    let after = squash_group squash_env two_files no_entries squash_folder in
    (after.threw ≡ false)
    × ((c : Text) × (checksum_string squash_env.sha256 (merged_text squash_env text_at two_files)
          ≡ some c)
        × (after.metadata
            ≡ add_entry no_entries (record {
              file = squashed_name;
              checksum = c;
              migration_class = none;
              group_name = none;
            })))
    × (lookup (codes "a") after.folder ≡ (
        if has (codes "b" ∷ codes "a" ∷ []) (codes "a")
        then none
        else if squashed_path squash_env squashed_name == codes "a"
        then some (merged_text squash_env text_at two_files)
        else lookup (codes "a") squash_folder))
unfolding lookup has ◌==◌ build_squashed_file_name sorted_by_key squashed_path text_lt
squash_group_settles_example =
    squash_group_settles squash_env text_at two_files no_entries squash_folder squashed_name
      (codes "a") (refl, (refl, tt)) (refl, (refl, tt)) refl refl

two_components :
    find_connected_components squash_env (named_file (codes "c") ∷ two_files) (record {
      files = codes "a" ∷ codes "b" ∷ codes "c" ∷ [];
      edges = record { from = codes "a"; to = codes "c"; via = [] } ∷ [];
    })
    ≡ some (
        (named_file (codes "a") ∷ named_file (codes "c") ∷ []) ∷ (named_file (codes "b") ∷ []) ∷ [])
unfolding find_connected_components neighbors_of new_file_map walk? components_from? sorted_by_key
    has lookup insert add ◌==◌ text_lt
two_components = refl

squash_group_unread_example :
    squash_group squash_env
      (named_file (codes "b") ∷ named_file (codes "d") ∷ [])
      no_entries
      squash_folder
    ≡ record { folder = squash_folder; metadata = no_entries; threw = true }
unfolding lookup ◌==◌
squash_group_unread_example =
    squash_group_unread squash_env (named_file (codes "b") ∷ named_file (codes "d") ∷ [])
      (named_file (codes "d")) no_entries squash_folder (tail (head refl)) refl

find_connected_components_total_example :
    (cs : List (List MigrationFile)) × (find_connected_components squash_env two_files
        (record { files = []; edges = [] })
      ≡ some cs)
find_connected_components_total_example =
    find_connected_components_total squash_env two_files (record { files = []; edges = [] })
