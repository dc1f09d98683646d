-- ===== src/Examples/Saved.antt =====
-- Metadata that is written and read.
use migraguard.Prelude.{◌≡◌, refl, true, none, some, Option, [], ◌∷◌, ◌++◌, if◌then◌else◌}
use migraguard.Prelude.Text.{Text, codes, ◌==◌}
use migraguard.Ast.{Json, string, array, object, empty, item, entry, end, field_at, list_of}
use migraguard.Db.{safe}
use migraguard.Metadata.{MetadataJson}
use migraguard.Metadata.Stored.{
  invalid_format, loaded, load_metadata, is_metadata_json, metadata_json, saved_text,
  saved_metadata_loads,
}

abbrev dag_metadata : MetadataJson
dag_metadata = record {
  dag_model = true;
  model_since = some (codes "b.sql");
  migrations =
      record {
        file = codes "a.sql";
        checksum = codes "1";
        migration_class = some safe;
        group_name = none;
      }
      ∷ [];
  baselines = none;
}

abbrev print_saved : Json → Text
print_saved j = codes "{}"

abbrev parse_saved : Text → Option Json
parse_saved text =
    if text == codes "{}" ++ (10 ∷ []) then some (metadata_json dag_metadata) else none

saved_metadata_loads_example :
    load_metadata parse_saved (some (saved_text print_saved dag_metadata))
    ≡ loaded (metadata_json dag_metadata)
unfolding saved_text ◌==◌
saved_metadata_loads_example = saved_metadata_loads parse_saved print_saved dag_metadata refl

other_model :
    load_metadata
      (λ text. some (
        object (
          entry
            (codes "migrations")
            (array empty)
            (entry (codes "model") (string (codes "tree")) end))))
      (some [])
    ≡ invalid_format
unfolding load_metadata is_metadata_json field_at list_of ◌==◌
other_model = refl

entry_without_checksum :
    load_metadata
      (λ text. some (
        object (
          entry
            (codes "migrations")
            (array (item (object (entry (codes "file") (string (codes "a")) end)) empty))
            end)))
      (some [])
    ≡ invalid_format
unfolding load_metadata is_metadata_json field_at list_of ◌==◌
entry_without_checksum = refl
