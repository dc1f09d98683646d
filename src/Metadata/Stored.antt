-- ===== src/Metadata/Stored.antt =====
-- src/metadata.ts: metadata.json is read, tested and written.
use migraguard.Prelude.{
  Bool, true, false, ◌&&◌, Option, none, some, List, [], ◌∷◌, ◌++◌, map, ◌≡◌, refl, ap, ◌∙◌, every,
  if◌then◌else◌,
}
use migraguard.Prelude.Text.{Text, codes, ◌==◌}
use migraguard.Db.{MigrationClass, safe, expand_contract}
use migraguard.Ast.{
  Json, string, array, object, Items, empty, item, Fields, end, entry, field_at, get, Value,
  list_of, items_of,
}
use migraguard.Metadata.{MetadataJson, MigrationEntry, BaselineEntry, BaselineInclude}

-- Array.isArray(x), and typeof x === 'string'
abbrev is_array : Value → Bool
is_array (some (array xs)) = true
is_array _ = false

abbrev is_string : Value → Bool
is_string (some (string s)) = true
is_string _ = false

-- obj[key] === undefined || test(obj[key])
abbrev is_absent_or : (Value → Bool) → Value → Bool
is_absent_or test none = true
is_absent_or test (some j) = test (some j)

abbrev is_dag : Value → Bool
is_dag (some (string s)) = s == codes "dag"
is_dag _ = false

abbrev is_entry : Json → Bool
is_entry m = is_string (get (codes "file") (some m)) && is_string (get (codes "checksum") (some m))

unfoldable pub is_metadata_json : Json → Bool
unfolding field_at list_of
is_metadata_json parsed_json =
    is_array (get (codes "migrations") (some parsed_json))
    && (is_absent_or is_dag (get (codes "model") (some parsed_json))
        && (is_absent_or is_string (get (codes "modelSince") (some parsed_json))
            && (is_absent_or is_array (get (codes "baselines") (some parsed_json))
                && every is_entry (items_of (get (codes "migrations") (some parsed_json))))))

pub data Loaded : Type 0 where
  loaded : Json → Loaded
  invalid_json invalid_format : Loaded

abbrev checked : Option Json → Loaded
checked none = invalid_json
checked (some parsed_json) =
    if is_metadata_json parsed_json then loaded parsed_json else invalid_format

-- `parse` is JSON.parse, with `none` for a throw. The file is `none` if it does not exist.
unfoldable pub load_metadata : (Text → Option Json) → Option Text → Loaded
unfolding is_metadata_json
load_metadata parse none = loaded (object (entry (codes "migrations") (array empty) end))
load_metadata parse (some content) = checked (parse content)

-- The object that a field in front of others makes; a field that is undefined is not written.
abbrev optional : Text → Option Json → Fields → Fields
optional key none rest = rest
optional key (some j) rest = entry key j rest

unfoldable items : List Json → Items
items [] = empty
items (x ∷ xs) = item x (items xs)

abbrev class_text : MigrationClass → Text
class_text safe = codes "safe"
class_text expand_contract = codes "expand_contract"

abbrev optional_text : Option Text → Option Json
optional_text none = none
optional_text (some s) = some (string s)

abbrev optional_class : Option MigrationClass → Option Json
optional_class none = none
optional_class (some c) = some (string (class_text c))

abbrev entry_json : MigrationEntry → Json
entry_json e = object (
    entry (codes "file") (string e.file) (
      entry (codes "checksum") (string e.checksum) (
        optional (codes "migrationClass") (optional_class e.migration_class)
          (optional (codes "groupName") (optional_text e.group_name) end))))

abbrev include_json : BaselineInclude → Json
include_json i =
    object (entry (codes "file") (string i.file) (entry (codes "checksum") (string i.checksum) end))

abbrev baseline_json : BaselineEntry → Json
baseline_json b = object (
    entry (codes "date") (string b.date)
      (entry (codes "includes") (array (items (map include_json b.includes))) end))

abbrev optional_baselines : Option (List BaselineEntry) → Option Json
optional_baselines none = none
optional_baselines (some bs) = some (array (items (map baseline_json bs)))

abbrev fields_json : Bool → Option Text → List Json → Option (List BaselineEntry) → Fields
fields_json dag since entries baselines =
    optional (codes "model") (if dag then some (string (codes "dag")) else none) (
      optional (codes "modelSince") (optional_text since) (
        entry (codes "migrations") (array (items entries))
          (optional (codes "baselines") (optional_baselines baselines) end)))

-- The tree of the object that is saved.
unfoldable pub metadata_json : MetadataJson → Json
unfolding items
metadata_json m =
    object (fields_json m.dag_model m.model_since (map entry_json m.migrations) m.baselines)

-- The text that is written; `print` is JSON.stringify(x, null, 2).
unfoldable pub saved_text : (Json → Text) → MetadataJson → Text
unfolding metadata_json
saved_text print m = print (metadata_json m) ++ (10 ∷ [])

list_of-items : (xs : List Json) → list_of (items xs) ≡ xs
unfolding list_of items
list_of-items [] = refl
list_of-items (x ∷ xs) = ap (λ ys. x ∷ ys) (list_of-items xs)

entries_pass : (es : List MigrationEntry) → every is_entry (map entry_json es) ≡ true
unfolding field_at ◌==◌
entries_pass [] = refl
entries_pass (e ∷ es) = entries_pass es

fields_pass :
    (dag : Bool) (since : Option Text) (es : List Json) (bs : Option (List BaselineEntry))
    → is_metadata_json (object (fields_json dag since es bs)) ≡ every is_entry (list_of (items es))
unfolding is_metadata_json field_at ◌==◌
fields_pass true none es none = refl
fields_pass true none es (some bs) = refl
fields_pass true (some s) es none = refl
fields_pass true (some s) es (some bs) = refl
fields_pass false none es none = refl
fields_pass false none es (some bs) = refl
fields_pass false (some s) es none = refl
fields_pass false (some s) es (some bs) = refl

stored_passes : (m : MetadataJson) → is_metadata_json (metadata_json m) ≡ true
unfolding metadata_json
stored_passes m =
    fields_pass m.dag_model m.model_since (map entry_json m.migrations) m.baselines
    ∙ ap (every is_entry) (list_of-items (map entry_json m.migrations))
    ∙ entries_pass m.migrations

-- Metadata that was saved is loaded, and is what was saved, if JSON.parse reads what JSON.stringify wrote
-- and the newline behind it.
pub saved_metadata_loads :
    (parse : Text → Option Json) (print : Json → Text) (m : MetadataJson)
    → parse (saved_text print m) ≡ some (metadata_json m)
    → load_metadata parse (some (saved_text print m)) ≡ loaded (metadata_json m)
unfolding load_metadata
saved_metadata_loads parse print m h =
    ap checked h
    ∙ ap (λ b. if b then loaded (metadata_json m) else invalid_format) (stored_passes m)
