-- ===== src/Metadata/Since.antt =====
-- src/metadata.ts: the files that the DAG model covers, and the checksums that the entries give.
use migraguard.Prelude.{
  ◌≡◌, refl, Bool, true, false, not, ◌&&◌, Option, none, some, List, [], ◌∷◌, foldl, map, arith,
  if◌then◌else◌,
}
use migraguard.Prelude.Text.{Text, ◌==◌, text_lt}
use migraguard.Prelude.Maps.{has, lookup, insert, lookup-insert}
use migraguard.Metadata.{MetadataJson, MigrationEntry, is_pre_model_since}

-- The metadata name the DAG model and a `modelSince` that is not empty, and the file is not before it.
abbrev pub reaches_since : MetadataJson → Text → Bool
reaches_since m file = m.dag_model && elim m.model_since [
  | none ↦ false
  | some since ↦ not (since == []) && not (text_lt file since)
]

pre_since-case :
    (dag : Bool) (since : Option Text) (m : MetadataJson) (file : Text)
    → not (is_pre_model_since (record m { dag_model = dag; model_since = since }) file)
      ≡ reaches_since (record m { dag_model = dag; model_since = since }) file
unfolding is_pre_model_since
pre_since-case false since m file = refl
pre_since-case true none m file = refl
pre_since-case true (some since) m file = ground arith

pub not-is_pre_model_since :
    (m : MetadataJson) (file : Text) → not (is_pre_model_since m file) ≡ reaches_since m file
not-is_pre_model_since m file = pre_since-case m.dag_model m.model_since m file

-- The checksum of the last entry of a file.
abbrev pub last_checksum : List MigrationEntry → Text → Option Text
last_checksum [] file = none
last_checksum (e ∷ es) file = elim (last_checksum es file) [
  | none ↦ if e.file == file then some e.checksum else none
  | some c ↦ some c
]

abbrev pub listed : List MigrationEntry → Text → Bool
listed es file = has (map (λ e. e.file) es) file

abbrev or_lookup : Option Text → Option Text → Option Text
or_lookup none o = o
or_lookup (some c) o = some c

pub lookup-entries :
    (es : List MigrationEntry) (acc : List (Text × Text)) (file : Text)
    → lookup file (foldl (λ acc e. insert e.file e.checksum acc) acc es)
      ≡ or_lookup (last_checksum es file) (lookup file acc)
lookup-entries [] acc file = refl
lookup-entries (e ∷ es) acc file = ground (
  arith,
  lookup-entries es (insert e.file e.checksum acc) file,
  lookup-insert e.file file e.checksum acc,
)

abbrev is_there : Option Text → Bool
is_there none = false
is_there (some c) = true

pub last_checksum-listed :
    (es : List MigrationEntry) (file : Text) → is_there (last_checksum es file) ≡ listed es file
unfolding has
last_checksum-listed [] file = refl
last_checksum-listed (e ∷ es) file = ground (arith, last_checksum-listed es file)
