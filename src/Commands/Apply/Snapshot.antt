-- ===== src/Commands/Apply/Snapshot.antt =====
-- The two maps that `commandApply` builds before its loop.
use mathlib.Core.List.{append_assoc, append-nil}
use migraguard.Prelude.{
  ◌≡◌, refl, sym, ap, ◌∙◌, false, some, List, [], ◌∷◌, ◌++◌, foldl, map, keep, arith, All,
  Bool-cases, inl, inr,
}
use migraguard.Prelude.Text.{Text, ◌==◌, eq_refl, eq_sound}
use migraguard.Prelude.Maps.{has, lookup, insert, lookup-insert, Distinct}
use migraguard.Db.{MigrationRecord}
use migraguard.Scanner.{MigrationFile}
use migraguard.Commands.Resolve.{of_file}
use migraguard.Commands.Apply.Run.{records_or_nil, record_for_file, records_by_file, file_map}

records_by_file-step :
    (m : List (Text × List MigrationRecord)) (rs : List MigrationRecord) (f : Text)
    → records_or_nil (lookup f (foldl record_for_file m rs))
      ≡ records_or_nil (lookup f m) ++ keep (of_file f) rs
records_by_file-step m [] f = sym (append-nil _)
records_by_file-step m (r ∷ rs) f =
    records_by_file-step (record_for_file m r) rs f
    ∙ rw (lookup-insert r.file_name f (records_or_nil (lookup r.file_name m) ++ r ∷ []) m)
        (elim (Bool-cases (r.file_name == f)) [
          | inl same ↦ rw same (
              append_assoc (records_or_nil (lookup r.file_name m)) (r ∷ []) (keep (of_file f) rs)
              ∙ ap (λ k. records_or_nil (lookup k m) ++ r ∷ keep (of_file f) rs)
                  (eq_sound r.file_name f same))
          | inr other ↦ rw other refl
        ])

-- `recordsByFile.get(f) ?? []` is the list of the file's records, in the order of the rows.
pub lookup-records_by_file :
    (rs : List MigrationRecord) (f : Text)
    → records_or_nil (lookup f (records_by_file rs)) ≡ keep (of_file f) rs
unfolding records_by_file lookup
lookup-records_by_file rs f = records_by_file-step [] rs f

abbrev pub names : List MigrationFile → List Text
names = map (λ f. f.file_name)

abbrev add_file : List (Text × MigrationFile) → MigrationFile → List (Text × MigrationFile)
add_file m f = insert f.file_name f m

lookup-add_files :
    (m : List (Text × MigrationFile)) (fs : List MigrationFile) (k : Text)
    → has (names fs) k ≡ false
    → lookup k (foldl add_file m fs) ≡ lookup k m
unfolding has
lookup-add_files m [] k h = refl
lookup-add_files m (f ∷ fs) k h =
    ground (arith, lookup-add_files (add_file m f) fs k, lookup-insert f.file_name k f m)

found_files :
    (m : List (Text × MigrationFile)) (fs : List MigrationFile)
    → Distinct (names fs)
    → All (λ f. lookup f.file_name (foldl add_file m fs) ≡ some f) fs
found_files m [] h = tt
found_files m (f ∷ fs) h = (
  lookup-add_files (add_file m f) fs f.file_name h.0
      ∙ lookup-insert f.file_name f.file_name f m
      ∙ rw (eq_refl f.file_name) refl,
  found_files (add_file m f) fs h.1,
)

-- If no two files have one name, `fileMap` finds each file by its name.
pub lookup-file_map :
    (fs : List MigrationFile)
    → Distinct (names fs)
    → All (λ f. lookup f.file_name (file_map fs) ≡ some f) fs
unfolding file_map
lookup-file_map fs h = found_files [] fs h
