-- ===== src/Commands/Check/Passes.antt =====
-- src/commands/check.ts: what a check without errors says.
use mathlib.Core.Path.{subst}
use mathlib.Core.Option.{some-injective}
use migraguard.Prelude.{
  ◌≤◌, ◌≡◌, ◌↔◌, refl, ◌∙◌, Bool, true, false, ◌||◌, Option, none, some, List, [], if◌then◌else◌,
  any, All, length, get_last?, ap, keep, map,
}
use migraguard.Prelude.Text.{Text, ◌==◌, text_lt}
use migraguard.Prelude.Maps.{has, lookup}
use migraguard.Scanner.{MigrationFile}
use migraguard.Commands.Check.{
  CheckEnv, collect, metadata_map, baselined_files, group_phase, group_files, check_dag,
  recorded_files, new_files, new_safe_files, editable_set, file_names, several_errors, before_last,
  insertion_errors, mismatch, checksum_errors, missing_errors, baseline_errors, group_errors,
  check_errors, command_check,
}
use migraguard.Commands.Check.Errors.{
  six_parts, collect-nil, one_error, no_error, or_nil, at_most_one,
}
use migraguard.Commands.Check.Expected.{
  recorded_files-known, new_files-unknown, known_files, unknown_files, keeps_checksum, is_unchanged,
  has-editable_set, lookup-metadata_map, All-baselined_files,
}
use migraguard.Metadata.{baselines_of}
use migraguard.Db.{safe}
use migraguard.Commands.Apply.Run.{class_eq}
use migraguard.Commands.Check.Groups.{
  has_expand, is_expand_of, in_group_of, EntryExpands, group_files_expand,
}

module _ (env : CheckEnv) where
  abbrev unchanged_at : MigrationFile → Option Text → Bool
  unchanged_at f none = true
  unchanged_at f (some expected) =
      (expected == [])
      || ((env.disk.checksum_file f.file_path == expected) || has (editable_set env) f.file_name)

  mismatch-nil :
      (f : MigrationFile) (o : Option Text) → (mismatch env f o ≡ []) ↔ (unchanged_at f o ≡ true)
  mismatch-nil f none = (λ h. refl, λ h. refl)
  mismatch-nil f (some expected) = or_nil (expected == []) _ _ (
      or_nil (env.disk.checksum_file f.file_path == expected) _ _
        (one_error (has (editable_set env) f.file_name) _))

  unchanged_at-keeps :
      (f : MigrationFile) (o : Option Text) → unchanged_at f o ≡ keeps_checksum env f o
  unchanged_at-keeps f none = refl
  unchanged_at-keeps f (some expected) =
      ap (λ b. (expected == []) || ((env.disk.checksum_file f.file_path == expected) || b))
        (has-editable_set env f.file_name)

  file-nil :
      (f : MigrationFile)
      → (mismatch env f (lookup f.file_name (metadata_map env.metadata)) ≡ [])
        ↔ (is_unchanged env f ≡ true)
  file-nil f =
      subst
        (λ b. (mismatch env f (lookup f.file_name (metadata_map env.metadata)) ≡ []) ↔ (b ≡ true))
        (unchanged_at-keeps f (lookup f.file_name (metadata_map env.metadata))
          ∙ ap (keeps_checksum env f) (lookup-metadata_map env.metadata f.file_name))
        (mismatch-nil f (lookup f.file_name (metadata_map env.metadata)))

  abbrev safe_files : List MigrationFile → List MigrationFile
  safe_files fs = keep (λ f. class_eq f.migration_class safe) fs

  abbrev names_of : List MigrationFile → List Text
  names_of fs = map (λ f. f.file_name) fs

  -- What the six parts of the check ask for.
  pub record IsConsistent : Type 0 where
    pub at_most_one_new : check_dag env ≡ false → length (safe_files (unknown_files env)) ≤ 1
    pub in_sequence :
        (last : MigrationFile)
        → check_dag env ≡ false
        → get_last? (known_files env) ≡ some last
        → All (λ f. text_lt f.parsed.sort_key last.parsed.sort_key ≡ false) (unknown_files env)
    pub unchanged : All (λ f. is_unchanged env f ≡ true) (known_files env)
    pub on_disk : All (λ e. has (names_of env.disk.files) e.file ≡ true) env.metadata.migrations
    pub baselined_gone :
        All
          (λ b. All (λ inc. has (names_of env.disk.files) inc.file ≡ false) b.includes)
          (baselines_of env.metadata.baselines)
    pub groups_expand :
        (g : Text)
        → any (λ f. in_group_of g (group_phase f)) env.disk.files ≡ true
        → any (is_expand_of g) env.disk.files ≡ true

  several-nil :
      (several_errors env ≡ [])
      ↔ (check_dag env ≡ false → length (safe_files (unknown_files env)) ≤ 1)
  several-nil =
      subst (λ fs. (several_errors env ≡ []) ↔ (check_dag env ≡ false → length (safe_files fs) ≤ 1))
        (new_files-unknown env) (at_most_one (check_dag env) (length (new_safe_files env)) _ _)

  insertion-case :
      (dag : Bool) (o : Option MigrationFile)
      → ((if dag then [] else elim o [
        | none ↦ []
        | some last ↦ collect (before_last env last.parsed.sort_key) (new_files env)
      ])
          ≡ [])
        ↔ ((last : MigrationFile)
            → dag ≡ false
            → o ≡ some last
            → All (λ f. text_lt f.parsed.sort_key last.parsed.sort_key ≡ false) (new_files env))
  insertion-case true o = (λ h last k e. absurd (cc k), λ h. refl)
  insertion-case false none = (λ h last k e. absurd (cc e), λ h. refl)
  insertion-case false (some l) =
      let (to, from) =
        collect-nil (before_last env l.parsed.sort_key)
          (λ f. text_lt f.parsed.sort_key l.parsed.sort_key ≡ false) (new_files env)
          (λ f. no_error (text_lt f.parsed.sort_key l.parsed.sort_key) _) in
      (
        λ h last k e.
            subst
              (λ (x : MigrationFile).
                All (λ f. text_lt f.parsed.sort_key x.parsed.sort_key ≡ false) (new_files env))
              (some-injective l last e) (to h),
        λ h. from (h l refl refl),
      )

  -- No new file stands before the last recorded one.
  abbrev InSequence : List MigrationFile → List MigrationFile → Type 0
  InSequence recorded fresh =
      (last : MigrationFile)
      → check_dag env ≡ false
      → get_last? recorded ≡ some last
      → All (λ f. text_lt f.parsed.sort_key last.parsed.sort_key ≡ false) fresh

  insertion-nil : (insertion_errors env ≡ []) ↔ InSequence (known_files env) (unknown_files env)
  insertion-nil =
      subst (λ fs. (insertion_errors env ≡ []) ↔ InSequence fs (unknown_files env))
        (recorded_files-known env)
        (subst (λ fs. (insertion_errors env ≡ []) ↔ InSequence (recorded_files env) fs)
          (new_files-unknown env) (insertion-case (check_dag env) (get_last? (recorded_files env))))

  checksum-nil : (checksum_errors env ≡ []) ↔ All (λ f. is_unchanged env f ≡ true) (known_files env)
  checksum-nil =
      subst (λ fs. (checksum_errors env ≡ []) ↔ All (λ f. is_unchanged env f ≡ true) fs)
        (recorded_files-known env) (collect-nil _ _ (recorded_files env) file-nil)

  missing-nil :
      (missing_errors env ≡ [])
      ↔ All (λ e. has (file_names env) e.file ≡ true) env.metadata.migrations
  missing-nil =
      collect-nil _ _ env.metadata.migrations (λ e. one_error (has (file_names env) e.file) _)

  baseline-nil :
      (baseline_errors env ≡ [])
      ↔ All
          (λ b. All (λ inc. has (file_names env) inc.file ≡ false) b.includes)
          (baselines_of env.metadata.baselines)
  baseline-nil =
      let errors =
        collect-nil _ _ (baselined_files env.metadata) (λ f. no_error (has (file_names env) f) _) in
      let names = All-baselined_files (λ f. has (file_names env) f ≡ false) env.metadata in
      (λ h. names.0 (errors.0 h), λ h. errors.1 (names.1 h))

  group-nil : (group_errors env ≡ []) ↔ All EntryExpands (group_files env.disk.files)
  group-nil =
      collect-nil _ _ (group_files env.disk.files) (λ entry. one_error (has_expand entry.1) _)

  -- The check finds no error exactly if the metadata and the files on disk are consistent: in the linear
  -- model, and not in the DAG model, there is at most one new safe file, and no new file is sorted before
  -- the last one that the metadata list; a listed file that may not be edited has the checksum of its last
  -- entry, unless that is the empty string; each entry has its file on disk; no file that a baseline
  -- includes is on disk; and each group with a phase file has its expand phase. In the linear model the
  -- last file on disk may be edited; in the DAG model a file of the graph to which no edge leads, and
  -- only if the metadata name the DAG model and a modelSince that is not empty and not behind the file.
  pub check_passes : ((command_check env).errors ≡ []) ↔ IsConsistent
  unfolding command_check check_errors
  check_passes =
      let groups = group_files_expand env.disk.files in
      let (split, join) =
        six_parts (several_errors env) (insertion_errors env) (checksum_errors env)
          (missing_errors env) (baseline_errors env) (group_errors env) in
      (
        λ h.
            let (a, (b, (c, (d, (e, f))))) = split h in
            record {
              at_most_one_new = several-nil.0 a;
              in_sequence = insertion-nil.0 b;
              unchanged = checksum-nil.0 c;
              on_disk = missing-nil.0 d;
              baselined_gone = baseline-nil.0 e;
              groups_expand = groups.0 (group-nil.0 f);
            },
        λ c. join (
          several-nil.1 c.at_most_one_new,
          (
            insertion-nil.1 c.in_sequence,
            (
              checksum-nil.1 c.unchanged,
              (
                missing-nil.1 c.on_disk,
                (baseline-nil.1 c.baselined_gone, group-nil.1 (groups.1 c.groups_expand)),
              ),
            ),
          ),
        ),
      )
