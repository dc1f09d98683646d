-- ===== src/Commands/Apply/Rerun.antt =====
-- src/commands/apply.ts: the loop over files that are all settled, in the linear model.
use mathlib.Core.Path.{subst}
use mathlib.Core.List.{append_assoc, append-nil}
use migraguard.Prelude.{
  ◌≡◌, refl, sym, ap, ◌∙◌, true, false, ◌&&◌, ◌||◌, none, some, List, [], ◌∷◌, ◌++◌, keep, All,
  if_false,
}
use migraguard.Prelude.Text.{◌==◌}
use migraguard.Prelude.Maps.{has, lookup}
use migraguard.Naming.{backfill}
use migraguard.Db.{
  MigrationStatus, applied, failed, skipped, running, status_eq, MigrationRecord, safe,
  expand_contract, Database,
}
use migraguard.Scanner.{MigrationFile}
use migraguard.GroupState.{get_latest_record}
use migraguard.Commands.Resolve.{of_file}
use migraguard.Commands.Resolve.Effect.{latest_of}
use migraguard.Commands.Apply.{
  ApplyResult, ok, FileJob, push_skipped, process_file, process_latest, process_recorded,
}
use migraguard.Commands.Apply.Run.{
  LoopContext, Progress, Visited, class_eq, is_phase, group_waits, job_of, after_process,
  blocked_by_open, visit_file, visit_name, apply_loop, file_map,
}
use migraguard.Commands.Apply.Outcome.{IsSettled}
use migraguard.Commands.Apply.Snapshot.{names, lookup-records_by_file}

module _ (d : Database) where
  recorded-skips :
      (j : FileJob) (r : MigrationRecord) (result : ApplyResult) (s : d.Session)
      → (r.checksum == j.current_checksum) ≡ true
      → process_recorded d j r result s ≡ (ok, push_skipped j.file_name result, s)
  unfolding process_recorded
  recorded-skips j r result s h = rw h refl

  latest-skips :
      (j : FileJob) (r : MigrationRecord) (st : MigrationStatus) (result : ApplyResult)
      (s : d.Session)
      → r.status ≡ st
      → status_eq r.status failed ≡ false
      → (status_eq r.status skipped || (r.checksum == j.current_checksum)) ≡ true
      → process_latest d j (some r) result s ≡ (ok, push_skipped j.file_name result, s)
  unfolding process_latest
  latest-skips j r applied result s e nf h = rw e (recorded-skips j r result s (rw e at h))
  latest-skips j r running result s e nf h = rw e (recorded-skips j r result s (rw e at h))
  latest-skips j r failed result s e nf h = cc (ap (λ st. status_eq st failed) e)
  latest-skips j r skipped result s e nf h = rw e refl

  process_file-skips :
      (j : FileJob) (result : ApplyResult) (s : d.Session)
      → IsSettled j.latest_record j.current_checksum
      → process_file d j result s ≡ (ok, push_skipped j.file_name result, s)
  unfolding process_file
  process_file-skips j result s (r, e, nf, h) =
      ap (λ o. process_latest d j o result s) e ∙ latest-skips j r r.status result s refl nf h

  module _ (c : LoopContext) (linear : c.graph ≡ none) where
    -- A safe file that is settled is passed over.
    visit_file-skips :
        (f : MigrationFile) (p : Progress d)
        → f.migration_class ≡ safe
        → p.blocked_set ≡ []
        → c.all_records ≡ d.select_rows p.session
        → IsSettled (latest_of d p.session f.file_name) (c.disk.checksum_file f.file_path)
        → visit_file d c f f.file_name p
          ≡ (false, record p { result = push_skipped f.file_name p.result })
    unfolding visit_file after_process has
    visit_file-skips f p is_safe none_blocked rows h =
        let safe_class = ap (λ k. class_eq k expand_contract) is_safe in
        let latest = ap get_latest_record (
          lookup-records_by_file c.all_records f.file_name
          ∙ ap (keep (of_file f.file_name)) rows) in
        if_false (has p.blocked_set f.file_name) _ _ (ap (λ b. has b f.file_name) none_blocked)
        ∙ if_false (class_eq f.migration_class expand_contract && is_phase backfill f) _ _
            (ap (λ b. b && is_phase backfill f) safe_class)
        ∙ if_false
            (class_eq f.migration_class expand_contract && group_waits (d.select_rows p.session) f)
            _ _ (ap (λ b. b && group_waits (d.select_rows p.session) f) safe_class)
        ∙ if_false (blocked_by_open c f f.file_name) _ _ (rw linear refl)
        ∙ ap (after_process d c f p.blocked_set) (
            process_file-skips (job_of c f) p.result p.session
              (subst (λ o. IsSettled o (c.disk.checksum_file f.file_path)) (sym latest) h))

    pub visit-All-skips :
        (fs : List MigrationFile) (p : Progress d)
        → All (λ f. lookup f.file_name (file_map c.disk.files) ≡ some f) fs
        → All (λ f. f.migration_class ≡ safe) fs
        → p.blocked_set ≡ []
        → c.all_records ≡ d.select_rows p.session
        → All
            (λ f. IsSettled (latest_of d p.session f.file_name) (c.disk.checksum_file f.file_path))
            fs
        → apply_loop d c (names fs) p ≡ record p {
          result = record p.result { skipped_files = p.result.skipped_files ++ names fs };
        }
    unfolding apply_loop visit_name
    visit-All-skips [] p found all_safe none_blocked rows h =
        ap (λ xs. record p { result = record p.result { skipped_files = xs } })
          (sym (append-nil p.result.skipped_files))
    visit-All-skips (f ∷ fs) p found all_safe none_blocked rows h =
        let q = record p { result = push_skipped f.file_name p.result } in
        let visited : visit_name d c f.file_name p ≡ (false, q) =
          rw (found.0, visit_name) (visit_file-skips f p all_safe.0 none_blocked rows h.0) in
        ap (λ (v : Visited d). elim v.0 [ true ↦ v.1 | false ↦ apply_loop d c (names fs) v.1 ])
          visited
        ∙ visit-All-skips fs q found.1 all_safe.1 none_blocked rows h.1
        ∙ ap (λ xs. record p { result = record p.result { skipped_files = xs } })
            (append_assoc p.result.skipped_files (f.file_name ∷ []) (names fs))
