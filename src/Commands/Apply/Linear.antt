-- ===== src/Commands/Apply/Linear.antt =====
-- src/commands/apply.ts: the loop of `commandApply` in the linear model.
use mathlib.Core.Path.{subst}
use migraguard.Prelude.{
  ◌≡◌, refl, sym, ap, ◌∙◌, Bool, true, false, ◌&&◌, none, some, List, [], ◌∷◌, ◌++◌, keep,
  if◌then◌else◌, All, and_left, or_false_left, or_false_right,
}
use migraguard.Prelude.Text.{Text, ◌==◌, eq_sym}
use migraguard.Prelude.Maps.{has, lookup, Distinct}
use migraguard.Naming.{backfill}
use migraguard.Db.{safe, expand_contract, Database, IsDatabase}
use migraguard.Scanner.{MigrationFile}
use migraguard.GroupState.{get_latest_record}
use migraguard.Commands.Resolve.{of_file}
use migraguard.Commands.Resolve.Effect.{latest_of}
use migraguard.Commands.Apply.{ApplyResult, ApplyError, FileAction, ok, error, process_file}
use migraguard.Commands.Apply.Run.{
  LoopContext, Progress, Visited, class_eq, is_phase, group_waits, blocked_by_open, job_of,
  after_process, visit_file, visit_name, apply_loop, file_map,
}
use migraguard.Commands.Apply.Outcome.{IsSettled, Outcome, process_file-Outcome}
use migraguard.Commands.Apply.Snapshot.{names, lookup-records_by_file}

module _ (d : Database) (laws : IsDatabase d) (c : LoopContext) (linear : c.graph ≡ none) where
  abbrev pub checksum_of : MigrationFile → Text
  checksum_of f = c.disk.checksum_file f.file_path

  -- The rows of the file are still those that the command read at its start.
  abbrev pub IsFresh : Progress d → MigrationFile → Type 0
  IsFresh p f =
      keep (of_file f.file_name) (d.select_rows p.session)
      ≡ keep (of_file f.file_name) c.all_records

  pub record Visit (f : MigrationFile) (p : Progress d) (v : Visited d) : Type 0 where
    pub others :
        (g : Text)
        → (f.file_name == g) ≡ false
        → keep (of_file g) (d.select_rows v.1.session) ≡ keep (of_file g) (d.select_rows p.session)
    same_blocked : v.1.blocked_set ≡ p.blocked_set
    pub settled :
        v.0 ≡ false
        → f.migration_class ≡ safe
        → p.blocked_set ≡ []
        → IsFresh p f
        → IsSettled (latest_of d v.1.session f.file_name) (checksum_of f)
    stopped : v.0 ≡ true → (e : ApplyError) × (v.1.result.errors ≡ p.result.errors ++ e ∷ [])
    pub going : v.0 ≡ false → v.1.result.errors ≡ p.result.errors

  module _ (f : MigrationFile) (p : Progress d) where
    if-Visit :
        (b : Bool) (x y : Visited d)
        → (b ≡ true → Visit f p x)
        → (b ≡ false → Visit f p y)
        → Visit f p (if b then x else y)
    if-Visit true x y t e = t refl
    if-Visit false x y t e = e refl

    -- A file is passed over with no effect on the session, for a reason that a safe file in the
    -- linear model does not have.
    pass-Visit :
        (result : ApplyResult)
        → result.errors ≡ p.result.errors
        → (f.migration_class ≡ safe → p.blocked_set ≡ [] → ⊥)
        → Visit f p (false, record p { result = result })
    pass-Visit result same reason = record {
      others = λ g _. refl;
      same_blocked = refl;
      settled = λ _ is_safe none_blocked _. absurd (reason is_safe none_blocked);
      stopped = λ e. cc;
      going = λ _. same;
    }

    latest-job_of : IsFresh p f → (job_of c f).latest_record ≡ latest_of d p.session f.file_name
    latest-job_of fresh =
        ap get_latest_record (lookup-records_by_file c.all_records f.file_name ∙ sym fresh)

    process-Visit :
        (out : FileAction × ApplyResult × d.Session)
        → Outcome d laws (job_of c f) p.result p.session out
        → Visit f p (after_process d c f p.blocked_set out)
    unfolding after_process
    process-Visit (ok, result, s) o = record {
      others = o.others;
      same_blocked = refl;
      settled = λ _ _ _ fresh. o.settled refl (latest-job_of fresh);
      stopped = λ e. cc;
      going = λ _. o.errors_ok refl;
    }
    process-Visit (error, result, s) o = rw linear (record {
      others = o.others;
      same_blocked = refl;
      settled = λ e. cc;
      stopped = λ _. o.errors_error refl;
      going = λ e. cc;
    })

    not_safe :
        (b : Bool)
        → (class_eq f.migration_class expand_contract && b) ≡ true
        → f.migration_class ≡ safe
        → ⊥
    not_safe b h is_safe =
        let is_other = and_left (class_eq f.migration_class expand_contract) b h in
        cc (is_other, ap (λ k. class_eq k expand_contract) is_safe)

    not_blocked : has p.blocked_set f.file_name ≡ true → p.blocked_set ≡ [] → ⊥
    unfolding has
    not_blocked h none_blocked = cc (ap (λ (b : List Text). has b f.file_name) none_blocked)

    not_by_open : blocked_by_open c f f.file_name ≡ false
    not_by_open = rw linear refl

    visit_file-Visit : Visit f p (visit_file d c f f.file_name p)
    unfolding visit_file
    visit_file-Visit =
        if-Visit (has p.blocked_set f.file_name) _ _ (λ h. pass-Visit _ refl (λ _. not_blocked h))
          (λ _.
            if-Visit (class_eq f.migration_class expand_contract && is_phase backfill f) _ _
              (λ h. pass-Visit _ refl (λ is_safe _. not_safe _ h is_safe))
              (λ _.
                if-Visit
                  (class_eq f.migration_class expand_contract
                    && group_waits (d.select_rows p.session) f)
                  _ _ (λ h. pass-Visit _ refl (λ is_safe _. not_safe _ h is_safe))
                  (λ _.
                    if-Visit (blocked_by_open c f f.file_name) _ _
                      (λ h. pass-Visit _ refl (λ _ _. cc (h, not_by_open)))
                      (λ _.
                        process-Visit (process_file d (job_of c f) p.result p.session)
                          (process_file-Outcome d laws (job_of c f) p.result p.session)))))

  pub visit_name-Visit :
      (f : MigrationFile) (p : Progress d)
      → lookup f.file_name (file_map c.disk.files) ≡ some f
      → Visit f p (visit_name d c f.file_name p)
  unfolding visit_name
  visit_name-Visit f p found = rw (found, visit_name) (visit_file-Visit f p)

  append-ne_nil : (es : List ApplyError) (e : ApplyError) → es ++ e ∷ [] ≡ [] → ⊥
  append-ne_nil [] e h = cc
  append-ne_nil (x ∷ es) e h = cc

  -- What a run over a list of files leaves behind.
  pub record Ran (fs : List MigrationFile) (p q : Progress d) : Type 0 where
    pub others :
        (g : Text)
        → has (names fs) g ≡ false
        → keep (of_file g) (d.select_rows q.session) ≡ keep (of_file g) (d.select_rows p.session)
    pub settled :
        q.result.errors ≡ []
        → p.blocked_set ≡ []
        → All (IsFresh p) fs
        → All
            (λ f.
              f.migration_class ≡ safe
              → IsSettled (latest_of d q.session f.file_name) (checksum_of f))
            fs

  IsFresh-after :
      (f : MigrationFile) (p p' : Progress d) (fs : List MigrationFile)
      → ((g : Text)
          → (f.file_name == g) ≡ false
          → keep (of_file g) (d.select_rows p'.session)
            ≡ keep (of_file g) (d.select_rows p.session))
      → has (names fs) f.file_name ≡ false
      → All (IsFresh p) fs
      → All (IsFresh p') fs
  unfolding has
  IsFresh-after f p p' [] same h fresh = tt
  IsFresh-after f p p' (g ∷ fs) same h fresh = (
    same g.file_name (eq_sym f.file_name g.file_name ∙ or_false_left _ _ h) ∙ fresh.0,
    IsFresh-after f p p' fs same (or_false_right _ _ h) fresh.1,
  )

  Ran-cons :
      (f : MigrationFile) (fs : List MigrationFile) (p : Progress d) (v : Visited d)
      (q : Progress d)
      → Distinct (names (f ∷ fs))
      → Visit f p v
      → Ran fs v.1 q
      → Ran (f ∷ fs) p (elim v.0 [ true ↦ v.1 | false ↦ q ])
  unfolding has
  Ran-cons f fs p (true, p') q h visit later = record {
    others = λ g other. visit.others g (or_false_left _ _ other);
    settled = λ no_errors _ _.
        let (e, grown) = visit.stopped refl in
        absurd (append-ne_nil p.result.errors e (sym grown ∙ no_errors));
  }
  Ran-cons f fs p (false, p') q h visit later = record {
    others = λ g other.
        later.others g (or_false_right (f.file_name == g) _ other)
        ∙ visit.others g (or_false_left _ _ other);
    settled = λ no_errors none_blocked fresh. (
      λ is_safe.
          subst (λ o. IsSettled o (checksum_of f))
            (sym (ap get_latest_record (later.others f.file_name h.0)))
            (visit.settled refl is_safe none_blocked fresh.0),
      later.settled no_errors (visit.same_blocked ∙ none_blocked)
          (IsFresh-after f p p' fs visit.others h.0 fresh.1),
    );
  }

  pub apply_loop-Ran :
      (fs : List MigrationFile) (p : Progress d)
      → Distinct (names fs)
      → All (λ f. lookup f.file_name (file_map c.disk.files) ≡ some f) fs
      → Ran fs p (apply_loop d c (names fs) p)
  unfolding apply_loop
  apply_loop-Ran [] p h found = record { others = λ g _. refl; settled = λ _ _ _. tt }
  apply_loop-Ran (f ∷ fs) p h found =
      let v = visit_name d c f.file_name p in
      Ran-cons f fs p v (apply_loop d c (names fs) v.1) h (visit_name-Visit f p found.0)
        (apply_loop-Ran fs v.1 h.1 found.1)
