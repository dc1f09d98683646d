-- ===== src/Commands/Apply/Blocking.antt =====
-- src/commands/apply.ts: the loop after an error, in the DAG model.
use migraguard.Prelude.{
  ◌≡◌, refl, sym, ap, ◌∙◌, Bool, true, false, ◌&&◌, ◌||◌, some, List, [], ◌∷◌, foldl, keep,
  if◌then◌else◌, arith, Bool-cases, Option-cases, inl, inr,
}
use migraguard.Prelude.Text.{Text, ◌==◌, eq_iff, eq_sound}
use migraguard.Prelude.Maps.{has, add, has-add, lookup, insert, lookup-insert}
use migraguard.Naming.{backfill}
use migraguard.Db.{expand_contract, Database, IsDatabase}
use migraguard.Scanner.{MigrationFile}
use migraguard.Deps.{DependencyGraph}
use migraguard.Deps.Dependents.{find_transitive_dependents}
use migraguard.Deps.Dependents.Correct.{Depends, transitive_dependents_correct}
use migraguard.Commands.Resolve.{of_file}
use migraguard.Commands.Apply.{ApplyResult, FileAction, ok, error, process_file}
use migraguard.Commands.Apply.Run.{
  LoopContext, Progress, Visited, class_eq, is_phase, group_waits, blocked_by_open, job_of,
  after_process, visit_file, visit_name, apply_loop, file_map,
}
use migraguard.Commands.Apply.Outcome.{Outcome, process_file-Outcome}

has-foldl-add :
    (deps seen : List Text) (g : Text)
    → has (foldl (λ set dep. add dep set) seen deps) g ≡ (has seen g || has deps g)
unfolding has
has-foldl-add [] seen g = ground arith
has-foldl-add (x ∷ deps) seen g =
    ground (arith, has-foldl-add deps (add x seen) g, has-add x seen g)

-- The file that the map holds for a name has that name.
name-foldl :
    (m : List (Text × MigrationFile)) (fs : List MigrationFile) (k : Text) (f : MigrationFile)
    → ((g : MigrationFile) → lookup k m ≡ some g → g.file_name ≡ k)
    → lookup k (foldl (λ m f. insert f.file_name f m) m fs) ≡ some f
    → f.file_name ≡ k
name-foldl m [] k f old h = old f h
name-foldl m (x ∷ fs) k f old h =
    name-foldl (insert x.file_name x m) fs k f
      (λ g e. ground (arith, old g, lookup-insert x.file_name k x m, eq_iff x.file_name k)) h

name-file_map :
    (fs : List MigrationFile) (k : Text) (f : MigrationFile)
    → lookup k (file_map fs) ≡ some f
    → f.file_name ≡ k
unfolding file_map lookup
name-file_map fs k f h = name-foldl [] fs k f (λ g e. cc) h

ne_of_has :
    (xs : List Text) (f n g : Text) → f ≡ n → has xs n ≡ false → has xs g ≡ true → (f == g) ≡ false
ne_of_has xs f n g e free blocked = elim (Bool-cases (f == g)) [
  | inr other ↦ other
  | inl same ↦ cc (ap (has xs) (sym e ∙ eq_sound f g same))
]

module _ (d : Database) (laws : IsDatabase d) (c : LoopContext) (graph : DependencyGraph)
    (dag : c.graph ≡ some graph) (g : Text) where
  -- `g` is blocked and its rows are as at `p`.
  record Untouched (p q : Progress d) : Type 0 where
    rows : keep (of_file g) (d.select_rows q.session) ≡ keep (of_file g) (d.select_rows p.session)
    blocked : has q.blocked_set g ≡ true

  if-Untouched :
      (b : Bool) (p : Progress d) (x y : Visited d)
      → (b ≡ true → Untouched p x.1)
      → (b ≡ false → Untouched p y.1)
      → Untouched p (if b then x else y).1
  if-Untouched true p x y t e = t refl
  if-Untouched false p x y t e = e refl

  after-Untouched :
      (f : MigrationFile) (p : Progress d) (out : FileAction × ApplyResult × d.Session)
      → Outcome d laws (job_of c f) p.result p.session out
      → (f.file_name == g) ≡ false
      → has p.blocked_set g ≡ true
      → Untouched p (after_process d c f p.blocked_set out).1
  unfolding after_process
  after-Untouched f p (ok, result, s) o other h = record { rows = o.others g other; blocked = h }
  after-Untouched f p (error, result, s) o other h = rw dag (record {
    rows = o.others g other;
    blocked =
        ground
          (arith, has-foldl-add (find_transitive_dependents graph f.file_name) p.blocked_set g);
  })

  visit_file-Untouched :
      (f : MigrationFile) (n : Text) (p : Progress d)
      → f.file_name ≡ n
      → has p.blocked_set g ≡ true
      → Untouched p (visit_file d c f n p).1
  unfolding visit_file
  visit_file-Untouched f n p name h =
      if-Untouched (has p.blocked_set n) p _ _ (λ _. record { rows = refl; blocked = h })
        (λ free.
          if-Untouched (class_eq f.migration_class expand_contract && is_phase backfill f) p _ _
            (λ _. record { rows = refl; blocked = h })
            (λ _.
              if-Untouched
                (class_eq f.migration_class expand_contract
                  && group_waits (d.select_rows p.session) f)
                p _ _ (λ _. record { rows = refl; blocked = h })
                (λ _.
                  if-Untouched (blocked_by_open c f n) p _ _
                    (λ _. record { rows = refl; blocked = h })
                    (λ _.
                      after-Untouched f p (process_file d (job_of c f) p.result p.session)
                        (process_file-Outcome d laws (job_of c f) p.result p.session)
                        (ne_of_has p.blocked_set f.file_name n g name free h) h))))

  visit_name-Untouched :
      (n : Text) (p : Progress d) → has p.blocked_set g ≡ true → Untouched p (visit_name d c n p).1
  unfolding visit_name
  visit_name-Untouched n p h = elim (Option-cases (lookup n (file_map c.disk.files))) [
    | inl missing ↦ rw (missing, visit_name) (record { rows = refl; blocked = h })
    | inr (f, found) ↦
        rw (found, visit_name) (visit_file-Untouched f n p (name-file_map c.disk.files n f found) h)
  ]

  Untouched-step :
      (p : Progress d) (v : Visited d) (q : Progress d)
      → Untouched p v.1
      → Untouched v.1 q
      → Untouched p (elim v.0 [ true ↦ v.1 | false ↦ q ])
  Untouched-step p (true, p') q first rest = first
  Untouched-step p (false, p') q first rest = record {
    rows = rest.rows ∙ first.rows;
    blocked = rest.blocked;
  }

  loop-Untouched :
      (names : List Text) (p : Progress d)
      → has p.blocked_set g ≡ true
      → Untouched p (apply_loop d c names p)
  unfolding apply_loop
  loop-Untouched [] p h = record { rows = refl; blocked = h }
  loop-Untouched (n ∷ names) p h =
      let first = visit_name-Untouched n p h in
      let v = visit_name d c n p in
      Untouched-step p v (apply_loop d c names v.1) first (loop-Untouched names v.1 first.blocked)

  blocks_dependents :
      (f : MigrationFile) (blocked_set : List Text) (out : FileAction × ApplyResult × d.Session)
      → out.0 ≡ error
      → Depends graph f.file_name g
      → has (after_process d c f blocked_set out).1.blocked_set g ≡ true
  unfolding after_process
  blocks_dependents f blocked_set (ok, result, s) e walk = cc
  blocks_dependents f blocked_set (error, result, s) e walk =
      let (found, _, same, correct) = transitive_dependents_correct graph f.file_name in
      let reached = ap (λ (xs : List Text). has xs g) same ∙ (correct g).1 ∣ walk ∣₁ in
      rw dag
        (ground (arith, has-foldl-add (find_transitive_dependents graph f.file_name) blocked_set g))

  -- For a database that keeps `IsDatabase`. DAG model. If `processFile` ends a file with an error,
  -- and edges lead from `g` to that file over any number of files, then the rest of the run
  -- records nothing for `g`, and `g` stays blocked.
  pub failure_blocks :
      (f : MigrationFile) (p : Progress d) (rest : List Text)
      → (process_file d (job_of c f) p.result p.session).0 ≡ error
      → Depends graph f.file_name g
      → let after =
          (after_process d c f p.blocked_set (process_file d (job_of c f) p.result p.session)).1 in
        (keep (of_file g) (d.select_rows (apply_loop d c rest after).session)
          ≡ keep (of_file g) (d.select_rows after.session))
        × (has (apply_loop d c rest after).blocked_set g ≡ true)
  failure_blocks f p rest e walk =
      let out = process_file d (job_of c f) p.result p.session in
      let u =
        loop-Untouched rest (after_process d c f p.blocked_set out).1
          (blocks_dependents f p.blocked_set out e walk) in
      (u.rows, u.blocked)
