-- ===== src/Commands/Apply/Stops.antt =====
-- src/commands/apply.ts: the loop after an error, in the linear model.
use migraguard.Prelude.{◌≡◌, ◌≢◌, refl, ◌∙◌, true, false, none, some, List, [], ◌∷◌, ◌++◌, All}
use migraguard.Prelude.Maps.{lookup}
use migraguard.Db.{Database, IsDatabase}
use migraguard.Scanner.{MigrationFile}
use migraguard.Commands.Apply.Run.{LoopContext, Progress, Visited, visit_name, apply_loop, file_map}
use migraguard.Commands.Apply.Snapshot.{names}
use migraguard.Commands.Apply.Linear.{Visit, visit_name-Visit}

module _ (d : Database) (laws : IsDatabase d) (c : LoopContext) (linear : c.graph ≡ none) where
  stop-case :
      (f : MigrationFile) (p : Progress d) (v : Visited d) (q r : Progress d)
      → Visit d laws c linear f p v
      → p.result.errors ≡ []
      → (v.1.result.errors ≡ [] → q.result.errors ≢ [] → r ≡ q)
      → (elim v.0 as (λ _. Progress d) [ true ↦ v.1 | false ↦ q ]).result.errors ≢ []
      → (elim v.0 as (λ _. Progress d) [ true ↦ v.1 | false ↦ r ])
        ≡ (elim v.0 as (λ _. Progress d) [ true ↦ v.1 | false ↦ q ])
  stop-case f p (true, p') q r visit clean rest h = refl
  stop-case f p (false, p') q r visit clean rest h = rest (visit.going refl ∙ clean) h

  -- For a database that keeps `IsDatabase`. Linear model, from a result without errors, over files
  -- that the file map holds under their names. If the loop over some files reports an error, the
  -- loop over those files and any more is the same run: no later file is touched.
  pub error_stops :
      (fs gs : List MigrationFile) (p : Progress d)
      → All (λ f. lookup f.file_name (file_map c.disk.files) ≡ some f) fs
      → p.result.errors ≡ []
      → (apply_loop d c (names fs) p).result.errors ≢ []
      → apply_loop d c (names (fs ++ gs)) p ≡ apply_loop d c (names fs) p
  unfolding apply_loop
  error_stops [] gs p found clean h = absurd (h clean)
  error_stops (f ∷ fs) gs p found clean h =
      let v = visit_name d c f.file_name p in
      stop-case f p v (apply_loop d c (names fs) v.1) (apply_loop d c (names (fs ++ gs)) v.1)
        (visit_name-Visit d laws c linear f p found.0) clean
        (λ still_clean failed. error_stops fs gs v.1 found.1 still_clean failed) h
