-- ===== src/Commands/Apply/Decisions.antt =====
-- src/commands/apply.ts: the decisions of `processFile`.
use mathlib.Core.Path.{subst}
use mathlib.Core.Option.{some-injective}
use migraguard.Prelude.{
  ◌≡◌, refl, sym, ap, ◌∙◌, Bool, true, false, ◌||◌, not, ◌&&◌, some, List, [], ◌∷◌, ◌++◌, foldl,
  map, any, any-append, if◌then◌else◌, arith, ltb,
}
use migraguard.Prelude.Text.{Text, ◌==◌}
use migraguard.Prelude.Maps.{has}
use migraguard.Db.{
  MigrationStatus, applied, failed, skipped, running, status_eq, MigrationRecord, Database,
}
use migraguard.GroupState.{later_of, get_latest_record}
use migraguard.Commands.Apply.{
  ApplyResult, ok, error, FileJob, push_error, ancestor_revert, process_file, process_latest,
  get_past_checksums, split_step,
}

abbrev with_sum : Text → MigrationRecord → Bool
with_sum c r = r.checksum == c

-- The reduce from a state loses no record: it ends with `latest_of`, and with all the others.
abbrev SplitsTo :
    Text
    → MigrationRecord × List MigrationRecord
    → MigrationRecord
    → List MigrationRecord
    → Bool
    → Type 0
SplitsTo c start first rs sums =
    ((foldl split_step start rs).0 ≡ foldl later_of first rs)
    × ((with_sum c (foldl split_step start rs).0 || any (with_sum c) (foldl split_step start rs).1)
        ≡ sums)

split-case :
    (b : Bool) (c : Text) (a r : MigrationRecord) (os rs : List MigrationRecord) (sums : Bool)
    → SplitsTo c (r, os ++ a ∷ []) r rs sums
    → SplitsTo c (a, os ++ r ∷ []) a rs sums
    → SplitsTo c (if b then (r, os ++ a ∷ []) else (a, os ++ r ∷ [])) (if b then r else a) rs sums
split-case true c a r os rs sums t f = t
split-case false c a r os rs sums t f = f

split-any :
    (c : Text) (a : MigrationRecord) (os rs : List MigrationRecord)
    → SplitsTo c (a, os) a rs ((with_sum c a || any (with_sum c) os) || any (with_sum c) rs)
split-any c a os [] = (refl, ground arith)
split-any c a os (r ∷ rs) =
    let (same_r, sums_r) = split-any c r (os ++ a ∷ []) rs in
    let (same_a, sums_a) = split-any c a (os ++ r ∷ []) rs in
    split-case (ltb a.applied_at r.applied_at) c a r os rs _
      (same_r, sums_r ∙ ground (arith, any-append (with_sum c) os (a ∷ [])))
      (same_a, sums_a ∙ ground (arith, any-append (with_sum c) os (r ∷ [])))

has-map_checksum :
    (c : Text) (rs : List MigrationRecord) → has (map (λ q. q.checksum) rs) c ≡ any (with_sum c) rs
unfolding has
has-map_checksum c [] = refl
has-map_checksum c (r ∷ rs) = ap (λ b. (r.checksum == c) || b) (has-map_checksum c rs)

-- A checksum that some record has and the latest one has not is a past checksum.
past-of_any :
    (c : Text) (rs : List MigrationRecord) (l : MigrationRecord)
    → get_latest_record rs ≡ some l
    → (l.checksum == c) ≡ false
    → any (with_sum c) rs ≡ true
    → has (get_past_checksums rs) c ≡ true
unfolding get_latest_record get_past_checksums
past-of_any c [] l e n h = cc
past-of_any c (r ∷ rs) l e n h =
    let (same, sums) = split-any c r [] rs in
    let latest = same ∙ some-injective _ _ e in
    ground (
      arith,
      sums,
      ap (λ (q : MigrationRecord). q.checksum == c) latest,
      has-map_checksum c (foldl split_step (r, []) rs).1,
    )

-- The latest record needs no execution: it was resolved, or did not fail and has the checksum.
abbrev pub is_settled : MigrationRecord → Text → Bool
is_settled r checksum =
    not (status_eq r.status failed) && (status_eq r.status skipped || (r.checksum == checksum))

module _ (d : Database) (j : FileJob) (result : ApplyResult) (s : d.Session) where
  locked_latest :
      (latest : MigrationRecord) (st : MigrationStatus)
      → latest.status ≡ st
      → j.is_editable ≡ false
      → ((process_latest d j (some latest) result s).2 ≡ s)
        × ((process_latest d j (some latest) result s).0
            ≡ (if is_settled latest j.current_checksum then ok else error))
  unfolding process_latest
  locked_latest latest applied e locked = ground arith
  locked_latest latest _ e locked = ground arith

  -- A file that was recorded before and may not be edited is never executed, and nothing is recorded
  -- for it. The action is `ok` if its latest record is settled, and `error` if not.
  pub locked_file :
      (latest : MigrationRecord)
      → j.latest_record ≡ some latest
      → j.is_editable ≡ false
      → ((process_file d j result s).2 ≡ s)
        × ((process_file d j result s).0
            ≡ (if is_settled latest j.current_checksum then ok else error))
  unfolding process_file
  locked_file latest e locked =
      subst
        (λ o.
          ((process_latest d j o result s).2 ≡ s)
          × ((process_latest d j o result s).0
              ≡ (if is_settled latest j.current_checksum then ok else error)))
        (sym e) (locked_latest latest latest.status refl locked)

  revert_latest :
      (latest : MigrationRecord) (st : MigrationStatus)
      → latest.status ≡ st
      → status_eq latest.status failed ≡ false
      → status_eq latest.status skipped ≡ false
      → (latest.checksum == j.current_checksum) ≡ false
      → has (get_past_checksums j.file_records) j.current_checksum ≡ true
      → process_latest d j (some latest) result s
        ≡ (error, push_error j.file_name (ancestor_revert j.file_name) result, s)
  unfolding process_latest
  revert_latest latest applied e nf ns changed past = rw e (rw changed (rw past refl))
  revert_latest latest running e nf ns changed past = rw e (rw changed (rw past refl))
  revert_latest latest failed e nf ns changed past = cc (ap (λ x. status_eq x failed) e)
  revert_latest latest skipped e nf ns changed past = cc (ap (λ x. status_eq x skipped) e)

  -- A file whose latest record is neither failed nor resolved, with a checksum that is not that of
  -- the latest record but that of an older one, is refused as a revert: it is not executed, and
  -- nothing is recorded, whether it may be edited or not.
  pub revert_refused :
      (latest : MigrationRecord)
      → j.latest_record ≡ some latest
      → get_latest_record j.file_records ≡ some latest
      → status_eq latest.status failed ≡ false
      → status_eq latest.status skipped ≡ false
      → (latest.checksum == j.current_checksum) ≡ false
      → any (with_sum j.current_checksum) j.file_records ≡ true
      → process_file d j result s
        ≡ (error, push_error j.file_name (ancestor_revert j.file_name) result, s)
  unfolding process_file
  revert_refused latest e l nf ns changed old =
      ap (λ o. process_latest d j o result s) e
      ∙ revert_latest latest latest.status refl nf ns changed
          (past-of_any j.current_checksum j.file_records latest l changed old)
