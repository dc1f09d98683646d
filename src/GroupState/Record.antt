-- ===== src/GroupState/Record.antt =====
-- What one more row does to the derived states: the step that `insertRecord` makes.
use mathlib.Core.List.{append-nil}
use migraguard.Prelude.{
  ◌≡◌, refl, Bool, true, false, Option, some, List, [], ◌∷◌, ◌++◌, keep, if◌then◌else◌, keep-append,
  All, All-keep,
}
use migraguard.Prelude.Text.{Text}
use migraguard.Naming.{Phase, expand, backfill, switch, contract, phase_eq}
use migraguard.Db.{MigrationRecord}
use migraguard.GroupState.{
  GroupPhases, PhaseRecord, get_latest_record, in_phase, in_group, latest_record_for_phase,
  derive_group_state,
}
use migraguard.GroupState.Latest.{OlderThan, get_latest_record-snoc}

-- The record of one phase.
abbrev pub phase_of : GroupPhases → Phase → Option PhaseRecord
phase_of ps expand = ps.expand_rec
phase_of ps backfill = ps.backfill_rec
phase_of ps switch = ps.switch_rec
phase_of ps contract = ps.contract_rec

pub phase_eq_refl : (p : Phase) → phase_eq p p ≡ true
phase_eq_refl expand = refl
phase_eq_refl _ = refl

snoc-cases :
    (b : Bool) (xs : List MigrationRecord) (r : MigrationRecord)
    → All (OlderThan r.applied_at) xs
    → get_latest_record (xs ++ (if b then r ∷ [] else []))
      ≡ (if b then some r else get_latest_record xs)
snoc-cases true xs r h = get_latest_record-snoc xs r h
snoc-cases false xs r h = rw append-nil

-- The latest record among those that pass a filter, after one more record.
pub get_latest_record-keep_snoc :
    (f : MigrationRecord → Bool) (rs : List MigrationRecord) (r : MigrationRecord)
    → All (OlderThan r.applied_at) rs
    → get_latest_record (keep f (rs ++ r ∷ []))
      ≡ (if f r then some r else get_latest_record (keep f rs))
get_latest_record-keep_snoc f rs r h =
    rw keep-append (snoc-cases (f r) (keep f rs) r (All-keep (OlderThan r.applied_at) f rs h))

-- An insertion for another group leaves a group as it was.
pub derive_group_state-other :
    (rs : List MigrationRecord) (r : MigrationRecord) (g : Text)
    → in_group g r ≡ false
    → derive_group_state (rs ++ r ∷ []) g ≡ derive_group_state rs g
unfolding derive_group_state
derive_group_state-other rs r g h = rw keep-append (rw h (rw append-nil))

-- The latest record of each phase of a group, after one more record.
pub latest_of_group-snoc :
    (rs : List MigrationRecord) (r : MigrationRecord) (g : Text) (p : Phase)
    → All (OlderThan r.applied_at) rs
    → in_group g r ≡ true
    → latest_record_for_phase (keep (in_group g) (rs ++ r ∷ [])) p
      ≡ (if in_phase p r then some r else latest_record_for_phase (keep (in_group g) rs) p)
unfolding latest_record_for_phase
latest_of_group-snoc rs r g p older h = rw keep-append (
    rw h (
      get_latest_record-keep_snoc (in_phase p) (keep (in_group g) rs) r
        (All-keep (OlderThan r.applied_at) (in_group g) rs older)))
