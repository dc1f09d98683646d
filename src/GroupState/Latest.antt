-- ===== src/GroupState/Latest.antt =====
-- The reduce that finds the latest record: `getLatestRecord` and `latestRecordForPhase`.
use mathlib.Core.List.{foldl-append}
use mathlib.Core.Path.{subst}
use mathlib.Core.Option.{some-injective}
use migraguard.Prelude.{ℕ, ◌≤◌, ◌<◌, ◌≡◌, refl, none, some, List, [], ◌∷◌, ◌++◌, foldl, arith, All}
use migraguard.Db.{MigrationRecord}
use migraguard.GroupState.{later_of, get_latest_record}

-- Strictly older than the date `t`.
abbrev pub OlderThan : ℕ → MigrationRecord → Type 0
OlderThan t r = r.applied_at < t

foldl-later :
    (a r : MigrationRecord) (rs : List MigrationRecord)
    → a.applied_at < r.applied_at
    → All (OlderThan r.applied_at) rs
    → (foldl later_of a rs).applied_at < r.applied_at
foldl-later a r [] h hs = h
foldl-later a r (q ∷ rs) h hs = foldl-later (later_of a q) r rs (ground arith) hs.1

-- A record later than all before it becomes the latest.
pub get_latest_record-snoc :
    (rs : List MigrationRecord) (r : MigrationRecord)
    → All (OlderThan r.applied_at) rs
    → get_latest_record (rs ++ r ∷ []) ≡ some r
unfolding get_latest_record
get_latest_record-snoc [] r h = refl
get_latest_record-snoc (q ∷ rs) r h = rw foldl-append (ground (arith, foldl-later q r rs h.0 h.1))

pub get_latest_record-ne_nil :
    (q : MigrationRecord) (rs : List MigrationRecord)
    → (r : MigrationRecord) × (get_latest_record (q ∷ rs) ≡ some r)
unfolding get_latest_record
get_latest_record-ne_nil q rs = (foldl later_of q rs, refl)

pub get_latest_record-nil : get_latest_record [] ≡ none
unfolding get_latest_record
get_latest_record-nil = refl

-- No record is later than the latest one.
abbrev pub IsLatest : MigrationRecord → List MigrationRecord → Type 0
IsLatest r rs = All (λ (q : MigrationRecord). q.applied_at ≤ r.applied_at) rs

foldl-later_ge :
    (a : MigrationRecord) (rs : List MigrationRecord)
    → (a.applied_at ≤ (foldl later_of a rs).applied_at) × IsLatest (foldl later_of a rs) rs
foldl-later_ge a [] = (omega arith, tt)
foldl-later_ge a (q ∷ rs) =
    let (above, rest) = foldl-later_ge (later_of a q) rs in (ground arith, (ground arith, rest))

pub get_latest_record-IsLatest :
    (rs : List MigrationRecord) (r : MigrationRecord)
    → get_latest_record rs ≡ some r
    → IsLatest r rs
unfolding get_latest_record
get_latest_record-IsLatest [] r h = tt
get_latest_record-IsLatest (q ∷ rs) r h =
    subst (λ x. IsLatest x (q ∷ rs)) (some-injective _ _ h) (foldl-later_ge q rs)
