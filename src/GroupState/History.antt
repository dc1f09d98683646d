-- ===== src/GroupState/History.antt =====
-- src/group-state.ts: the whole history of a group.
use migraguard.Prelude.{
  ◌≡◌, refl, Bool, true, ◌&&◌, ◌||◌, Option, none, some, List, [], ◌∷◌, ◌++◌, arith, keep, any,
  foldl, and_intro, and_left, and_right, sym, ◌∙◌,
}
use mathlib.Core.Path.{subst}
use mathlib.Core.List.{append_assoc, append-nil}
use migraguard.Prelude.Text.{Text}
use migraguard.Naming.{expand, phase_eq}
use migraguard.Db.{MigrationRecord, applied, status_eq}
use migraguard.GroupState.{
  later_of, get_latest_record, in_phase, in_group, latest_record_for_phase, derive_group_state,
  is_applied, or_null,
}

-- Some row says that the group's expand phase was applied.
abbrev pub expanded : Text → List MigrationRecord → Bool
expanded g rs = any (λ q. in_group g q && (in_phase expand q && status_eq q.status applied)) rs

-- What the rows before `r` must show.
abbrev pub allowed_after : List MigrationRecord → MigrationRecord → Bool
allowed_after rs r = elim r.group_name [
  | none ↦ true
  | some g ↦ elim r.phase [ none ↦ true | some p ↦ phase_eq p expand || expanded g rs ]
]

abbrev pub orderly_from : List MigrationRecord → List MigrationRecord → Bool
orderly_from seen [] = true
orderly_from seen (r ∷ rs) = allowed_after seen r && orderly_from (seen ++ r ∷ []) rs

-- Every row of a backfill, switch or contract phase stands behind a row that says that the expand
-- phase of its group was applied.
abbrev pub IsOrderly : List MigrationRecord → Type 0
IsOrderly rs = orderly_from [] rs ≡ true

orderly_from-snoc :
    (seen rs : List MigrationRecord) (r : MigrationRecord)
    → orderly_from seen rs ≡ true
    → allowed_after (seen ++ rs) r ≡ true
    → orderly_from seen (rs ++ r ∷ []) ≡ true
orderly_from-snoc seen [] r h k =
    and_intro (subst (λ xs. allowed_after xs r ≡ true) (append-nil seen) k) refl
orderly_from-snoc seen (q ∷ rs) r h k = and_intro (and_left _ _ h) (
    orderly_from-snoc (seen ++ q ∷ []) rs r (and_right _ _ h)
      (subst (λ xs. allowed_after xs r ≡ true) (sym (append_assoc seen (q ∷ []) rs)) k))

any-foldl :
    (p : MigrationRecord → Bool) (a : MigrationRecord) (rs : List MigrationRecord)
    → p (foldl later_of a rs) ≡ true
    → (p a || any p rs) ≡ true
any-foldl p a [] h = ground arith
any-foldl p a (q ∷ rs) h = ground (arith, any-foldl p (later_of a q) rs)

any-latest :
    (p : MigrationRecord → Bool) (rs : List MigrationRecord) {r : MigrationRecord}
    → get_latest_record rs ≡ some r
    → p r ≡ true
    → any p rs ≡ true
unfolding get_latest_record
any-latest p [] h k = cc
any-latest p (q ∷ rs) h k = any-foldl p q rs (ground arith)

any-keep :
    (p f : MigrationRecord → Bool) (rs : List MigrationRecord)
    → any p (keep f rs) ≡ any (λ q. f q && p q) rs
any-keep p f [] = refl
any-keep p f (q ∷ rs) = ground (arith, any-keep p f rs)

applied-cases :
    (o : Option MigrationRecord)
    → is_applied (or_null o) ≡ true
    → (r : MigrationRecord) × (o ≡ some r) × (status_eq r.status applied ≡ true)
applied-cases none h = cc
applied-cases (some r) h = (r, refl, h)

pub expanded-of_applied :
    (rs : List MigrationRecord) (g : Text)
    → is_applied (derive_group_state rs g).phases.expand_rec ≡ true
    → expanded g rs ≡ true
unfolding derive_group_state latest_record_for_phase
expanded-of_applied rs g h =
    let own = keep (in_group g) rs in
    let (r, latest, st) = applied-cases (get_latest_record (keep (in_phase expand) own)) h in
    let is_done = λ (q : MigrationRecord). status_eq q.status applied in
    sym (
      any-keep is_done (in_phase expand) own
      ∙ any-keep (λ q. in_phase expand q && is_done q) (in_group g) rs)
    ∙ any-latest is_done (keep (in_phase expand) own) latest st

-- A row that may be recorded next keeps the history orderly.
pub IsOrderly-snoc :
    (rs : List MigrationRecord) (r : MigrationRecord)
    → IsOrderly rs
    → allowed_after rs r ≡ true
    → IsOrderly (rs ++ r ∷ [])
IsOrderly-snoc = orderly_from-snoc []
