-- ===== src/GroupState/Machine.antt =====
-- src/group-state.ts: the abstract view of a group, the latest status of each phase.
use migraguard.Prelude.{
  ℕ, ◌≤◌, ◌≡◌, refl, Bool, true, false, not, Option, none, some, List, [], ◌∷◌, ◌++◌, arith, keep,
  if◌then◌else◌, All,
}
use migraguard.Prelude.Text.{Text}
use migraguard.Naming.{Phase, expand, backfill, switch, contract, phase_eq}
use migraguard.Db.{MigrationRecord, MigrationStatus, applied, failed, skipped, running, status_eq}
use migraguard.GroupState.{
  GroupState, GroupStateName, not_applied, expand_applied, backfill_running, backfill_failed,
  backfill_completed, contract_ready, contract_completed, PhaseRecord, in_group,
  latest_record_for_phase, or_null, derive_group_state, compute_state, can_advance_to_phase,
  switch_applied,
}
use migraguard.GroupState.Latest.{OlderThan}
use migraguard.GroupState.Record.{latest_of_group-snoc}

pub record Statuses : Type 0 where
  pub on_expand : Option MigrationStatus
  pub on_backfill : Option MigrationStatus
  pub on_switch : Option MigrationStatus
  pub on_contract : Option MigrationStatus

abbrev status_of : Option PhaseRecord → Option MigrationStatus
status_of none = none
status_of (some r) = some r.status

abbrev pub statuses : GroupState → Statuses
statuses g = record {
  on_expand = status_of g.phases.expand_rec;
  on_backfill = status_of g.phases.backfill_rec;
  on_switch = status_of g.phases.switch_rec;
  on_contract = status_of g.phases.contract_rec;
}

-- A phase gets a new latest status.
abbrev pub set_status : Phase → MigrationStatus → Statuses → Statuses
set_status p st m = record {
  on_expand = if phase_eq p expand then some st else m.on_expand;
  on_backfill = if phase_eq p backfill then some st else m.on_backfill;
  on_switch = if phase_eq p switch then some st else m.on_switch;
  on_contract = if phase_eq p contract then some st else m.on_contract;
}

abbrev pub get_status : Phase → Statuses → Option MigrationStatus
get_status expand m = m.on_expand
get_status backfill m = m.on_backfill
get_status switch m = m.on_switch
get_status contract m = m.on_contract

abbrev pub is : MigrationStatus → Option MigrationStatus → Bool
is st none = false
is st (some x) = status_eq x st

-- The state of the abstract view.
abbrev pub state_of : Statuses → GroupStateName
state_of m =
    if not (is applied m.on_expand)
    then not_applied
    else if is applied m.on_contract
    then contract_completed
    else if is applied m.on_switch
    then contract_ready
    else if is running m.on_backfill
    then backfill_running
    else if is failed m.on_backfill
    then backfill_failed
    else if is applied m.on_backfill
    then backfill_completed
    else expand_applied

abbrev pub unset_or_applied : Option MigrationStatus → Bool
unset_or_applied none = true
unset_or_applied (some x) = status_eq x applied

-- The guard of the abstract view.
abbrev pub may_enter : Statuses → Phase → Bool
may_enter m expand = true
may_enter m backfill = is applied m.on_expand
may_enter m switch = if is applied m.on_expand then unset_or_applied m.on_backfill else false
may_enter m contract =
    if is applied m.on_expand
    then (if unset_or_applied m.on_backfill then unset_or_applied m.on_switch else false)
    else false

pub state-eq-state_of :
    (rs : List MigrationRecord) (g : Text)
    → (derive_group_state rs g).state ≡ state_of (statuses (derive_group_state rs g))
unfolding derive_group_state compute_state
state-eq-state_of rs g = ground arith

pub can_advance-eq-may_enter :
    (g : GroupState) (p : Phase) → can_advance_to_phase g p ≡ may_enter (statuses g) p
unfolding can_advance_to_phase
can_advance-eq-may_enter g expand = refl
can_advance-eq-may_enter g _ = ground arith

phase_status : List MigrationRecord → Phase → Option MigrationStatus
phase_status rs p = status_of (or_null (latest_record_for_phase rs p))

phase_status-snoc :
    (rs : List MigrationRecord) (r : MigrationRecord) (g : Text) (p q : Phase)
    → All (OlderThan r.applied_at) rs
    → in_group g r ≡ true
    → r.phase ≡ some p
    → phase_status (keep (in_group g) (rs ++ r ∷ [])) q
      ≡ (if phase_eq p q then some r.status else phase_status (keep (in_group g) rs) q)
unfolding phase_status
phase_status-snoc rs r g p q older hg hp =
    rw (latest_of_group-snoc rs r g q older hg) (rw hp (ground arith))

-- A row of the group's phase, later than all others, sets the status of the phase.
pub statuses-snoc :
    (rs : List MigrationRecord) (r : MigrationRecord) (g : Text) (p : Phase)
    → All (OlderThan r.applied_at) rs
    → in_group g r ≡ true
    → r.phase ≡ some p
    → statuses (derive_group_state (rs ++ r ∷ []) g)
      ≡ set_status p r.status (statuses (derive_group_state rs g))
unfolding derive_group_state
statuses-snoc rs r g p older hg hp =
    let at : (q : Phase)
        → phase_status (keep (in_group g) (rs ++ r ∷ [])) q
          ≡ (if phase_eq p q then some r.status else phase_status (keep (in_group g) rs) q) =
      λ q. phase_status-snoc rs r g p q older hg hp in
    unfold phase_status in
    λ i. record {
      on_expand = at expand i;
      on_backfill = at backfill i;
      on_switch = at switch i;
      on_contract = at contract i;
    }

-- How far a state is on the way from expand to contract.
abbrev pub progress : GroupStateName → ℕ
progress not_applied = 0
progress expand_applied = 1
progress backfill_running = 2
progress backfill_failed = 2
progress backfill_completed = 2
progress switch_applied = 3
progress contract_ready = 3
progress contract_completed = 4

pub progress-set_status :
    (m : Statuses) (p : Phase) (st : MigrationStatus)
    → may_enter m p ≡ true
    → is applied (get_status p m) ≡ false
    → status_eq st skipped ≡ false
    → progress (state_of m) ≤ progress (state_of (set_status p st m))
progress-set_status m expand st h k n = ground arith
progress-set_status m _ st h k n = ground arith
