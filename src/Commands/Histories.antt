-- ===== src/Commands/Histories.antt =====
-- Sequences of the commands of src/commands/advance.ts, apply-phase.ts and resolve.ts.
use migraguard.Prelude.{
  ◌≡◌, refl, Bool, ◌||◌, true, List, [], ◌∷◌, ◌++◌, arith, Bool-cases, Option-cases, sym, ◌⊎◌, inl,
  inr,
}
use migraguard.Prelude.Text.{Text}
use migraguard.Naming.{Phase, expand, phase_eq}
use migraguard.Db.{MigrationRecord, Database, IsDatabase, failed, status_eq}
use migraguard.Scanner.{Disk}
use migraguard.GroupState.{derive_group_state, can_advance_to_phase}
use migraguard.GroupState.History.{
  IsOrderly, IsOrderly-snoc, allowed_after, expanded, expanded-of_applied,
}
use migraguard.Commands.Advance.{AdvanceOptions, command_advance}
use migraguard.Commands.Advance.Effect.{group_in, select_rows-advance, advance_row}
use migraguard.Commands.ApplyPhase.{ApplyPhaseOptions, command_apply_phase}
use migraguard.Commands.ApplyPhase.Effect.{phase_file, phase_row, select_rows-execute_phase}
use migraguard.Commands.Resolve.Effect.{latest_of, resolve_row}
use migraguard.Db.Laws.{select-insert_record}
use mathlib.Core.Path.{subst}
use migraguard.Commands.Resolve.{command_resolve}

-- One command that writes rows of groups, or resolves a file.
pub data Recorded (d : Database) (s : d.Session) (t : d.Session) : Type 0 where
  advanced : (o : AdvanceOptions) → t ≡ (command_advance d o s).1 → Recorded d s t
  phase_applied :
      (disk : Disk) (o : ApplyPhaseOptions)
      → t ≡ (command_apply_phase d disk o s).1
      → Recorded d s t
  was_resolved :
      (file : Text) (dry_run : Bool) → t ≡ (command_resolve d file dry_run s).1 → Recorded d s t

pub data History (d : Database) (s : d.Session) : d.Session → Type 0 where
  start : History d s s
  after : {t u : d.Session} → History d s t → Recorded d t u → History d s u

-- The guard of the commands lets a phase in only after an expand phase.
guard-expanded :
    (rs : List MigrationRecord) (g : Text) (p : Phase)
    → can_advance_to_phase (derive_group_state rs g) p ≡ true
    → (phase_eq p expand || expanded g rs) ≡ true
unfolding can_advance_to_phase
guard-expanded rs g expand h = refl
guard-expanded rs g p h = ground (arith, expanded-of_applied rs g)

-- A session goes on with the same rows, or with one more that may follow them.
abbrev Extends : (d : Database) → d.Session → d.Session → Type 0
Extends d s t =
    (d.select_rows t ≡ d.select_rows s)
    ⊎ ((r : MigrationRecord) × (d.select_rows t ≡ d.select_rows s ++ r ∷ [])
        × (allowed_after (d.select_rows s) r ≡ true))

Extends-IsOrderly :
    (d : Database) (s t : d.Session)
    → Extends d s t
    → IsOrderly (d.select_rows s)
    → IsOrderly (d.select_rows t)
Extends-IsOrderly d s t (inl same) h = subst IsOrderly (sym same) h
Extends-IsOrderly d s t (inr (r, rows, ok)) h =
    subst IsOrderly (sym rows) (IsOrderly-snoc (d.select_rows s) r h ok)

module _ (d : Database) (laws : IsDatabase d) where
  advance-Extends : (o : AdvanceOptions) (s : d.Session) → Extends d s (command_advance d o s).1
  unfolding command_advance
  advance-Extends o s = elim (Bool-cases (can_advance_to_phase (group_in d s o.group) o.phase)) [
    | inr refused ↦ inl (rw refused refl)
    | inl may ↦ elim (Bool-cases o.dry_run) [
      | inl dry ↦ inl (rw may (rw dry refl))
      | inr real ↦ inr (
        advance_row d o s,
        (select_rows-advance d laws o s may real).1,
        guard-expanded (d.select_rows s) o.group o.phase may,
      )
    ]
  ]

  apply_phase-Extends :
      (disk : Disk) (o : ApplyPhaseOptions) (s : d.Session)
      → Extends d s (command_apply_phase d disk o s).1
  unfolding command_apply_phase
  apply_phase-Extends disk o s =
      elim (Bool-cases (can_advance_to_phase (group_in d s o.group) o.phase)) [
        | inr refused ↦ inl (rw refused refl)
        | inl may ↦ elim (Option-cases (phase_file d laws disk o s)) [
          | inl missing ↦ inl (rw may (rw missing refl))
          | inr (file, found) ↦ elim (Bool-cases o.dry_run) [
            | inl dry ↦ inl (rw may (rw found (rw dry refl)))
            | inr real ↦ inr (
              phase_row d laws disk o s file,
              rw may (rw found (rw real ((select_rows-execute_phase d laws disk o s file).1))),
              guard-expanded (d.select_rows s) o.group o.phase may,
            )
          ]
        ]
      ]

  resolve-Extends :
      (file : Text) (dry : Bool) (s : d.Session) → Extends d s (command_resolve d file dry s).1
  unfolding command_resolve
  resolve-Extends file dry s = elim (Option-cases (latest_of d s file)) [
    | inl missing ↦ inl (rw missing refl)
    | inr (r, found) ↦ elim (Bool-cases (status_eq r.status failed)) [
      | inr other ↦ inl (rw found (rw other refl))
      | inl is_failed ↦ elim (Bool-cases dry) [
        | inl yes_dry ↦ inl (rw found (rw is_failed (rw yes_dry refl)))
        | inr real ↦ inr (
          resolve_row d laws file s r,
          rw found (rw is_failed (rw real (select-insert_record d laws _ _ _ _ s))),
          refl,
        )
      ]
    ]
  ]

  Recorded-Extends : {s t : d.Session} → Recorded d s t → Extends d s t
  Recorded-Extends {s} (advanced o e) = subst (Extends d s) (sym e) (advance-Extends o s)
  Recorded-Extends {s} (phase_applied disk o e) =
      subst (Extends d s) (sym e) (apply_phase-Extends disk o s)
  Recorded-Extends {s} (was_resolved file dry e) =
      subst (Extends d s) (sym e) (resolve-Extends file dry s)

  -- For a database that keeps `IsDatabase`. Any sequence of advance, apply-phase and resolve
  -- commands keeps the rows orderly: each row of a group in a backfill, switch or contract phase
  -- stands behind a row that says that the expand phase of the group was applied.
  pub History-IsOrderly :
      {s t : d.Session} → History d s t → IsOrderly (d.select_rows s) → IsOrderly (d.select_rows t)
  History-IsOrderly start h = h
  History-IsOrderly (after {t} {u} r step) h =
      Extends-IsOrderly d t u (Recorded-Extends step) (History-IsOrderly r h)
