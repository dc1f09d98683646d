-- ===== src/Commands/GroupStatus/Agrees.antt =====
-- src/commands/group-status.ts: the question for one group and the list of all.
use migraguard.Prelude.{
  ◌≡◌, refl, sym, ap, ◌∙◌, Bool, true, false, ◌||◌, Option, none, some, List, [], ◌∷◌, arith,
  if◌then◌else◌, any, keep, foldl,
}
use migraguard.Prelude.Text.{Text, ◌==◌, eq_sound}
use migraguard.Prelude.Maps.{has, add, has-add}
use migraguard.Db.{Database, MigrationRecord}
use migraguard.GroupState.{
  not_applied, state_eq, in_group, derive_group_state, add_group_name, group_names,
  latest_record_for_phase, get_latest_record, compute_state,
}
use migraguard.Commands.GroupStatus.{found_groups, group_not_found, command_group_status}

keep-none :
    (g : Text) (rs : List MigrationRecord) → any (in_group g) rs ≡ false → keep (in_group g) rs ≡ []
keep-none g [] h = refl
keep-none g (r ∷ rs) h = ground (arith, keep-none g rs)

-- A group without rows is not applied.
no_rows :
    (g : Text) (rs : List MigrationRecord)
    → any (in_group g) rs ≡ false
    → state_eq (derive_group_state rs g).state not_applied ≡ true
unfolding derive_group_state latest_record_for_phase get_latest_record compute_state
no_rows g rs h = rw (keep-none g rs h) refl

abbrev add_name : List Text → Option Text → List Text
add_name names none = names
add_name names (some h) = if h == [] then names else add h names

abbrev is_name : Text → Option Text → Bool
is_name g none = false
is_name g (some h) = h == g

has-add_name :
    (names : List Text) (o : Option Text) (g : Text)
    → (g == []) ≡ false
    → has (add_name names o) g ≡ (has names g || is_name g o)
has-add_name names none g n = ground arith
has-add_name names (some h) g n =
    ground (arith, has-add h names g, eq_sound h g, ap (λ x. x == []) {x = h} {y = g})

add_name-elim :
    (names : List Text) (o : Option Text)
    → (elim o [ none ↦ names | some g ↦ if g == [] then names else add g names ]) ≡ add_name names o
add_name-elim names none = refl
add_name-elim names (some g) = refl

is_name-elim :
    (g : Text) (o : Option Text) → (elim o [ none ↦ false | some h ↦ h == g ]) ≡ is_name g o
is_name-elim g none = refl
is_name-elim g (some h) = refl

has-names :
    (names : List Text) (rs : List MigrationRecord) (g : Text)
    → (g == []) ≡ false
    → has (foldl add_group_name names rs) g ≡ (has names g || any (in_group g) rs)
has-names names [] g n = ground arith
has-names names (r ∷ rs) g n =
    has-names (add_group_name names r) rs g n
    ∙ ap (λ b. b || any (in_group g) rs)
        (ap (λ (ns : List Text). has ns g) (add_name-elim names r.group_name)
          ∙ has-add_name names r.group_name g n
          ∙ ap (λ b. has names g || b) (sym (is_name-elim g r.group_name)))
    ∙ ground arith

-- A group is named exactly if it has a row.
has-group_names :
    (rs : List MigrationRecord) (g : Text)
    → (g == []) ≡ false
    → has (group_names rs) g ≡ any (in_group g) rs
unfolding group_names has
has-group_names rs g n = has-names [] rs g n

-- For a name that is not the empty string, the command answers with the state of the group if it is among
-- the groups that are listed without a name, and says that there is no such group if not.
pub group_status_agrees :
    (d : Database) (s : d.Session) (g : Text)
    → (g == []) ≡ false
    → command_group_status d s (some g) ≡ (
        if has (group_names (d.select_rows s)) g
        then found_groups (derive_group_state (d.select_rows s) g ∷ [])
        else group_not_found g)
unfolding command_group_status
group_status_agrees d s g n =
    ground (arith, no_rows g (d.select_rows s), has-group_names (d.select_rows s) g n)
