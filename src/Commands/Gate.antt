-- ===== src/Commands/Gate.antt =====
-- src/commands/gate.ts: conditions on the states of the groups.
pub mod Names
pub mod Conditions
pub mod Passes
use migraguard.Prelude.{
  ℕ, suc, Bool, true, false, not, ◌&&◌, ◌||◌, Option, none, some, List, [], ◌∷◌, ◌++◌, find, every,
  nat_eq, leb, if◌then◌else◌,
}
use migraguard.Prelude.Text.{Text, codes, strip_prefix, ◌==◌}
use migraguard.Db.{MigrationRecord, Database}
use migraguard.GroupState.{
  GroupStateName, not_applied, expand_applied, backfill_running, backfill_failed,
  backfill_completed, switch_applied, contract_ready, contract_completed, GroupState,
  derive_all_group_states,
}

pub record GateContract : Type 0 where
  pub required : List Text
  pub forbidden : List Text

pub data GateReason : Type 0 where
  required_not_met : Text → GateReason
  forbidden_present : Text → GateReason

pub record GateResult : Type 0 where
  pub pass : Bool
  pub reasons : List GateReason
  pub group_states : List GroupState

-- The string that a state is in the source.
abbrev pub state_name : GroupStateName → Text
state_name not_applied = codes "not_applied"
state_name expand_applied = codes "expand_applied"
state_name backfill_running = codes "backfill_running"
state_name backfill_failed = codes "backfill_failed"
state_name backfill_completed = codes "backfill_completed"
state_name switch_applied = codes "switch_applied"
state_name contract_ready = codes "contract_ready"
state_name contract_completed = codes "contract_completed"

-- `.` matches a code unit that is no line terminator.
abbrev pub is_dot : ℕ → Bool
is_dot c = not (nat_eq c 10 || (nat_eq c 13 || (nat_eq c 8232 || nat_eq c 8233)))

-- (.+)$ on the rest of a string
abbrev pub rest_of_line : Text → Option Text
rest_of_line [] = none
rest_of_line (c ∷ s) = if every is_dot (c ∷ s) then some (c ∷ s) else none

-- ([^.]+)\.(.+)$ behind the code units of the first group that were read
unfoldable pub split_at_dot : Text → Text → Option (Text × Text)
split_at_dot seen [] = none
split_at_dot seen (c ∷ s) =
    let later = split_at_dot (seen ++ c ∷ []) s in
    if nat_eq c 46
    then elim seen [
      | [] ↦ none
      | x ∷ xs ↦ elim (rest_of_line s) [ none ↦ none | some state ↦ some (x ∷ xs, state) ]
    ]
    else later

-- /^group:([^.]+)\.(.+)$/
unfoldable pub parse_condition : Text → Option (Text × Text)
unfolding strip_prefix split_at_dot
parse_condition condition = elim (strip_prefix (codes "group:") condition) [
  | none ↦ none
  | some s ↦ split_at_dot [] s
]

-- /__(.+)$/
unfoldable pub match_short_name : Text → Option Text
unfolding strip_prefix
match_short_name [] = none
match_short_name (c ∷ s) =
    let later = match_short_name s in
    elim (strip_prefix (codes "__") (c ∷ s)) [
      | none ↦ later
      | some t ↦ elim (rest_of_line t) [ none ↦ later | some name ↦ some name ]
    ]

unfoldable pub extract_short_name : Text → Text
unfolding match_short_name
extract_short_name name = elim (match_short_name name) [ none ↦ name | some short ↦ short ]

-- `stateOrder`
abbrev pub state_order : List Text
state_order =
    codes "not_applied"
    ∷ codes "expand_applied"
    ∷ codes "backfill_running"
    ∷ codes "backfill_completed"
    ∷ codes "switch_applied"
    ∷ codes "contract_ready"
    ∷ codes "contract_completed"
    ∷ []

-- xs.indexOf(s), with `none` for -1
abbrev pub index_of : List Text → Text → Option ℕ
index_of [] s = none
index_of (x ∷ xs) s =
    let later = index_of xs s in
    if x == s then some 0 else elim later [ none ↦ none | some n ↦ some (suc n) ]

abbrev pub is_at_least : Option ℕ → Option ℕ → Bool
is_at_least none target = false
is_at_least (some current) none = false
is_at_least (some current) (some target) = leb target current

unfoldable pub matches_state : GroupStateName → Text → Bool
matches_state current target =
    (state_name current == target)
    || is_at_least (index_of state_order (state_name current)) (index_of state_order target)

abbrev pub is_named : Text → GroupState → Bool
is_named name g = (g.group_name == name) || (extract_short_name g.group_name == name)

unfoldable pub evaluate_condition : List GroupState → Text → Bool
unfolding matches_state
evaluate_condition groups condition = elim (parse_condition condition) [
  | none ↦ false
  | some (name, state) ↦ elim (find (is_named name) groups) [
    | none ↦ false
    | some g ↦ matches_state g.state state
  ]
]

abbrev required_reasons : List GroupState → List Text → List GateReason
required_reasons groups [] = []
required_reasons groups (c ∷ cs) =
    if evaluate_condition groups c
    then required_reasons groups cs
    else required_not_met c ∷ required_reasons groups cs

abbrev forbidden_reasons : List GroupState → List Text → List GateReason
forbidden_reasons groups [] = []
forbidden_reasons groups (c ∷ cs) =
    if evaluate_condition groups c
    then forbidden_present c ∷ forbidden_reasons groups cs
    else forbidden_reasons groups cs

abbrev no_reasons : List GateReason → Bool
no_reasons [] = true
no_reasons (r ∷ rs) = false

unfoldable pub command_gate : (d : Database) → GateContract → d.Session → GateResult
command_gate d contract s =
    let groups = derive_all_group_states (d.select_rows s) in
    let reasons =
      required_reasons groups contract.required ++ forbidden_reasons groups contract.forbidden in
    record { pass = no_reasons reasons; reasons = reasons; group_states = groups }
