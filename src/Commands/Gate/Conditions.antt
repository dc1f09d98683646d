-- ===== src/Commands/Gate/Conditions.antt =====
-- src/commands/gate.ts: what a condition of the form group:name.state says.
use mathlib.Core.Path.{subst}
use mathlib.Core.Option.{some-injective}
use mathlib.Core.List.{append_assoc, append-nil}
use migraguard.Prelude.{
  if◌then◌else◌, ◌≡◌, refl, sym, ap, ◌∙◌, Bool, true, false, not, ◌&&◌, ◌||◌, Option, none, some,
  List, [], ◌∷◌, ◌++◌, find, every, nat_eq, leb, arith, Bool-cases, Option-cases, inl, inr, ℕ, All,
  if_true, if_false,
}
use migraguard.Prelude.Text.{Text, ◌==◌, codes, strip_prefix, eq_sound}
use migraguard.GroupState.{
  GroupStateName, not_applied, expand_applied, backfill_running, backfill_failed,
  backfill_completed, switch_applied, contract_ready, contract_completed, GroupState, state_eq,
}
use migraguard.Commands.Gate.Names.{short_name, extract_short_name-short_name}
use migraguard.Commands.Gate.{
  evaluate_condition, parse_condition, split_at_dot, rest_of_line, is_dot, matches_state,
  state_name, is_named,
}

pub record Condition : Type 0 where
  pub name : Text
  pub state : Text

abbrev pub condition_text : Condition → Text
condition_text c = codes "group:" ++ (c.name ++ (46 ∷ c.state))

abbrev has_no_dot : Text → Bool
has_no_dot s = every (λ c. not (nat_eq c 46)) s

-- The name is not empty and has no dot, and the state is not empty and has no line break.
abbrev pub is_plain : Condition → Bool
is_plain c =
    not (c.name == []) && (has_no_dot c.name && (not (c.state == []) && every is_dot c.state))

-- The steps of a migration, in which a failed backfill has no place.
abbrev step : GroupStateName → Option ℕ
step not_applied = some 0
step expand_applied = some 1
step backfill_running = some 2
step backfill_failed = none
step backfill_completed = some 3
step switch_applied = some 4
step contract_ready = some 5
step contract_completed = some 6

abbrev at_or_behind : Option ℕ → Option ℕ → Bool
at_or_behind (some now) (some asked) = leb asked now
at_or_behind _ _ = false

-- The group is in the state, or at a later step.
abbrev pub reaches : GroupStateName → GroupStateName → Bool
reaches now asked = state_eq now asked || at_or_behind (step now) (step asked)

abbrev all_states : List GroupStateName
all_states =
    not_applied ∷ expand_applied ∷ backfill_running ∷ backfill_completed ∷ switch_applied
    ∷ contract_ready ∷ contract_completed ∷ backfill_failed ∷ []

-- The state that a text names. Words that name none are never reached.
abbrev state_named : Text → Option GroupStateName
state_named t = find (λ s. state_name s == t) all_states

abbrev reaches_named : GroupStateName → Option GroupStateName → Bool
reaches_named now none = false
reaches_named now (some asked) = reaches now asked

abbrev pub reached_by : Option GroupState → Text → Bool
reached_by none t = false
reached_by (some g) t = reaches_named g.state (state_named t)

abbrev is_called : Text → GroupState → Bool
is_called name g = (g.group_name == name) || (short_name g.group_name == name)

-- The first group of the name, in full or short, is in the state of the condition or at a later step.
abbrev pub holds : List GroupState → Condition → Bool
holds groups c = reached_by (find (is_called c.name) groups) c.state

find-none {ℓ} :
    {A : Type ℓ} (p : A → Bool) (xs : List A) → find p xs ≡ none → All (λ x. p x ≡ false) xs
find-none p [] h = tt
find-none p (x ∷ xs) h = elim (Bool-cases (p x)) [
  | inl hit ↦ cc (sym (if_true (p x) (some x) (find p xs) hit) ∙ h)
  | inr missed ↦ (missed, find-none p xs (sym (if_false (p x) (some x) (find p xs) missed) ∙ h))
]

find-some {ℓ} : {A : Type ℓ} (p : A → Bool) (xs : List A) (y : A) → find p xs ≡ some y → p y ≡ true
find-some p [] y h = cc
find-some p (x ∷ xs) y h = elim (Bool-cases (p x)) [
  | inl hit ↦
      subst (λ z. p z ≡ true)
        (some-injective x y (sym (if_true (p x) (some x) (find p xs) hit) ∙ h)) hit
  | inr missed ↦ find-some p xs y (sym (if_false (p x) (some x) (find p xs) missed) ∙ h)
]

-- Both orders are the same.
matches_state-named :
    (now asked : GroupStateName) → matches_state now (state_name asked) ≡ reaches now asked
unfolding matches_state ◌==◌
matches_state-named _ _ = ground arith

matches_state-unnamed :
    (now : GroupStateName) (t : Text)
    → All (λ s. (state_name s == t) ≡ false) all_states
    → matches_state now t ≡ false
unfolding matches_state
matches_state-unnamed _ t h = ground (
  arith, h.0, h.1.0, h.1.1.0, h.1.1.1.0, h.1.1.1.1.0, h.1.1.1.1.1.0, h.1.1.1.1.1.1.0,
  h.1.1.1.1.1.1.1.0,
)

matches_state-reaches :
    (now : GroupStateName) (t : Text) → matches_state now t ≡ reaches_named now (state_named t)
matches_state-reaches now t = elim (Option-cases (state_named t)) [
  | inl nothing ↦
      matches_state-unnamed now t (find-none (λ s. state_name s == t) all_states nothing)
      ∙ sym (ap (reaches_named now) nothing)
  | inr (asked, found) ↦
      ap (matches_state now) (
        sym (
          eq_sound (state_name asked) t
            (find-some (λ s. state_name s == t) all_states asked found)))
      ∙ matches_state-named now asked
      ∙ sym (ap (reaches_named now) found)
]

rest_of_line-plain :
    (s : Text) → (s == []) ≡ false → every is_dot s ≡ true → rest_of_line s ≡ some s
unfolding ◌==◌
rest_of_line-plain [] n d = cc
rest_of_line-plain (c ∷ s) n d = ground (arith, d)

-- The split at the dot behind a name, of which `seen` was read.
split_at_dot-plain :
    (x : ℕ) (seen name state : Text)
    → has_no_dot name ≡ true
    → (state == []) ≡ false
    → every is_dot state ≡ true
    → split_at_dot (x ∷ seen) (name ++ 46 ∷ state) ≡ some (x ∷ (seen ++ name), state)
unfolding split_at_dot
split_at_dot-plain x seen [] state h n d =
    ap (λ o. elim o [ none ↦ none | some rest ↦ some (x ∷ seen, rest) ])
      (rest_of_line-plain state n d)
    ∙ ap (λ s. some (x ∷ s, state)) (sym (append-nil seen))
split_at_dot-plain x seen (c ∷ name) state h n d =
    if_false (nat_eq c 46) _ _ (ground (arith, h))
    ∙ split_at_dot-plain x (seen ++ c ∷ []) name state (ground (arith, h)) n d
    ∙ ap (λ s. some (x ∷ s, state)) (append_assoc seen (c ∷ []) name)

parse_condition-named :
    (name state : Text)
    → (name == []) ≡ false
    → has_no_dot name ≡ true
    → (state == []) ≡ false
    → every is_dot state ≡ true
    → parse_condition (codes "group:" ++ (name ++ 46 ∷ state)) ≡ some (name, state)
unfolding parse_condition strip_prefix split_at_dot ◌==◌
parse_condition-named [] state k h n d = cc
parse_condition-named (x ∷ name) state k h n d =
    if_false (nat_eq x 46) _ _ (ground (arith, h))
    ∙ split_at_dot-plain x [] name state (ground (arith, h)) n d

parse_condition-plain :
    (c : Condition)
    → is_plain c ≡ true
    → parse_condition (condition_text c) ≡ some (c.name, c.state)
parse_condition-plain c h =
    parse_condition-named c.name c.state (ground (arith, h)) (ground (arith, h)) (ground (arith, h))
      (ground (arith, h))

matches-reached :
    (o : Option GroupState) (t : Text)
    → (elim o [ none ↦ false | some g ↦ matches_state g.state t ]) ≡ reached_by o t
matches-reached none t = refl
matches-reached (some g) t = matches_state-reaches g.state t

find-is_named :
    (name : Text) (groups : List GroupState)
    → find (is_named name) groups ≡ find (is_called name) groups
find-is_named name [] = refl
find-is_named name (g ∷ groups) =
    ap (λ t. if (g.group_name == name) || (t == name) then some g else find (is_named name) groups)
      (extract_short_name-short_name g.group_name)
    ∙ ap (λ o. if is_called name g then some g else o) (find-is_named name groups)

pub evaluate_condition-holds :
    (groups : List GroupState) (c : Condition)
    → is_plain c ≡ true
    → evaluate_condition groups (condition_text c) ≡ holds groups c
unfolding evaluate_condition
evaluate_condition-holds groups c h =
    ap
      (λ o. elim o [
        | none ↦ false
        | some (name, state) ↦ elim (find (is_named name) groups) [
          | none ↦ false
          | some g ↦ matches_state g.state state
        ]
      ])
      (parse_condition-plain c h)
    ∙ matches-reached (find (is_named c.name) groups) c.state
    ∙ ap (λ o. reached_by o c.state) (find-is_named c.name groups)
