-- ===== src/Commands/Gate/Passes.antt =====
-- src/commands/gate.ts: when a gate passes.
use migraguard.Prelude.{
  ◌≡◌, ◌↔◌, map, refl, sym, ap, ◌∙◌, Bool, true, false, ◌&&◌, Option, none, some, List, [], ◌∷◌,
  ◌++◌, arith, if◌then◌else◌, All, Bool-cases, inl, inr, and_left, and_right, and_intro, or_right,
  ◌<◌, ℕ,
}
use migraguard.Prelude.Text.{Text, ◌==◌, eq_sound}
use migraguard.Db.{Database}
use migraguard.GroupState.{
  GroupStateName, not_applied, expand_applied, backfill_running, backfill_failed,
  backfill_completed, switch_applied, contract_ready, contract_completed, GroupState,
  derive_all_group_states, state_eq,
}
use migraguard.GroupState.Machine.{progress}
use migraguard.Commands.Gate.Conditions.{
  Condition, condition_text, is_plain, holds, evaluate_condition-holds,
}
use migraguard.Commands.Gate.{
  GateContract, GateReason, command_gate, evaluate_condition, required_reasons, forbidden_reasons,
  no_reasons, matches_state, state_name, index_of, state_order, is_at_least,
}

reason_unless {ℓ} :
    (b : Bool) (r : GateReason) (rs : List GateReason) (P : Type ℓ)
    → (no_reasons rs ≡ true) ↔ P
    → (no_reasons (if b then rs else r ∷ rs) ≡ true) ↔ ((b ≡ true) × P)
reason_unless true r rs P h = (λ k. (refl, h.0 k), λ (_, k). h.1 k)
reason_unless false r rs P h = (λ k. cc, λ (k, _). k)

reason_if {ℓ} :
    (b : Bool) (r : GateReason) (rs : List GateReason) (P : Type ℓ)
    → (no_reasons rs ≡ true) ↔ P
    → (no_reasons (if b then r ∷ rs else rs) ≡ true) ↔ ((b ≡ false) × P)
reason_if true r rs P h = (λ k. cc, λ (k, _). sym k)
reason_if false r rs P h = (λ k. (refl, h.0 k), λ (_, k). h.1 k)

forbidden-none :
    (groups : List GroupState) (cs : List Text)
    → (no_reasons (forbidden_reasons groups cs) ≡ true)
      ↔ All (λ x. evaluate_condition groups x ≡ false) cs
forbidden-none groups [] = (λ h. tt, λ h. refl)
forbidden-none groups (c ∷ cs) =
    reason_if (evaluate_condition groups c) _ (forbidden_reasons groups cs) _
      (forbidden-none groups cs)

required-none :
    (groups : List GroupState) (cs : List Text)
    → (no_reasons (required_reasons groups cs) ≡ true)
      ↔ All (λ x. evaluate_condition groups x ≡ true) cs
required-none groups [] = (λ h. tt, λ h. refl)
required-none groups (c ∷ cs) =
    reason_unless (evaluate_condition groups c) _ (required_reasons groups cs) _
      (required-none groups cs)

no_reasons-append :
    (xs ys : List GateReason) → no_reasons (xs ++ ys) ≡ (no_reasons xs && no_reasons ys)
no_reasons-append [] ys = refl
no_reasons-append (x ∷ xs) ys = refl

reasons-none :
    (groups : List GroupState) (required forbidden : List Text)
    → (no_reasons (required_reasons groups required ++ forbidden_reasons groups forbidden) ≡ true)
      ↔ (All (λ x. evaluate_condition groups x ≡ true) required
          × All (λ x. evaluate_condition groups x ≡ false) forbidden)
reasons-none groups required forbidden =
    let both =
      no_reasons-append (required_reasons groups required) (forbidden_reasons groups forbidden) in
    (
      λ h.
          let h' = sym both ∙ h in
          (
            (required-none groups required).0 (and_left _ _ h'),
            (forbidden-none groups forbidden).0 (and_right _ _ h'),
          ),
      λ (a, b).
          both
          ∙ and_intro ((required-none groups required).1 a) ((forbidden-none groups forbidden).1 b),
    )

-- What the texts of conditions evaluate to.
evaluated :
    (groups : List GroupState) (b : Bool) (cs : List Condition)
    → All (λ c. is_plain c ≡ true) cs
    → All (λ x. evaluate_condition groups x ≡ b) (map condition_text cs)
      ↔ All (λ c. holds groups c ≡ b) cs
evaluated groups b [] h = (λ k. tt, λ k. tt)
evaluated groups b (c ∷ cs) h =
    let same = evaluate_condition-holds groups c h.0 in
    let rest = evaluated groups b cs h.1 in
    (λ k. (sym same ∙ k.0, rest.0 k.1), λ k. (same ∙ k.0, rest.1 k.1))

abbrev pub contract_of : List Condition → List Condition → GateContract
contract_of required forbidden = record {
  required = map condition_text required;
  forbidden = map condition_text forbidden;
}

-- A gate whose conditions are written group:name.state, with a name that is not empty and has no dot, and
-- a state that is not empty and has no line break, passes exactly if all required conditions hold for the
-- derived states of the groups and no forbidden one does. A condition holds if the first group of the
-- name is in the state, or if both have a place in the order of the steps, where backfill_failed has
-- none, and the group is at a later one. A group has the name if its own is that, or what stands in its
-- own behind the first two underscores that have something behind them on the line. Other words for a
-- state never hold.
pub gate_passes :
    (d : Database) (required forbidden : List Condition) (s : d.Session)
    → All (λ c. is_plain c ≡ true) required
    → All (λ c. is_plain c ≡ true) forbidden
    → ((command_gate d (contract_of required forbidden) s).pass ≡ true) ↔ (
        All (λ c. holds (derive_all_group_states (d.select_rows s)) c ≡ true) required
        × All (λ c. holds (derive_all_group_states (d.select_rows s)) c ≡ false) forbidden)
unfolding command_gate
gate_passes d required forbidden s p q =
    let groups = derive_all_group_states (d.select_rows s) in
    let (to, from) =
      reasons-none groups (map condition_text required) (map condition_text forbidden) in
    let r = evaluated groups true required p in
    let f = evaluated groups false forbidden q in
    (λ h. let (a, b) = to h in (r.0 a, f.0 b), λ (a, b). from (r.1 a, f.1 b))

abbrev rank : GroupStateName → Option ℕ
rank a = index_of state_order (state_name a)

-- The positions in `stateOrder`.
abbrev order_of : GroupStateName → Option ℕ
order_of not_applied = some 0
order_of expand_applied = some 1
order_of backfill_running = some 2
order_of backfill_failed = none
order_of backfill_completed = some 3
order_of switch_applied = some 4
order_of contract_ready = some 5
order_of contract_completed = some 6

rank-eq-order_of : (a : GroupStateName) → rank a ≡ order_of a
unfolding ◌==◌
rank-eq-order_of not_applied = refl
rank-eq-order_of backfill_failed = refl
rank-eq-order_of _ = refl

-- A state of more progress has a later position.
later_order :
    (a b : GroupStateName)
    → progress a < progress b
    → state_eq a backfill_failed ≡ false
    → state_eq b backfill_failed ≡ false
    → is_at_least (order_of b) (order_of a) ≡ true
later_order backfill_failed b h k l = cc
later_order a backfill_failed h k l = cc
later_order _ _ h k l = ground arith

is_at_least_trans :
    (a b o : Option ℕ) → is_at_least b a ≡ true → is_at_least a o ≡ true → is_at_least b o ≡ true
is_at_least_trans none b o h k = cc
is_at_least_trans (some x) none o h k = cc
is_at_least_trans (some x) (some y) none h k = cc
is_at_least_trans (some x) (some y) (some z) h k = ground arith

is_at_least_refl :
    (a : GroupStateName)
    → state_eq a backfill_failed ≡ false
    → is_at_least (order_of a) (order_of a) ≡ true
is_at_least_refl backfill_failed k = cc
is_at_least_refl _ k = ground arith

-- A state of the order that matches a condition is at least at the position of the condition.
matches-position :
    (a : GroupStateName) (t : Text)
    → state_eq a backfill_failed ≡ false
    → matches_state a t ≡ true
    → is_at_least (order_of a) (index_of state_order t) ≡ true
unfolding matches_state
matches-position a t k h = elim (Bool-cases (state_name a == t)) [
  | inl same ↦
      ap (is_at_least (order_of a))
        (sym (ap (index_of state_order) (eq_sound (state_name a) t same)) ∙ rank-eq-order_of a)
      ∙ is_at_least_refl a k
  | inr other ↦ ground (arith, h, other, rank-eq-order_of a)
]

-- A condition that a state of a group meets is met by every state of more progress, if none of the two
-- is backfill_failed.
gate_monotone :
    (a b : GroupStateName) (t : Text)
    → progress a < progress b
    → state_eq a backfill_failed ≡ false
    → state_eq b backfill_failed ≡ false
    → matches_state a t ≡ true
    → matches_state b t ≡ true
unfolding matches_state
gate_monotone a b t h k l m = or_right (state_name b == t) _ (
    ap (λ o. is_at_least o (index_of state_order t)) (rank-eq-order_of b)
    ∙ is_at_least_trans (order_of a) (order_of b) (index_of state_order t) (later_order a b h k l)
        (matches-position a t k m))
