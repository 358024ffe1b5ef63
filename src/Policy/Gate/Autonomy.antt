-- ===== src/Policy/Gate/Autonomy.antt =====
-- When the gate grants autonomy, and that a granted decision is one that the lifecycle accepts.
use ynab_agent.Common.{
  ◌≡◌, refl, ◌↔◌, String, true, false, Option, some, List, [], ◌∷◌, ok, Bool-cases, inl, inr, arith,
}
use ynab_agent.Domain.Ids.{Datetime}
use ynab_agent.Domain.Enums.{agent}
use ynab_agent.Domain.Allocation.{ProposedIsValid}
use ynab_agent.Domain.Proposal.{Decision}
use ynab_agent.Domain.Rule.{Rule}
use ynab_agent.Domain.Transaction.{YnabSnapshot, Enriching, enriching, is_matched_import}
use ynab_agent.Domain.Event.{enriched, auto_apply}
use ynab_agent.Lifecycle.{advance}
use ynab_agent.Lifecycle.Validity.{Returns, advance-Returns_iff}
use ynab_agent.Lifecycle.Values.{LifecyclePolicy}
use ynab_agent.Policy.Resolve.Balance.{resolve_allocation_balanced}
use ynab_agent.Policy.Floor.{FloorVerdict, FloorPolicy, AutoActionCounters, check_floor}
use ynab_agent.Policy.Gate.{
  auto, blessed_rules, judge, judge_floor, evaluate_gate, build_auto_decision,
}

-- The id is that of the only rule of the list.
abbrev pub NamesSole : List Rule → Option String → Type 0
NamesSole (rule ∷ []) rule_id = rule_id ≡ some rule.id
NamesSole _ rule_id = ⊥

judge_auto_iff :
    (rules : List Rule) (rule_id : Option String)
    → (((judge rules).verdict ≡ auto) × ((judge rules).rule_id ≡ rule_id)) ↔ NamesSole rules rule_id
unfolding judge
judge_auto_iff [] rule_id = ground arith
judge_auto_iff (rule ∷ []) rule_id = ground arith
judge_auto_iff (rule ∷ rule' ∷ rules) rule_id = ground arith

judge_floor_auto_iff :
    (v : FloorVerdict) (snapshot : YnabSnapshot) (rules : List Rule) (rule_id : Option String)
    → (((judge_floor v snapshot rules).verdict ≡ auto)
        × ((judge_floor v snapshot rules).rule_id ≡ rule_id))
      ↔ ((v ≡ FloorVerdict.allow) × (is_matched_import snapshot ≡ false) × NamesSole rules rule_id)
unfolding judge_floor
judge_floor_auto_iff FloorVerdict.allow snapshot rules rule_id =
    let sole = judge_auto_iff rules rule_id in
    elim (Bool-cases (is_matched_import snapshot)) [
      | inl e ↦ ground arith
      | inr e ↦ rw e ((λ h. (refl, refl, sole.0 h)), (λ h. sole.1 h.2))
    ]
judge_floor_auto_iff FloorVerdict.force_human snapshot rules rule_id =
    (λ h. cc (h.0), λ h. cc (h.0))
judge_floor_auto_iff FloorVerdict.trip_breaker snapshot rules rule_id =
    (λ h. cc (h.0), λ h. cc (h.0))

module _ (lower : String → String) (snapshot : YnabSnapshot) (rules : List Rule)
    (counters : AutoActionCounters) (policy : FloorPolicy) where
  -- The gate grants autonomy exactly where the floor allows the write, the import is no duplicate,
  -- and of the matching rules just one is blessed; it names that rule.
  pub evaluate_gate_auto_iff :
      (rule_id : Option String)
      → let outcome = evaluate_gate lower snapshot rules counters policy in
        ((outcome.verdict ≡ auto) × (outcome.rule_id ≡ rule_id)) ↔ (
          (check_floor (some snapshot.amount) counters policy ≡ FloorVerdict.allow)
          × (is_matched_import snapshot ≡ false)
          × NamesSole (blessed_rules lower rules snapshot) rule_id)
  unfolding evaluate_gate
  evaluate_gate_auto_iff rule_id =
      judge_floor_auto_iff (check_floor (some snapshot.amount) counters policy) snapshot
        (blessed_rules lower rules snapshot) rule_id

-- A decision that is built from a valid rule's action is accepted by the lifecycle: it is always
-- built, and `advance` takes it into AUTO_APPLIED without raising.
pub build_auto_decision_accepted :
    (rule : Rule) (txn : Enriching) (now : Datetime) (lifecycle : LifecyclePolicy)
    → ProposedIsValid rule.action.allocation
    → (d : Decision) × (build_auto_decision rule txn.core.snapshot now ≡ ok d)
      × Returns (advance now lifecycle (enriching txn) (enriched (auto_apply d)))
unfolding build_auto_decision
build_auto_decision_accepted rule txn now lifecycle v =
    let snapshot = txn.core.snapshot in
    let (r, resolved, balanced) =
      resolve_allocation_balanced rule.action.allocation snapshot.amount v in
    let d : Decision = record {
      allocation = r;
      memo = rule.action.memo_template;
      approved = true;
      decided_by = agent;
      decided_at = now;
      rule_id = some rule.id;
    } in
    (
      d,
      rw resolved refl,
      (advance-Returns_iff now lifecycle (enriching txn) (enriched (auto_apply d)) tt).1
          (refl, (refl, balanced)),
    )
