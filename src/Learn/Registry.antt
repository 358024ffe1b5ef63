-- ===== src/Learn/Registry.antt =====
-- learn/registry.py: the durable rule table with its bounded audit tail.
pub mod Soundness
pub mod Grants
pub mod Revocation
pub mod Offers
use Prim.Native.Nat.{Ordering}
use Prim.Native.String.{compare}
use ynab_agent.Common.{
  String, String-discrete, Bool, true, false, not, ◌&&◌, ◌||◌, Option, none, some, List, [], ◌∷◌,
  ◌++◌, ℕ, map, filter, find?, any, take_last, is_none, test, if◌then◌else◌,
}
use ynab_agent.Common.Text.{is_in}
use ynab_agent.Domain.Ids.{RuleId, Datetime}
use ynab_agent.Domain.Enums.{TrustState, confirmed, trusted, RuleSource, human_explicit, learned}
use ynab_agent.Domain.Rule.{Rule, Rule-discrete, RuleAction, RuleMatch}
use ynab_agent.Domain.Effect.{FeedRuleLearning}
use ynab_agent.Learn.Transitions.{
  explicit_command, RuleChange, RuleChangeKind, blessed, revoked, LearningOutcome, apply_learning,
  has_id, k_default,
}
use ynab_agent.Learn.Handler.{plan_rule_update}

abbrev pub audit_cap : ℕ
audit_cap = 200

pub record RegistryAuditEntry : Type 0 where
  pub at : Datetime
  pub payee : String
  pub change : RuleChange

pub record RegistryState : Type 0 where
  pub rules : List Rule
  pub audit : List RegistryAuditEntry

-- `_appended_audit`, for any number of entries.
unfoldable pub appended_audit :
    List RegistryAuditEntry → List RegistryAuditEntry → List RegistryAuditEntry
appended_audit audit entries = take_last audit_cap (audit ++ entries)

-- The state after a learning outcome.
unfoldable pub with_outcome : RegistryState → Datetime → String → LearningOutcome → RegistryState
with_outcome state now payee outcome = record {
  rules = outcome.rules;
  audit =
      appended_audit state.audit (record { at = now; payee = payee; change = outcome.change } ∷ []);
}

-- `record_learning`
unfoldable pub record_learning :
    RegistryState → FeedRuleLearning → Datetime → RuleId → RegistryState
unfolding with_outcome
record_learning state feed now next_id = elim (plan_rule_update state.rules feed now next_id) [
  | none ↦ state
  | some outcome ↦ with_outcome state now feed.payee outcome
]

-- `bless_rule`, on the command's match and action.
unfoldable pub bless_rule :
    RegistryState → RuleMatch → RuleAction → Datetime → RuleId → RegistryState
unfolding with_outcome
bless_rule state pattern action now next_id =
    with_outcome state now pattern.payee_pattern
      (apply_learning state.rules now next_id (explicit_command pattern action) k_default)

abbrev pub is_trusted : TrustState → Bool
is_trusted trusted = true
is_trusted _ = false

abbrev pub is_learned : RuleSource → Bool
is_learned learned = true
is_learned human_explicit = false

-- `rule.trust is TRUSTED and rule.source is LEARNED`
abbrev pub is_eligible : Rule → Bool
is_eligible rule = is_trusted rule.trust && is_learned rule.source

-- `eligible_for_bless`
unfoldable pub eligible_for_bless : RegistryState → List Rule
eligible_for_bless state = filter is_eligible state.rules

-- `pending_offers`
unfoldable pub pending_offers : RegistryState → List Rule
unfolding eligible_for_bless
pending_offers state = filter (λ rule. is_none rule.offered_at) (eligible_for_bless state)

-- One entry of `mark_offered`.
unfoldable pub stamp_offer : RuleId → Datetime → Rule → Rule
unfolding has_id
stamp_offer rule_id now rule =
    if has_id rule_id rule && is_none rule.offered_at
    then record rule { offered_at = some now }
    else rule

pub Rules-discrete : Discrete (List Rule)
Rules-discrete = hlevel Rule-discrete

-- `mark_offered`
unfoldable pub mark_offered : RegistryState → RuleId → Datetime → RegistryState
unfolding stamp_offer
mark_offered state rule_id now =
    let updated = map (stamp_offer rule_id now) state.rules in
    if test (Rules-discrete updated state.rules) then state else record state { rules = updated }

-- The grant of an accepted offer.
unfoldable pub granted : Rule → Datetime → Rule
granted target now = record target { last_confirmed_at = some now; source = human_explicit }

-- `updated if rule.id == rule_id else rule`
unfoldable pub replace_by_id : RuleId → Rule → Rule → Rule
unfolding has_id
replace_by_id rule_id updated rule = if has_id rule_id rule then updated else rule

-- `bless_by_id`, from the rule that it found.
unfoldable pub bless_found_by_id : RegistryState → RuleId → Datetime → Option Rule → RegistryState
unfolding granted replace_by_id
bless_found_by_id state rule_id now none = state
bless_found_by_id state rule_id now (some target) =
    if not (is_eligible target) then state else record {
      rules = map (replace_by_id rule_id (granted target now)) state.rules;
      audit = appended_audit state.audit (
          record {
            at = now;
            payee = target.match.payee_pattern;
            change = record { kind = blessed; rule_id = rule_id; trust = target.trust };
          }
          ∷ []);
    }

-- `bless_by_id`
unfoldable pub bless_by_id : RegistryState → RuleId → Datetime → RegistryState
unfolding bless_found_by_id
bless_by_id state rule_id now =
    bless_found_by_id state rule_id now (find? (has_id rule_id) state.rules)

-- `sorted` over a set of texts: each text once, in the order of code points.
insert_sorted : String → List String → List String
insert_sorted x [] = x ∷ []
insert_sorted x (y ∷ ys) =
    let rest = insert_sorted x ys in
    elim (compare x y) [ Ordering.lt ↦ x ∷ y ∷ ys | Ordering.eq ↦ y ∷ ys | Ordering.gt ↦ y ∷ rest ]

unfoldable pub sorted_set : List String → List String
unfolding insert_sorted
sorted_set [] = []
sorted_set (x ∷ xs) = insert_sorted x (sorted_set xs)

module _ (lower : String → String) where
  -- `rule.match.payee_pattern.lower() in payee.lower()`
  unfoldable pub rule_has_payee : String → Rule → Bool
  rule_has_payee payee rule = is_in (lower rule.match.payee_pattern) (lower payee)

  -- `rules_for_payee`
  unfoldable pub rules_for_payee : RegistryState → String → List Rule
  rules_for_payee state payee = filter (rule_has_payee payee) state.rules

  -- The blessed rules of the payee.
  unfoldable pub revocable : RegistryState → String → List Rule
  unfolding rules_for_payee
  revocable state payee =
      filter (λ rule. not (is_learned rule.source)) (rules_for_payee state payee)

  -- `rule.id in targets`
  unfoldable pub is_target : List Rule → Rule → Bool
  is_target targets rule = any (λ t. has_id rule.id t) targets

  -- One entry of the revoked table.
  unfoldable pub revoke_one : List Rule → Rule → Rule
  unfolding is_target has_id
  revoke_one targets rule =
      if is_target targets rule then record rule { trust = confirmed; source = learned } else rule

  abbrev revoked_entry : Datetime → String → RuleId → RegistryAuditEntry
  revoked_entry now payee rule_id = record {
    at = now;
    payee = payee;
    change = record { kind = revoked; rule_id = rule_id; trust = confirmed };
  }

  -- `revoke_payee`, from the rules that it found.
  unfoldable pub revoke_found : RegistryState → String → Datetime → List Rule → RegistryState
  unfolding revoke_one sorted_set
  revoke_found state payee now [] = state
  revoke_found state payee now (t ∷ ts) = record {
    rules = map (revoke_one (t ∷ ts)) state.rules;
    audit =
        appended_audit state.audit
          (map (revoked_entry now payee) (sorted_set (map (λ r. r.id) (t ∷ ts))));
  }

  -- `revoke_payee`
  unfoldable pub revoke_payee : RegistryState → String → Datetime → RegistryState
  unfolding revoke_found revocable
  revoke_payee state payee now = revoke_found state payee now (revocable state payee)
