-- ===== src/Learn/Transitions.antt =====
-- learn/events.py, learn/actions.py, learn/transitions.py and learn/handler.py: one learning event
-- folded into the rule table.
pub mod Induction
use ynab_agent.Common.{
  ℕ, suc, leb, String, String-discrete, Bool, true, false, not, ◌&&◌, Option, none, some, List, [],
  ◌∷◌, ◌++◌, map, find?, test, if◌then◌else◌,
}
use ynab_agent.Domain.Ids.{RuleId, Datetime}
use ynab_agent.Domain.Enums.{
  TrustState, suggested, confirmed, trusted, RuleSource, human_explicit, learned,
}
use ynab_agent.Domain.Allocation
use ynab_agent.Domain.Proposal.{Decision}
use ynab_agent.Domain.Rule.{Rule, RuleAction, RuleMatch, RuleAction-discrete, RuleMatch-discrete}
use ynab_agent.Domain.Effect.{FeedRuleLearning, RuleLearningKind, confirm, correct}

pub data LearningEvent : Type 0 where
  confirm_category : RuleMatch → RuleAction → Option RuleId → LearningEvent
  correct_decision : RuleMatch → RuleAction → Option RuleId → LearningEvent
  explicit_command : RuleMatch → RuleAction → LearningEvent

pub data RuleChangeKind : Type 0 where
  created strengthened rewritten blessed revoked : RuleChangeKind

pub record RuleChange : Type 0 where
  pub kind : RuleChangeKind
  pub rule_id : RuleId
  pub trust : TrustState

pub record LearningOutcome : Type 0 where
  pub rules : List Rule
  pub change : RuleChange

abbrev pub k_default : ℕ
k_default = 3

-- `trust_for_hits`
unfoldable pub trust_for_hits : ℕ → ℕ → TrustState
trust_for_hits hits k_threshold =
    if leb hits 0 then suggested else if leb k_threshold hits then trusted else confirmed

-- `r.id == rule_id`
unfoldable pub has_id : RuleId → Rule → Bool
has_id rule_id rule = test (String-discrete rule.id rule_id)

-- `r.match == match and r.action == action`
unfoldable pub encodes : RuleMatch → RuleAction → Rule → Bool
encodes pattern action rule =
    test (RuleMatch-discrete rule.match pattern) && test (RuleAction-discrete rule.action action)

-- `_find`
unfoldable pub find_rule : List Rule → Option RuleId → Option Rule
find_rule rules none = none
find_rule rules (some rule_id) = find? (has_id rule_id) rules

-- One entry of `_replace`.
unfoldable pub replace_one : Rule → Rule → Rule
unfolding has_id
replace_one updated rule = if has_id updated.id rule then updated else rule

-- `_replace`
unfoldable pub replace_rule : List Rule → Rule → List Rule
replace_rule rules updated = map (replace_one updated) rules

-- The driving rule, if it encodes the same preference.
unfoldable pub same_preference : RuleAction → Option Rule → Option Rule
same_preference action none = none
same_preference action (some rule) =
    if test (RuleAction-discrete rule.action action) then some rule else none

unfoldable pub or_else : Option Rule → Option Rule → Option Rule
or_else none other = other
or_else (some rule) other = some rule

-- The rule that a confirmation strengthens.
unfoldable pub confirm_target : List Rule → RuleMatch → RuleAction → Option RuleId → Option Rule
unfolding or_else same_preference find_rule
confirm_target rules pattern action rule_id =
    or_else (same_preference action (find_rule rules rule_id))
      (find? (encodes pattern action) rules)

-- The table with one rule more.
abbrev pub create : List Rule → Rule → RuleChangeKind → LearningOutcome
create rules rule kind = record {
  rules = rules ++ rule ∷ [];
  change = record { kind = kind; rule_id = rule.id; trust = rule.trust };
}

-- The table with one rule replaced.
abbrev pub update : List Rule → Rule → RuleChangeKind → LearningOutcome
update rules updated kind = record {
  rules = replace_rule rules updated;
  change = record { kind = kind; rule_id = updated.id; trust = updated.trust };
}

abbrev pub earned_trust : RuleSource → ℕ → ℕ → TrustState
earned_trust human_explicit hits k = trusted
earned_trust learned hits k = trust_for_hits hits k

module _ (rules : List Rule) (now : Datetime) (next_id : RuleId) where
  -- The rule that a first confirmation creates.
  unfoldable pub confirmed_rule : RuleMatch → RuleAction → ℕ → Rule
  confirmed_rule pattern action k = record {
    id = next_id;
    match = pattern;
    action = action;
    trust = trust_for_hits 1 k;
    hits = 1;
    last_confirmed_at = some now;
    last_corrected_at = none;
    source = learned;
    offered_at = none;
  }

  -- The rule that one more confirmation makes.
  unfoldable pub strengthen : Rule → ℕ → Rule
  strengthen target k = record target {
    hits = suc target.hits;
    trust = earned_trust target.source (suc target.hits) k;
    last_confirmed_at = some now;
  }

  -- `_confirm`, from the rule that it found.
  unfoldable pub confirm_found : RuleMatch → RuleAction → ℕ → Option Rule → LearningOutcome
  unfolding confirmed_rule strengthen
  confirm_found pattern action k none = create rules (confirmed_rule pattern action k) created
  confirm_found pattern action k (some target) = update rules (strengthen target k) strengthened

  -- The rule that a correction of a ruleless decision seeds.
  unfoldable pub seeded_rule : RuleMatch → RuleAction → Rule
  seeded_rule pattern action = record {
    id = next_id;
    match = pattern;
    action = action;
    trust = suggested;
    hits = 0;
    last_confirmed_at = none;
    last_corrected_at = some now;
    source = learned;
    offered_at = none;
  }

  -- The rule that a correction leaves.
  unfoldable pub demote : Rule → RuleAction → Rule
  demote target action = record target {
    action = action;
    trust = suggested;
    hits = 0;
    last_corrected_at = some now;
    source = learned;
    offered_at = none;
  }

  -- `_correct`, from the rule that it found.
  unfoldable pub correct_found : RuleMatch → RuleAction → Option Rule → LearningOutcome
  unfolding seeded_rule demote
  correct_found pattern action none = create rules (seeded_rule pattern action) created
  correct_found pattern action (some target) = update rules (demote target action) rewritten

  -- The rule that a standing command seeds.
  unfoldable pub commanded_rule : RuleMatch → RuleAction → Rule
  commanded_rule pattern action = record {
    id = next_id;
    match = pattern;
    action = action;
    trust = trusted;
    hits = 0;
    last_confirmed_at = some now;
    last_corrected_at = none;
    source = human_explicit;
    offered_at = none;
  }

  -- The blessed form of a rule.
  unfoldable pub bless : Rule → Rule
  bless target = record target {
    trust = trusted;
    last_confirmed_at = some now;
    source = human_explicit;
  }

  -- `_bless`, from the rule that it found.
  unfoldable pub bless_found : RuleMatch → RuleAction → Option Rule → LearningOutcome
  unfolding commanded_rule bless
  bless_found pattern action none = create rules (commanded_rule pattern action) blessed
  bless_found pattern action (some target) = update rules (bless target) blessed

  -- `apply_learning`
  unfoldable pub apply_learning : LearningEvent → ℕ → LearningOutcome
  unfolding confirm_found correct_found bless_found confirm_target find_rule
  apply_learning (confirm_category pattern action rule_id) k =
      confirm_found pattern action k (confirm_target rules pattern action rule_id)
  apply_learning (correct_decision pattern action prior_rule_id) k =
      correct_found pattern action (find_rule rules prior_rule_id)
  apply_learning (explicit_command pattern action) k =
      bless_found pattern action (find? (encodes pattern action) rules)
