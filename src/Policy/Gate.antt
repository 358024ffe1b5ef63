-- ===== src/Policy/Gate.antt =====
-- policy/gate.py: whether a proposal may auto-apply.
pub mod Autonomy
use ynab_agent.Common.{
  String, ◌<>◌, String-discrete, Bool, true, false, not, ◌&&◌, Option, none, some, List, [], ◌∷◌,
  Result, ok, ◌>>=◌, filter, test, if◌then◌else◌,
}
use ynab_agent.Common.Text.{is_in}
use ynab_agent.Domain.Ids.{AccountId, RuleId, Datetime}
use ynab_agent.Domain.Enums.{
  TrustState, suggested, confirmed, trusted, RuleSource, human_explicit, learned, agent,
}
use ynab_agent.Domain.Money.{Money}
use ynab_agent.Domain.Proposal.{Decision}
use ynab_agent.Domain.Rule.{AmountRange, contains, RuleMatch, Rule}
use ynab_agent.Domain.Transaction.{YnabSnapshot, is_matched_import}
use ynab_agent.Policy.Floor.{FloorVerdict, FloorPolicy, AutoActionCounters, check_floor}
use ynab_agent.Policy.Resolve.{resolve_allocation}

pub data GateVerdict : Type 0 where
  auto ask : GateVerdict

pub record GateOutcome : Type 0 where
  pub verdict : GateVerdict
  pub rule_id : Option RuleId
  pub reason : String

abbrev pub is_trusted : TrustState → Bool
is_trusted trusted = true
is_trusted _ = false

abbrev pub is_explicit : RuleSource → Bool
is_explicit human_explicit = true
is_explicit learned = false

-- `rule.trust is TRUSTED and rule.source is HUMAN_EXPLICIT`
abbrev pub is_blessed : Rule → Bool
is_blessed rule = is_trusted rule.trust && is_explicit rule.source

-- `match.account is not None and match.account != snapshot.account` does not hold.
account_fits : Option AccountId → AccountId → Bool
account_fits none account = true
account_fits (some wanted) account = test (String-discrete wanted account)

-- The amount lies in the range, where there is one.
amount_fits : Option AmountRange → Money → Bool
amount_fits none amount = true
amount_fits (some range) amount = contains range amount

-- `snapshot.memo or ""`
memo_text : Option String → String
memo_text none = ""
memo_text (some memo) = memo

module _ (lower : String → String) where
  -- The keyword stands in the memo, where there is one.
  keyword_fits : Option String → Option String → Bool
  keyword_fits none memo = true
  keyword_fits (some keyword) memo = is_in (lower keyword) (lower (memo_text memo))

  -- `match.payee_pattern.lower() in snapshot.payee.lower()`
  unfoldable pub payee_matches : RuleMatch → String → Bool
  payee_matches pattern payee = is_in (lower pattern.payee_pattern) (lower payee)

  -- `rule_matches`
  unfoldable pub rule_matches : Rule → YnabSnapshot → Bool
  unfolding account_fits amount_fits keyword_fits memo_text
  rule_matches rule snapshot =
      if not (payee_matches rule.match snapshot.payee)
      then false
      else if not (account_fits rule.match.account snapshot.account)
      then false
      else if not (amount_fits rule.match.amount_range snapshot.amount)
      then false
      else keyword_fits rule.match.item_keyword snapshot.memo

  -- `matching_rules`
  unfoldable pub matching_rules : List Rule → YnabSnapshot → List Rule
  matching_rules rules snapshot = filter (λ rule. rule_matches rule snapshot) rules

  -- The blessed rules among them.
  unfoldable pub blessed_rules : List Rule → YnabSnapshot → List Rule
  blessed_rules rules snapshot = filter is_blessed (matching_rules rules snapshot)

-- `f"floor: {floor}"`
floor_reason : FloorVerdict → String
floor_reason FloorVerdict.allow = "floor: allow"
floor_reason FloorVerdict.force_human = "floor: force_human"
floor_reason FloorVerdict.trip_breaker = "floor: trip_breaker"

abbrev ask_because : String → GateOutcome
ask_because reason = record { verdict = ask; rule_id = none; reason = reason }

-- The test on the number of blessed rules.
unfoldable pub judge : List Rule → GateOutcome
judge [] = ask_because "no blessed rule applies"
judge (rule ∷ []) = record {
  verdict = auto;
  rule_id = some rule.id;
  reason = "single blessed rule clearly applies";
}
judge _ = ask_because "conflicting blessed rules"

-- The gate behind the floor.
unfoldable pub judge_floor : FloorVerdict → YnabSnapshot → List Rule → GateOutcome
unfolding floor_reason judge
judge_floor FloorVerdict.allow snapshot blessed =
    if is_matched_import snapshot
    then ask_because "matched/duplicate import — accept by hand (SPEC §13)"
    else judge blessed
judge_floor verdict snapshot blessed = ask_because (floor_reason verdict)

-- `evaluate_gate`
unfoldable pub evaluate_gate :
    (String → String) → YnabSnapshot → List Rule → AutoActionCounters → FloorPolicy → GateOutcome
unfolding judge_floor
evaluate_gate lower snapshot rules counters policy =
    judge_floor (check_floor (some snapshot.amount) counters policy) snapshot
      (blessed_rules lower rules snapshot)

-- `build_auto_decision`
unfoldable pub build_auto_decision : Rule → YnabSnapshot → Datetime → Result Decision
build_auto_decision rule snapshot decided_at = do
  allocation ← resolve_allocation rule.action.allocation snapshot.amount
  ok (record {
    allocation = allocation;
    memo = rule.action.memo_template;
    approved = true;
    decided_by = agent;
    decided_at = decided_at;
    rule_id = some rule.id;
  })
