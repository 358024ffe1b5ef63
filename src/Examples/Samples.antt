-- ===== src/Examples/Samples.antt =====
-- Data for the tests: a coffee charge, a rule for it, and what happens to it.
use ynab_agent.Common.{String, true, false, none, some, [], ◌∷◌}
use ynab_agent.Common.Int.{pos, negsuc}
use ynab_agent.Domain.Ids.{Datetime}
use ynab_agent.Domain.Enums.{
  ClearedState, human, agent, trusted, human_explicit, high, AwaitingFlag,
}
use ynab_agent.Domain.Money.{Money, from_milliunits}
use ynab_agent.Domain.Allocation
use ynab_agent.Domain.Allocation.{
  ProposedSplit, ProposedAllocation, ResolvedAllocation, SplitLine, percent_share, fixed_share,
}
use ynab_agent.Domain.Proposal.{Decision, Proposal}
use ynab_agent.Domain.Rule.{Rule, RuleMatch, RuleAction}
use ynab_agent.Domain.Transaction.{
  YnabSnapshot, TxnCore, Enriching, AwaitingHuman, AutoApplied, Opened,
}
use ynab_agent.Lifecycle.Values.{LifecyclePolicy}
use ynab_agent.Policy.Floor.{FloorPolicy, AutoActionCounters}

abbrev pub now : Datetime
now = pos 1_000_000

abbrev pub windows : LifecyclePolicy
windows = record {
  patience_window = pos 604_800_000_000;
  amazon_hold = pos 129_600_000_000;
  archive_window = pos 2_592_000_000_000;
}

-- -$10.01
abbrev pub charge : Money
charge = from_milliunits (negsuc 10_009)

abbrev pub coffee : YnabSnapshot
coffee = record {
  ynab_id = "t1";
  account = "checking";
  payee = "Coffee Bar";
  payee_id = none;
  amount = charge;
  txn_date = 738_000;
  posted_at = none;
  memo = none;
  flag = none;
  category_id = none;
  cleared = ClearedState.uncleared;
  approved = false;
  month_closed = false;
  import_id = none;
  matched_transaction_id = none;
  subtransactions = [];
}

abbrev pub core : TxnCore
core = record { snapshot = coffee; thread_id = none; receipt_ids = []; audit_log_ref = none }

abbrev pub dining : ResolvedAllocation
dining = Allocation.ResolvedAllocation.category (record { category = "dining"; person_tag = none })

abbrev pub answer : Decision
answer = record {
  allocation = dining;
  memo = none;
  approved = true;
  decided_by = human;
  decided_at = now;
  rule_id = none;
}

abbrev pub automatic : Decision
automatic = record answer { decided_by = agent; rule_id = some "r1" }

abbrev pub waiting : AwaitingHuman
waiting = record { core = core; patience_deadline = now; proposal = none; flag = AwaitingFlag.none }

abbrev pub settled : Opened
settled = record { core = core; decision = answer }

abbrev pub unproven : AutoApplied
unproven = record { core = core; decision = automatic }

abbrev pub enriching_txn : Enriching
enriching_txn = record { core = core; proposal = none }

-- "$4 Gifts, the rest half Dining and half Groceries"
abbrev pub template : ProposedAllocation
template = Allocation.ProposedAllocation.split (record {
  lines =
      record {
        share = fixed_share (from_milliunits (pos 4_000));
        category = "gifts";
        memo_template = none;
        person_tag = none;
      }
      ∷ record {
        share = percent_share 50;
        category = "dining";
        memo_template = none;
        person_tag = none;
      }
      ∷ record {
        share = percent_share 50;
        category = "groceries";
        memo_template = none;
        person_tag = none;
      }
      ∷ [];
})

abbrev pub coffee_match : RuleMatch
coffee_match = record {
  payee_pattern = "Coffee Bar";
  account = none;
  amount_range = none;
  item_keyword = none;
}

abbrev pub dining_action : RuleAction
dining_action = record {
  allocation =
      Allocation.ProposedAllocation.category (record { category = "dining"; person_tag = none });
  memo_template = none;
}

abbrev pub blessed_rule : Rule
blessed_rule = record {
  id = "r1";
  match = coffee_match;
  action = dining_action;
  trust = trusted;
  hits = 3;
  last_confirmed_at = none;
  last_corrected_at = none;
  source = human_explicit;
  offered_at = some now;
}

abbrev pub cautious : FloorPolicy
cautious = record {
  per_txn_ceiling = from_milliunits (pos 75_000);
  per_run_cap = 8;
  per_day_cap = 20;
  per_move_ceiling = from_milliunits (pos 500_000);
  moves_per_day_cap = 10;
}

abbrev pub no_actions : AutoActionCounters
no_actions = record { this_run = 0; today = 0 }

-- A lower-casing function for the tests, whose texts need none.
abbrev pub same_text : String → String
same_text t = t

abbrev pub guess : Proposal
guess = record {
  allocation = dining_action.allocation;
  memo = none;
  confidence = high;
  rationale = "a coffee bar";
  sources = [];
  alternatives = [];
}
