-- ===== src/Examples/Converge.antt =====
-- The write to YNAB and its verification at concrete inputs.
use ynab_agent.Common.{
  ◌≡◌, ◌≢◌, refl, String, String-discrete, true, false, none, some, [], ◌∷◌, test, Result, ok,
  arith,
}
use mathlib.Core.List.{Permᴰ}
use ynab_agent.Common.Int.{negsuc}
use ynab_agent.Domain.Ids.{Date}
use ynab_agent.Domain.Enums.{FlagColor, ClearedState}
use ynab_agent.Domain.Money.{from_milliunits}
use ynab_agent.Domain.Allocation
use ynab_agent.Domain.Allocation.{
  ResolvedSplitLine, ResolvedAllocation, ResolvedCategory, ResolvedAllocation-discrete,
}
use ynab_agent.Domain.Proposal.{Decision}
use ynab_agent.Domain.Transaction.{YnabSnapshot}
use ynab_agent.Domain.Event.{match}
use ynab_agent.Policy.Converge.{TargetState, target_of, classify_verify, precommit_action}
use ynab_agent.Policy.Converge.Verdict.{Confirms, classify_verify-Confirms}
use ynab_agent.Policy.Converge.Precommit.{Warranted, precommit_action-Warranted}
use ynab_agent.Ynab.{
  WireTransaction, WireSubtransaction, to_patch, to_target, to_snapshot, to_split_lines,
  optional_flag, cleared_of, present,
}
use ynab_agent.Ynab.Stored.{Applied, IsPlainAllocation}
use ynab_agent.Ynab.RoundTrip.{commit_verifies}
use ynab_agent.Ynab.Tags.{tagged_never_matches}
use ynab_agent.Examples.Samples.{answer, coffee}

-- A digest for the tests: the canonical state itself.
abbrev whole : TargetState → TargetState
whole target = target

same_state : Discrete TargetState
same_state = hlevel (String-discrete, ResolvedAllocation-discrete)

whole_tells : (a b : TargetState) → whole a ≡ whole b → a ≡ b
whole_tells a b e = e

-- $6 of groceries and $4.01 of dining, which YNAB stores in the other order.
abbrev groceries_line : ResolvedSplitLine
groceries_line = record {
  category = "groceries";
  amount = from_milliunits (negsuc 5_999);
  memo = some "milk";
  person_tag = none;
}

abbrev dining_line : ResolvedSplitLine
dining_line = record {
  category = "dining";
  amount = from_milliunits (negsuc 4_009);
  memo = none;
  person_tag = none;
}

abbrev split_answer : Decision
split_answer = record answer {
  allocation =
      Allocation.ResolvedAllocation.split (record { lines = groceries_line ∷ dining_line ∷ [] });
}

abbrev stored_groceries : WireSubtransaction
stored_groceries = record {
  amount = negsuc 5_999;
  category_id = some "groceries";
  memo = some "milk";
  deleted = false;
}

abbrev stored_dining : WireSubtransaction
stored_dining = record {
  amount = negsuc 4_009;
  category_id = some "dining";
  memo = none;
  deleted = false;
}

abbrev stored : WireTransaction
stored = record {
  id = "t1";
  account_id = "checking";
  date = "2026-01-02";
  amount = negsuc 10_009;
  approved = true;
  deleted = false;
  memo = some "typed by hand";
  cleared = "cleared";
  flag_color = some "purple";
  payee_id = none;
  payee_name = some "Coffee Bar";
  category_id = some "split";
  import_id = none;
  matched_transaction_id = none;
  subtransactions = stored_dining ∷ stored_groceries ∷ [];
}

abbrev any_date : String → Result Date
any_date text = ok 738_000

abbrev after_commit : YnabSnapshot
after_commit = record coffee {
  flag = some FlagColor.purple;
  category_id = some "split";
  memo = some "typed by hand";
  cleared = ClearedState.cleared;
  approved = true;
  subtransactions = dining_line ∷ groceries_line ∷ [];
}

stored_reads : to_snapshot any_date stored ≡ ok after_commit
unfolding to_snapshot to_split_lines optional_flag cleared_of present String-discrete
stored_reads = refl

split_applied : Applied (to_patch split_answer) stored
unfolding to_patch
split_applied = record { approved = refl; memo = tt; category = tt; lines = Permᴰ.swap refl refl }

different : (a b : String) → test (String-discrete a b) ≡ false → a ≢ b
different a b e = ground arith

split_plain : IsPlainAllocation split_answer.allocation
unfolding String-discrete
split_plain = (
  omega arith,
  (
    record { category = different "groceries" "" refl; memo = λ e. cc; untagged = refl },
    (record { category = different "dining" "" refl; memo = λ e. cc; untagged = refl }, tt),
  ),
)

commit_verifies_example :
    classify_verify same_state whole (to_target after_commit) (target_of split_answer) ≡ match
commit_verifies_example =
    commit_verifies same_state whole any_date split_answer stored split_applied split_plain
      stored_reads

abbrev read_back : TargetState
read_back = record {
  allocation =
      Allocation.ResolvedAllocation.split (record { lines = dining_line ∷ groceries_line ∷ [] });
  memo = some "typed by hand";
  approved = true;
}

read_back_found : to_target after_commit ≡ some read_back
unfolding to_target
read_back_found = refl

read_back_matches :
    classify_verify same_state whole (some read_back) (target_of split_answer) ≡ match
read_back_matches = rw read_back_found at (
    commit_verifies same_state whole any_date split_answer stored split_applied split_plain
      stored_reads)

classify_verify-Confirms_example : Confirms read_back (target_of split_answer)
classify_verify-Confirms_example =
    classify_verify-Confirms same_state whole whole_tells read_back (target_of split_answer)
      read_back_matches

precommit_action-Warranted_example :
    Warranted (some read_back) (target_of answer) (some (target_of split_answer)) (
      precommit_action same_state whole
        (some read_back)
        (target_of answer)
        (some (target_of split_answer)))
precommit_action-Warranted_example =
    precommit_action-Warranted same_state whole whole_tells (some read_back) (target_of answer)
      (some (target_of split_answer))

abbrev tagged_category : ResolvedCategory
tagged_category = record { category = "dining"; person_tag = some "alex" }

abbrev tagged_answer : Decision
tagged_answer = record answer {
  allocation = Allocation.ResolvedAllocation.category tagged_category;
}

tagged_never_matches_example :
    classify_verify same_state whole (to_target after_commit) (target_of tagged_answer) ≢ match
tagged_never_matches_example =
    tagged_never_matches same_state whole whole_tells after_commit tagged_answer tagged_category
      "alex" refl refl
