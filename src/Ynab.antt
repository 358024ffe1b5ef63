-- ===== src/Ynab.antt =====
-- ynab/client.py: what is written to YNAB, and what is read back. The HTTP client and the wire
-- formats' parsing are not modelled.
pub mod Stored
pub mod RoundTrip
pub mod Tags
use ynab_agent.Common.{
  ℕ, ltb, String, Bool, true, false, Option, none, some, List, [], ◌∷◌, map, length, is_empty,
  Result, raise, ok, value_error, test, String-discrete, ◌>>=◌, if◌then◌else◌,
}
use ynab_agent.Common.Int.{ℤ}
use mathlib.Core.Option
use ynab_agent.Domain.Ids.{CategoryId, Date}
use ynab_agent.Domain.Money.{from_milliunits}
use ynab_agent.Domain.Enums.{FlagColor, ClearedState, DecidedBy, agent, human}
use ynab_agent.Domain.Allocation.{
  ResolvedSplitLine, ResolvedAllocation, category, split, resolved_split,
}
use ynab_agent.Domain.Proposal.{Decision}
use ynab_agent.Domain.Transaction.{YnabSnapshot}
use ynab_agent.Policy.Converge.{TargetState}

-- One subtransaction of a patch.
pub record PatchLine : Type 0 where
  pub amount : ℤ
  pub category_id : String
  pub memo : Option String

-- The fields of a patch. A key that is left out of the `dict` is `none`; `category_id` is always
-- there, and its inner `none` is JSON's null.
pub record TransactionPatch : Type 0 where
  pub approved : Bool
  pub memo : Option String
  pub flag_color : Option FlagColor
  pub category_id : Option String
  pub subtransactions : Option (List PatchLine)

abbrev pub agent_review_flag : FlagColor
agent_review_flag = FlagColor.purple

-- The flag that an automatic write carries.
abbrev pub review_flag : DecidedBy → Option FlagColor
review_flag agent = some agent_review_flag
review_flag human = none

abbrev pub patch_line : ResolvedSplitLine → PatchLine
patch_line line = record {
  amount = line.amount.milliunits;
  category_id = line.category;
  memo = line.memo;
}

abbrev pub patch_category : ResolvedAllocation → Option String
patch_category (category c) = some c.category
patch_category (split _) = none

abbrev pub patch_lines : ResolvedAllocation → Option (List PatchLine)
patch_lines (category _) = none
patch_lines (split s) = some (map patch_line s.lines)

-- `to_patch`
unfoldable pub to_patch : Decision → TransactionPatch
to_patch decision = record {
  approved = decision.approved;
  memo = decision.memo;
  flag_color = review_flag decision.decided_by;
  category_id = patch_category decision.allocation;
  subtransactions = patch_lines decision.allocation;
}

-- A subtransaction as YNAB sends it. An absent category is `none`, an empty one `some ""`.
pub record WireSubtransaction : Type 0 where
  pub amount : ℤ
  pub category_id : Option String
  pub memo : Option String
  pub deleted : Bool

pub record WireTransaction : Type 0 where
  pub id : String
  pub account_id : String
  pub date : String
  pub amount : ℤ
  pub approved : Bool
  pub deleted : Bool
  pub memo : Option String
  pub cleared : String
  pub flag_color : Option String
  pub payee_id : Option String
  pub payee_name : Option String
  pub category_id : Option String
  pub import_id : Option String
  pub matched_transaction_id : Option String
  pub subtransactions : List WireSubtransaction

-- `x if x else None`: an empty text counts as absent.
unfoldable pub present : Option String → Option String
present none = none
present (some text) = if test (String-discrete text "") then none else some text

abbrev split_line : WireSubtransaction → String → ResolvedSplitLine
split_line sub id = record {
  category = id;
  amount = from_milliunits sub.amount;
  memo = sub.memo;
  person_tag = none;
}

-- The line of one subtransaction: none of a deleted or an uncategorized one.
unfoldable pub to_split_line : WireSubtransaction → Option ResolvedSplitLine
unfolding present
to_split_line sub =
    if sub.deleted then none else Option.map (split_line sub) (present sub.category_id)

abbrev pub add_line : Option ResolvedSplitLine → List ResolvedSplitLine → List ResolvedSplitLine
add_line none lines = lines
add_line (some line) lines = line ∷ lines

-- `_to_split_lines`
unfoldable pub to_split_lines : List WireSubtransaction → List ResolvedSplitLine
unfolding to_split_line
to_split_lines [] = []
to_split_lines (sub ∷ subs) = add_line (to_split_line sub) (to_split_lines subs)

abbrev is_text : String → String → Bool
is_text a b = test (String-discrete a b)

-- `FlagColor(text)`
unfoldable pub flag_of : String → Result FlagColor
flag_of text =
    if is_text text "red"
    then ok FlagColor.red
    else if is_text text "orange"
    then ok FlagColor.orange
    else if is_text text "yellow"
    then ok FlagColor.yellow
    else if is_text text "green"
    then ok FlagColor.green
    else if is_text text "blue"
    then ok FlagColor.blue
    else if is_text text "purple"
    then ok FlagColor.purple
    else raise value_error

-- `FlagColor(text) if text else None`
unfoldable pub optional_flag : Option String → Result (Option FlagColor)
unfolding flag_of
optional_flag none = ok none
optional_flag (some text) = do flag ← flag_of text; ok (some flag)

-- `ClearedState(text)`
unfoldable pub cleared_of : String → Result ClearedState
cleared_of text =
    if is_text text "uncleared"
    then ok ClearedState.uncleared
    else if is_text text "cleared"
    then ok ClearedState.cleared
    else if is_text text "reconciled"
    then ok ClearedState.reconciled
    else raise value_error

-- `name or ""`
abbrev or_empty : Option String → String
or_empty none = ""
or_empty (some name) = name

-- The call of `YnabSnapshot`, once its date, flag and state are read.
abbrev pub snapshot_of : WireTransaction → Date → Option FlagColor → ClearedState → YnabSnapshot
snapshot_of wire txn_date flag cleared_state = record {
  ynab_id = wire.id;
  account = wire.account_id;
  payee = or_empty wire.payee_name;
  payee_id = present wire.payee_id;
  amount = from_milliunits wire.amount;
  txn_date = txn_date;
  posted_at = none;
  memo = wire.memo;
  flag = flag;
  category_id = present wire.category_id;
  cleared = cleared_state;
  approved = wire.approved;
  month_closed = false;
  import_id = present wire.import_id;
  matched_transaction_id = present wire.matched_transaction_id;
  subtransactions = to_split_lines wire.subtransactions;
}

-- `to_snapshot`, with `datetime.date.fromisoformat` as a parameter.
unfoldable pub to_snapshot : (String → Result Date) → WireTransaction → Result YnabSnapshot
to_snapshot parse_date wire = do
  txn_date ← parse_date wire.date
  flag ← optional_flag (present wire.flag_color)
  cleared_state ← cleared_of wire.cleared
  ok (snapshot_of wire txn_date flag cleared_state)

abbrev pub whole_target : YnabSnapshot → CategoryId → TargetState
whole_target snapshot id = record {
  allocation = category (record { category = id; person_tag = none });
  memo = snapshot.memo;
  approved = snapshot.approved;
}

-- `to_target`. The constructor `ResolvedSplit` raises on fewer than two lines, which the test
-- excludes.
unfoldable pub to_target : YnabSnapshot → Option TargetState
to_target snapshot =
    if ltb 1 (length snapshot.subtransactions)
    then some (record {
      allocation = split (record { lines = snapshot.subtransactions });
      memo = snapshot.memo;
      approved = snapshot.approved;
    })
    else Option.map (whole_target snapshot) snapshot.category_id
