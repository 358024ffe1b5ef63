-- ===== src/Policy/Converge.antt =====
-- policy/converge.py: the end-state that a write converges to, and how it is compared. The hash of
-- an end-state, sha256 over pydantic's JSON, is a parameter `digest` into a type whose values can
-- be told apart; what is taken of it, where a theorem needs it, is that states with the same
-- digest are the same.
pub mod Verdict
pub mod Precommit
use ynab_agent.Common.{
  String, Bool, true, false, not, ◌&&◌, ◌||◌, Option, none, some, List, is_none, test,
  if◌then◌else◌,
}
use Prim.Native.Nat.{Ordering}
use Prim.Native.String.{compare, then as lexicographic}
use ynab_agent.Common.Order.{compare_ℤ}
use ynab_agent.Common.Sort.{sorted_by}
use ynab_agent.Domain.Allocation.{
  ResolvedSplitLine, ResolvedAllocation, category, split, ResolvedAllocation-discrete,
}
use ynab_agent.Domain.Event.{VerifyOutcome, match, could_not_confirm}
use ynab_agent.Domain.Proposal.{Decision}
use ynab_agent.Domain.Transaction.{YnabSnapshot, is_reconciled}

pub record TargetState : Type 0 where
  pub allocation : ResolvedAllocation
  pub memo : Option String
  pub approved : Bool

-- `target_of`
unfoldable pub target_of : Decision → TargetState
target_of decision = record {
  allocation = decision.allocation;
  memo = decision.memo;
  approved = decision.approved;
}

-- `line.memo or ""`
abbrev pub memo_key : Option String → String
memo_key none = ""
memo_key (some memo) = memo

-- The comparison of two `_split_line_key` tuples.
unfoldable pub compare_lines : ResolvedSplitLine → ResolvedSplitLine → Ordering
compare_lines a b = lexicographic (compare a.category b.category) (
    lexicographic (compare_ℤ a.amount.milliunits b.amount.milliunits)
      (compare (memo_key a.memo) (memo_key b.memo)))

-- The allocation with a split's lines in their order.
unfoldable pub ordered : ResolvedAllocation → ResolvedAllocation
unfolding compare_lines
ordered (category c) = category c
ordered (split s) = split (record { lines = sorted_by compare_lines s.lines })

-- `_canonical`
unfoldable pub canonical : TargetState → TargetState
unfolding ordered
canonical target = record target { allocation = ordered target.allocation }

-- `reconciliation_blocks`
unfoldable pub reconciliation_blocks : YnabSnapshot → Bool
reconciliation_blocks snapshot = is_reconciled snapshot || snapshot.month_closed

pub data PrecommitAction : Type 0 where
  write no_change already_target diverged : PrecommitAction

-- `read_back.model_copy(update={"memo": None})`, where the target has no memo.
abbrev pub without_memo : TargetState → Option String → TargetState
without_memo read none = record read { memo = none }
without_memo read (some _) = read

-- `current is not None and prior is not None and p(current, prior)`
abbrev pub both_and :
    (TargetState → TargetState → Bool) → Option TargetState → Option TargetState → Bool
both_and p (some current) (some prior) = p current prior
both_and p _ _ = false

-- `current.allocation != prior.allocation`
unfoldable pub is_moved : TargetState → TargetState → Bool
is_moved current prior =
    not (test (ResolvedAllocation-discrete current.allocation prior.allocation))

module _ {ℓ} {Digest : Type ℓ} (same : Discrete Digest) (digest : TargetState → Digest) where
  -- `content_hash`
  unfoldable pub content_hash : TargetState → Digest
  content_hash target = digest (canonical target)

  -- `content_hash(a) == content_hash(b)`
  unfoldable pub hashes_agree : TargetState → TargetState → Bool
  unfolding content_hash
  hashes_agree a b = test (same (content_hash a) (content_hash b))

  -- `needs_write`
  unfoldable pub needs_write : Option TargetState → TargetState → Bool
  needs_write none target = true
  needs_write (some current) target = not (hashes_agree current target)

  -- `classify_verify`
  unfoldable pub classify_verify : Option TargetState → TargetState → VerifyOutcome
  classify_verify none target = could_not_confirm
  classify_verify (some read) target =
      if hashes_agree (without_memo read target.memo) target then match else VerifyOutcome.diverged

  -- `precommit_action`
  unfoldable pub precommit_action :
      Option TargetState → TargetState → Option TargetState → PrecommitAction
  unfolding needs_write is_moved
  precommit_action current target prior =
      if not (needs_write current target)
      then (if both_and hashes_agree current prior
          then PrecommitAction.no_change
          else PrecommitAction.already_target)
      else if both_and is_moved current prior
      then PrecommitAction.diverged
      else PrecommitAction.write
