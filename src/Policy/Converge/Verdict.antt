-- ===== src/Policy/Converge/Verdict.antt =====
-- What a verdict on a read-back says of the end-state.
use ynab_agent.Common.{◌≡◌, sym, ap, String, Bool, true, Option, none, some, arith}
use mathlib.Core.List.{Perm}
use mathlib.Core.List.Perm
use mathlib.Core.Path.{subst}
use ynab_agent.Common.Sort.{sorted_by, sorted_by-perm}
use ynab_agent.Domain.Allocation.{ResolvedAllocation, category, split}
use ynab_agent.Domain.Event.{match}
use ynab_agent.Policy.Converge.{
  TargetState, compare_lines, ordered, canonical, without_memo, content_hash, hashes_agree,
  classify_verify,
}

-- Two allocations that write the same: one category, or the same lines in any order.
abbrev pub SameAllocation : ResolvedAllocation → ResolvedAllocation → Type 0
SameAllocation (category a) (category b) = a ≡ b
SameAllocation (split a) (split b) = Perm a.lines b.lines
SameAllocation _ _ = ⊥

-- The memo that was asked for, if one was, is there.
abbrev pub MemoKept : Option String → Option String → Type 0
MemoKept read none = Unit
MemoKept read (some memo) = read ≡ some memo

-- The state that was read is the one that was asked for.
pub record Confirms (read target : TargetState) : Type 0 where
  pub allocation : SameAllocation read.allocation target.allocation
  pub memo : MemoKept read.memo target.memo
  pub approved : read.approved ≡ target.approved

ordered-SameAllocation : (a b : ResolvedAllocation) → ordered a ≡ ordered b → SameAllocation a b
unfolding ordered
ordered-SameAllocation (category a) (category b) e = cc
ordered-SameAllocation (category a) (split b) e = cc
ordered-SameAllocation (split a) (category b) e = cc
ordered-SameAllocation (split a) (split b) e =
    let lines : sorted_by compare_lines a.lines ≡ sorted_by compare_lines b.lines = cc in
    Perm.trans (Perm.symm (sorted_by-perm compare_lines a.lines))
      (subst (λ l. Perm l b.lines) (sym lines) (sorted_by-perm compare_lines b.lines))

-- Two end-states that write the same.
pub record SameEnd (a b : TargetState) : Type 0 where
  pub allocation : SameAllocation a.allocation b.allocation
  pub memo : a.memo ≡ b.memo
  pub approved : a.approved ≡ b.approved

canonical-SameEnd : (a b : TargetState) → canonical a ≡ canonical b → SameEnd a b
unfolding canonical
canonical-SameEnd a b e = record {
  allocation =
      ordered-SameAllocation a.allocation b.allocation (ap (λ (t : TargetState). t.allocation) e);
  memo = ap (λ (t : TargetState). t.memo) e;
  approved = ap (λ (t : TargetState). t.approved) e;
}

SameEnd-Confirms :
    (read : TargetState) (allocation : ResolvedAllocation) (memo : Option String) (approved : Bool)
    → let target : TargetState = record {
      allocation = allocation;
      memo = memo;
      approved = approved;
    } in
      SameEnd (without_memo read memo) target → Confirms read target
SameEnd-Confirms read allocation none approved s = record {
  allocation = s.allocation;
  memo = tt;
  approved = s.approved;
}
SameEnd-Confirms read allocation (some memo) approved s = record {
  allocation = s.allocation;
  memo = s.memo;
  approved = s.approved;
}

module _ {ℓ} {Digest : Type ℓ} (same : Discrete Digest) (digest : TargetState → Digest)
    (tells : (a b : TargetState) → digest a ≡ digest b → a ≡ b) where
  pub hashes_agree-SameEnd : (a b : TargetState) → hashes_agree same digest a b ≡ true → SameEnd a b
  unfolding hashes_agree content_hash
  hashes_agree-SameEnd a b h =
      canonical-SameEnd a b (tells (canonical a) (canonical b) (ground arith))

  -- A write that is reported as confirmed is there: the read-back has the allocation that was
  -- asked for, its lines in any order, the approval, and the memo where one was asked for.
  pub classify_verify-Confirms :
      (read target : TargetState)
      → classify_verify same digest (some read) target ≡ match
      → Confirms read target
  unfolding classify_verify
  classify_verify-Confirms read target h =
      SameEnd-Confirms read target.allocation target.memo target.approved
        (hashes_agree-SameEnd (without_memo read target.memo) target (ground arith))
