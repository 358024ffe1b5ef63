-- ===== src/Policy/Resolve.antt =====
-- policy/resolve.py: a template bound to a transaction's total.
pub mod Balance
use ynab_agent.Common.{
  ℕ, suc, ◌+◌, ◌==◌, Bool, Option, none, some, List, [], ◌∷◌, Result, ok, raise, index_error, ◌>>=◌,
  get_last?, if◌then◌else◌,
}
use ynab_agent.Common.Int.{ℤ, pos, ◌+ℤ◌, ◌-ℤ◌, neg, abs, scale, floor_percent, ltb_ℤ}
use ynab_agent.Domain.Money.{Money, from_milliunits}
use ynab_agent.Domain.Allocation.{
  percent_share, fixed_share, SplitLine, ProposedSplit, ProposedAllocation, category, split,
  ResolvedSplitLine, ResolvedSplit, ResolvedAllocation, resolved_split,
}

-- `direction * abs(...)`: a fixed magnitude, in the direction of the transaction.
unfoldable pub directed : Money → Money → ℤ
directed total fixed =
    if ltb_ℤ total.milliunits (pos 0) then neg (abs fixed.milliunits) else abs fixed.milliunits

-- The loop that adds up the fixed lines.
unfoldable pub fixed_total : Money → List SplitLine → ℤ
fixed_total total [] = pos 0
fixed_total total (line ∷ lines) = elim line.share [
  | percent_share _ ↦ fixed_total total lines
  | fixed_share m ↦ directed total m +ℤ fixed_total total lines
]

-- The positions of the percent lines, counted from `i`.
unfoldable pub percent_positions : ℕ → List SplitLine → List ℕ
percent_positions i [] = []
percent_positions i (line ∷ lines) = elim line.share [
  | percent_share _ ↦ i ∷ percent_positions (suc i) lines
  | fixed_share _ ↦ percent_positions (suc i) lines
]

abbrev pub resolved_line : SplitLine → ℤ → ResolvedSplitLine
resolved_line line amount = record {
  category = line.category;
  amount = from_milliunits amount;
  memo = line.memo_template;
  person_tag = line.person_tag;
}

module _ (total : Money) (remainder : ℤ) (last_percent : ℕ) where
  -- The amount of a percent line: the last one absorbs the residue.
  unfoldable pub percent_amount : ℕ → ℕ → ℤ → ℤ
  percent_amount i percent distributed =
      if i == last_percent
      then remainder -ℤ distributed
      else floor_percent (scale remainder percent)

  -- The loop over the lines, at line `i` with `distributed` given out. (The residue of the last
  -- percent line is not added to `distributed`, which nothing reads after it.)
  unfoldable pub resolve_lines : ℕ → ℤ → List SplitLine → List ResolvedSplitLine
  resolve_lines i distributed [] = []
  resolve_lines i distributed (line ∷ lines) = elim line.share [
    | percent_share p ↦
        let amount = percent_amount i p distributed in
        resolved_line line amount
        ∷ resolve_lines (suc i) (if i == last_percent then distributed else distributed +ℤ amount)
            lines
    | fixed_share m ↦
        resolved_line line (directed total m) ∷ resolve_lines (suc i) distributed lines
  ]

-- `_resolve_split`; `percent_positions[-1]` raises where there is no percent line.
unfoldable pub resolve_split : ProposedSplit → Money → Result ResolvedSplit
resolve_split s total = elim (get_last? (percent_positions 0 s.lines)) [
  | none ↦ raise index_error
  | some last_percent ↦
      let remainder = total.milliunits -ℤ fixed_total total s.lines in
      resolved_split (resolve_lines total remainder last_percent 0 (pos 0) s.lines)
]

-- `resolve_allocation`
unfoldable pub resolve_allocation : ProposedAllocation → Money → Result ResolvedAllocation
resolve_allocation (category c) total =
    ok (category (record { category = c.category; person_tag = c.person_tag }))
resolve_allocation (split s) total = do resolved ← resolve_split s total; ok (split resolved)
