-- ===== src/Policy/Resolve/Balance.antt =====
-- A resolved split adds up to the transaction's total.
use ynab_agent.Common.{
  ℕ, suc, ◌≤◌, ◌≡◌, ◌≢◌, ◌∙◌, refl, sym, ap, false, none, some, List, [], ◌∷◌, length, ok,
  get_last?, Option-cases, inl, inr, arith,
}
use ynab_agent.Common.Int.{
  ℤ, pos, ◌+ℤ◌, ◌-ℤ◌, int_laws, +ℤ_assoc, +ℤ_comm, +ℤ_cancel, zero-+ℤ, -ℤ-zero, give_back, scale,
  floor_percent,
}
use ynab_agent.Domain.Money
use ynab_agent.Domain.Money.{Money, from_milliunits, zero_money}
use ynab_agent.Domain.Allocation.{
  ShareSpec, percent_share, fixed_share, SplitLine, ProposedSplit, ProposedAllocation,
  ProposedIsValid, category, split, ResolvedSplitLine, ResolvedAllocation, total_from, total,
  percents, proposed_split, resolved_split,
}
use ynab_agent.Domain.Transaction.{is_unbalanced}
use ynab_agent.Policy.Resolve.{
  directed, fixed_total, percent_positions, percent_amount, resolve_lines, resolve_split,
  resolve_allocation,
}

-- The amounts of a list of lines, added from the right.
amounts : List ResolvedSplitLine → ℤ
amounts [] = pos 0
amounts (line ∷ lines) = line.amount.milliunits +ℤ amounts lines

total_from-amounts :
    (running : Money) (lines : List ResolvedSplitLine)
    → (total_from running lines).milliunits ≡ running.milliunits +ℤ amounts lines
unfolding total_from amounts Money.add
total_from-amounts running [] = omega int_laws
total_from-amounts running (line ∷ lines) =
    total_from-amounts (Money.add running line.amount) lines
    ∙ +ℤ_assoc running.milliunits line.amount.milliunits (amounts lines)

module _ (total : Money) (remainder : ℤ) (last_percent : ℕ) where
  -- With no percent line left only the fixed lines count.
  amounts-fixed :
      (i : ℕ) (distributed : ℤ) (lines : List SplitLine)
      → get_last? (percent_positions i lines) ≡ none
      → amounts (resolve_lines total remainder last_percent i distributed lines)
        ≡ fixed_total total lines
  unfolding amounts resolve_lines percent_positions fixed_total
  amounts-fixed i distributed [] h = refl
  amounts-fixed i distributed (line ∷ lines) h =
      ground (arith, amounts-fixed (suc i) distributed lines)

-- The positions from `i` on are at least `i`.
le-last_position :
    (i : ℕ) (lines : List SplitLine) (l : ℕ)
    → get_last? (percent_positions i lines) ≡ some l
    → i ≤ l
unfolding percent_positions
le-last_position i [] l h = cc
le-last_position i (line ∷ lines) l h = ground (arith, le-last_position (suc i) lines l)

-- To split on the share of a line.
share_cases {ℓ} :
    (P : SplitLine → Type ℓ)
    → ((p : ℕ) (line : SplitLine) → P (record line { share = percent_share p }))
    → ((m : Money) (line : SplitLine) → P (record line { share = fixed_share m }))
    → (line : SplitLine) → P line
share_cases P on_percent on_fixed line = go line.share
  where
    go : (s : ShareSpec) → P (record line { share = s })
    go (percent_share p) = on_percent p line
    go (fixed_share m) = on_fixed m line

module _ (total : Money) (remainder : ℤ) (last_percent : ℕ) where
  abbrev loop : ℕ → ℤ → List SplitLine → ℤ
  loop i distributed lines =
      amounts (resolve_lines total remainder last_percent i distributed lines)

  -- From line `i` on, the lines add up to the fixed amounts and what is left of the remainder.
  amounts-remainder :
      (i : ℕ) (distributed : ℤ) (lines : List SplitLine)
      → get_last? (percent_positions i lines) ≡ some last_percent
      → loop i distributed lines ≡ fixed_total total lines +ℤ (remainder -ℤ distributed)
  unfolding amounts resolve_lines percent_positions fixed_total percent_amount
  amounts-remainder i distributed [] = λ h. cc
  amounts-remainder i distributed (line ∷ lines) =
      share_cases
        (λ l.
          get_last? (percent_positions i (l ∷ lines)) ≡ some last_percent
          → loop i distributed (l ∷ lines)
            ≡ fixed_total total (l ∷ lines) +ℤ (remainder -ℤ distributed))
        (λ p l h. elim (Option-cases (get_last? (percent_positions (suc i) lines))) [
          | inl last ↦ ground (
            arith,
            amounts-fixed total remainder last_percent (suc i) distributed lines,
            +ℤ_comm (remainder -ℤ distributed) (fixed_total total lines),
          )
          | inr (j, later) ↦
              let amount = floor_percent (scale remainder p) in
              ground (
                arith,
                le-last_position (suc i) lines last_percent,
                amounts-remainder (suc i) (distributed +ℤ amount) lines,
                give_back amount (fixed_total total lines) remainder distributed,
              )
        ])
        (λ m l h.
          ap (λ a. directed total m +ℤ a) (amounts-remainder (suc i) distributed lines h)
          ∙ sym (+ℤ_assoc (directed total m) (fixed_total total lines) (remainder -ℤ distributed)))
        line

  length-resolve_lines :
      (i : ℕ) (distributed : ℤ) (lines : List SplitLine)
      → length (resolve_lines total remainder last_percent i distributed lines) ≡ length lines
  unfolding resolve_lines
  length-resolve_lines i distributed [] = refl
  length-resolve_lines i distributed (line ∷ lines) =
      share_cases
        (λ l.
          length (resolve_lines total remainder last_percent i distributed (l ∷ lines))
          ≡ length (l ∷ lines))
        (λ p l. ap suc (length-resolve_lines (suc i) _ lines))
        (λ m l. ap suc (length-resolve_lines (suc i) distributed lines)) line

no_last-percents :
    (i : ℕ) (lines : List SplitLine)
    → get_last? (percent_positions i lines) ≡ none
    → percents lines ≡ []
unfolding percents percent_positions
no_last-percents i [] = λ h. refl
no_last-percents i (line ∷ lines) =
    share_cases
      (λ l. get_last? (percent_positions i (l ∷ lines)) ≡ none → percents (l ∷ lines) ≡ [])
      (λ p l h. ground (arith, no_last-percents (suc i) lines))
      (λ m l h. no_last-percents (suc i) lines h) line

-- What the validator of a template guarantees.
accepted_split :
    (s : ProposedSplit)
    → proposed_split s.lines ≡ ok s
    → (2 ≤ length s.lines) × (percents s.lines ≢ [])
unfolding proposed_split
accepted_split s h = ground arith

total_of_resolved :
    (s : ProposedSplit) (amount : Money) (l : ℕ)
    → get_last? (percent_positions 0 s.lines) ≡ some l
    → total_from zero_money
        (resolve_lines amount (amount.milliunits -ℤ fixed_total amount s.lines) l 0 (pos 0) s.lines)
      ≡ amount
total_of_resolved s amount l h =
    let fixed = fixed_total amount s.lines in
    let remainder = amount.milliunits -ℤ fixed in
    let lines = resolve_lines amount remainder l 0 (pos 0) s.lines in
    ap from_milliunits (
      total_from-amounts zero_money lines
      ∙ zero-+ℤ (amounts lines)
      ∙ amounts-remainder amount remainder l 0 (pos 0) s.lines h
      ∙ ap (λ r. fixed +ℤ r) (-ℤ-zero remainder)
      ∙ +ℤ_cancel fixed amount.milliunits)

module _ (s : ProposedSplit) (amount : Money) (l : ℕ) where
  abbrev bound_lines : List ResolvedSplitLine
  bound_lines =
      resolve_lines amount (amount.milliunits -ℤ fixed_total amount s.lines) l 0 (pos 0) s.lines

  resolves :
      2 ≤ length s.lines
      → get_last? (percent_positions 0 s.lines) ≡ some l
      → resolve_allocation (split s) amount ≡ ok (split (record { lines = bound_lines }))
  unfolding resolve_allocation resolve_split resolved_split
  resolves long e = ground (
    arith,
    length-resolve_lines amount (amount.milliunits -ℤ fixed_total amount s.lines) l 0 (pos 0)
        s.lines,
  )

  balanced :
      get_last? (percent_positions 0 s.lines) ≡ some l
      → is_unbalanced (split (record { lines = bound_lines })) amount ≡ false
  unfolding is_unbalanced total
  balanced e = ground (arith, total_of_resolved s amount l e)

-- A template that the constructors let through always resolves, and the result, where it is a
-- split, adds up exactly to the transaction's total.
pub resolve_allocation_balanced :
    (p : ProposedAllocation) (amount : Money)
    → ProposedIsValid p
    → (r : ResolvedAllocation) × (resolve_allocation p amount ≡ ok r)
      × (is_unbalanced r amount ≡ false)
unfolding resolve_allocation is_unbalanced
resolve_allocation_balanced (category c) amount v =
    (category (record { category = c.category; person_tag = c.person_tag }), refl, refl)
resolve_allocation_balanced (split s) amount v =
    let (long, sink) = accepted_split s v.accepted in
    elim (Option-cases (get_last? (percent_positions 0 s.lines))) [
      | inl e ↦ absurd (sink (no_last-percents 0 s.lines e))
      | inr (l, e) ↦ (
        split (record { lines = bound_lines s amount l }),
        resolves s amount l long e,
        balanced s amount l e,
      )
    ]
