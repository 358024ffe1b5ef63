-- ===== src/Budget/Overspend/Projection.antt =====
-- Bounds on the projection of a month.
use ynab_agent.Common.{
  ℕ, ◌+◌, ◌-◌, ◌*◌, ◌/◌, ◌≤◌, ◌<◌, ◌≡◌, refl, if◌then◌else◌, Bool-cases, inl, inr, ◌⊎◌, arith, ◌∙◌,
}
use mathlib.Core.Path.{ap₂}
use ynab_agent.Common.Int.{
  ℤ, pos, negsuc, pos_part, neg_part, ◌+ℤ◌, scale, floor_div, max_ℤ, ltb_ℤ, +ℤ_parts, neg, int_laws,
  ◌≤ℤ◌,
}
use ynab_agent.Domain.Money
use ynab_agent.Domain.Money.{Money, from_milliunits}
use ynab_agent.Budget.Overspend.{
  CategorySpend, MonthClock, IsClock, spent_magnitude, anchor, blend, project_spend,
}

-- The blend in natural numbers: `spent`, the plan, the day, and the month's length.
blended : ℕ → ℕ → ℕ → ℕ → ℕ
blended spent plan day len = (spent * len / day * day + plan * (len - day)) / len

-- A multiple of the quotient is within one divisor of the dividend.
quotient_bounds : (x d : ℕ) → 1 ≤ d → (x / d * d ≤ x) × (x < x / d * d + d)
quotient_bounds x d h = (omega arith, omega arith)

quotient_shift : (x y k : ℕ) → 1 ≤ k → x ≤ y + k → x / k ≤ y / k + 1
quotient_shift x y k p h = grind (arith, quotient_bounds x k, quotient_bounds y k)

plan_falls : (plan a b : ℕ) → a ≤ b → plan * a ≤ plan * b
plan_falls plan a b h = grind arith

-- For a fixed spend a later day raises the blend by one milliunit at most.
blended_later :
    (spent plan day day' len : ℕ)
    → 1 ≤ day
    → day ≤ day'
    → day' ≤ len
    → blended spent plan day' len ≤ blended spent plan day len + 1
unfolding blended
blended_later spent plan day day' len b o w =
    quotient_shift (spent * len / day' * day' + plan * (len - day'))
      (spent * len / day * day + plan * (len - day)) len (omega arith)
      (omega (
        arith,
        quotient_bounds (spent * len) day b,
        quotient_bounds (spent * len) day' (omega arith),
        plan_falls plan (len - day') (len - day) (omega arith),
      ))

pub spent-part : (category : CategorySpend) → neg_part (spent_magnitude category).milliunits ≡ 0
unfolding spent_magnitude Money.negate Money.is_outflow neg
spent-part category = ground arith

anchor-part : (category : CategorySpend) → neg_part (anchor category).milliunits ≡ 0
unfolding anchor max_ℤ
anchor-part category = ground (arith, spent-part category)

as_pos : (z : ℤ) → neg_part z ≡ 0 → z ≡ pos (pos_part z)
as_pos (pos n) e = refl
as_pos (negsuc n) e = absurd (omega arith)

scale-pos : (n k : ℕ) → scale (pos n) k ≡ pos (n * k)
unfolding scale
scale-pos n k = ground arith

+ℤ-pos : (a b : ℕ) → pos a +ℤ pos b ≡ pos (a + b)
+ℤ-pos a b = omega int_laws

blend_pos :
    (spent plan day len : ℕ)
    → floor_div
        (scale (floor_div (scale (pos spent) len) day) day +ℤ scale (pos plan) (len - day))
        len
      ≡ pos (blended spent plan day len)
unfolding floor_div blended
blend_pos spent plan day len = rw (
  scale-pos spent len,
  scale-pos (spent * len / day) day,
  scale-pos plan (len - day),
  +ℤ-pos (spent * len / day * day) (plan * (len - day)),
)

-- The blend of a category's figures, in natural numbers.
blend-blended :
    (category : CategorySpend) (clock : MonthClock)
    → (blend category clock).milliunits
      ≡ pos (
          blended
            (pos_part (spent_magnitude category).milliunits)
            (pos_part (anchor category).milliunits)
            clock.day_of_month
            clock.days_in_month)
unfolding blend
blend-blended category clock =
    ap₂
      (λ s a.
        floor_div
          (scale (floor_div (scale s clock.days_in_month) clock.day_of_month) clock.day_of_month
            +ℤ scale a (clock.days_in_month - clock.day_of_month))
          clock.days_in_month)
      (as_pos (spent_magnitude category).milliunits (spent-part category))
      (as_pos (anchor category).milliunits (anchor-part category))
    ∙ blend_pos (pos_part (spent_magnitude category).milliunits)
        (pos_part (anchor category).milliunits) clock.day_of_month clock.days_in_month

-- The floor of `project_spend`, over the integers.
abbrev floored : ℤ → ℤ → ℤ → ℤ
floored b f c = if ltb_ℤ (f +ℤ c) (b +ℤ c) then b +ℤ c else f +ℤ c

floored_max :
    (b f c : ℤ)
    → (f +ℤ c ≤ℤ floored b f c)
      × (b +ℤ c ≤ℤ floored b f c)
      × ((floored b f c ≡ b +ℤ c) ⊎ (floored b f c ≡ f +ℤ c))
floored_max b f c = elim (Bool-cases (ltb_ℤ (f +ℤ c) (b +ℤ c))) [
  | inl e ↦ rw e (ground arith, ground arith, inl refl)
  | inr e ↦ rw e (ground arith, ground arith, inr refl)
]

floored_later :
    (b b' f c : ℤ)
    → b' ≤ℤ b +ℤ pos 1
    → (floored b' f c ≤ℤ floored b f c +ℤ pos 1) × (f +ℤ c ≤ℤ floored b' f c)
floored_later b b' f c h =
    let (low', high', which') = floored_max b' f c in
    let (low, high, which) = floored_max b f c in
    (
      elim which' [
        | inl e ↦ rw e (omega (arith, +ℤ_parts, high, h))
        | inr e ↦ rw e (omega (arith, +ℤ_parts, low))
      ],
      low',
    )

project_spend-floored :
    (category : CategorySpend) (clock : MonthClock)
    → (project_spend category clock).milliunits
      ≡ floored
          (blend category clock).milliunits
          (spent_magnitude category).milliunits
          category.scheduled_remaining.milliunits
unfolding project_spend Money.lt Money.add
project_spend-floored category clock = ground arith

-- For unchanged figures the projection of a later day of the month is higher by one milliunit at
-- most, and it never falls below what is spent and scheduled.
pub project_spend_later :
    (category : CategorySpend) (clock later : MonthClock)
    → IsClock clock
    → IsClock later
    → later.days_in_month ≡ clock.days_in_month
    → clock.day_of_month ≤ later.day_of_month
    → ((project_spend category later).milliunits
        ≤ℤ (project_spend category clock).milliunits +ℤ pos 1)
      × ((spent_magnitude category).milliunits +ℤ category.scheduled_remaining.milliunits
          ≤ℤ (project_spend category later).milliunits)
project_spend_later category clock later v w e o =
    rw (project_spend-floored category later, project_spend-floored category clock)
      (floored_later _ _ _ _ (
        rw (blend-blended category later, blend-blended category clock, e)
          (omega (
            arith,
            +ℤ_parts,
            blended_later (pos_part (spent_magnitude category).milliunits)
                (pos_part (anchor category).milliunits) clock.day_of_month later.day_of_month
                clock.days_in_month v.begun o (omega arith),
          ))))
