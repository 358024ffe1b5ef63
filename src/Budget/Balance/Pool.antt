-- ===== src/Budget/Balance/Pool.antt =====
-- The planner never takes more out of a source than it may give.
use ynab_agent.Common.{
  ℕ, zero, suc, ◌≡◌, refl, sym, ap, ◌∙◌, String-discrete, Bool, true, false, String, List, [], ◌∷◌,
  ◌++◌, ◌⊎◌, inl, inr, test, All, All-append, if◌then◌else◌, Bool-cases, arith,
}
use ynab_agent.Common.Int.{
  ℤ, pos, ◌+ℤ◌, ◌-ℤ◌, ◌≤ℤ◌, ◌<ℤ◌, +ℤ_parts, -ℤ_parts, int_laws, +ℤ_assoc, +ℤ_comm, zero-+ℤ, leb_ℤ,
}
use mathlib.Core.Path.{subst}
use ynab_agent.Common.Sort.{sorted_by}
use ynab_agent.Domain.Ids.{CategoryId}
use ynab_agent.Domain.Money
use ynab_agent.Domain.Money.{Money, zero_money}
use ynab_agent.Budget.Balance.{Need, Source, drawable, BudgetMove}
use ynab_agent.Budget.Balance.Planner.{
  Amounts, amounts_of, set_amount, compare_sources, Pool, Drawing, next_take, goes_on, draw_once,
  draw_from, cover_need, Planning, plan_needs, start_pool, plan_coverage,
}

-- What holds of a drawing while a loop goes round.
module _ {ℓ} (P : Drawing → Type ℓ) (ceiling : Money) (destination : CategoryId)
    (keeps : (source : CategoryId) (d : Drawing)
      → goes_on ceiling destination source d ≡ true
      → P d
      → P (draw_once ceiling destination source d)) where
  pub draw_from_inv :
      (source : CategoryId) (fuel : ℕ) (d : Drawing)
      → P d
      → P (draw_from ceiling destination source fuel d)
  unfolding draw_from
  draw_from_inv source zero d h = h
  draw_from_inv source (suc fuel) d h = elim (Bool-cases (goes_on ceiling destination source d)) [
    | inl on ↦
        rw on
          (draw_from_inv source fuel (draw_once ceiling destination source d) (keeps source d on h))
    | inr off ↦ rw off h
  ]

  pub cover_need_inv :
      (sources : List Source) (d : Drawing) → P d → P (cover_need ceiling destination sources d)
  unfolding cover_need
  cover_need_inv [] d h = h
  cover_need_inv (source ∷ sources) d h = elim (Bool-cases (Money.le d.shortfall zero_money)) [
    | inl met ↦ rw met h
    | inr short ↦ rw short (cover_need_inv sources _ (draw_from_inv source.category _ d h))
  ]

-- What the loop condition says of the next amount.
pub record Fits (ceiling : Money) (source : CategoryId) (d : Drawing) (amount : Money)
    : Type 0 where
  pub positive : pos 0 <ℤ amount.milliunits
  pub within : amount.milliunits ≤ℤ (d.pool.remaining source).milliunits
  pub wanted : amount.milliunits ≤ℤ d.shortfall.milliunits
  pub capped : amount.milliunits ≤ℤ ceiling.milliunits

pub goes_on-Fits :
    (ceiling : Money) (destination source : CategoryId) (d : Drawing)
    → goes_on ceiling destination source d ≡ true
    → Fits ceiling source d (next_take ceiling destination source d)
unfolding goes_on next_take Money.lt
goes_on-Fits ceiling destination source d h = ground arith

-- The amount that moves pull out of a source.
unfoldable pub pulled : CategoryId → List BudgetMove → ℤ
pulled c [] = pos 0
pulled c (move ∷ moves) =
    let rest = pulled c moves in
    if test (String-discrete c move.source) then move.amount.milliunits +ℤ rest else rest

add_last :
    (a b : Bool) (x y r r' : ℤ)
    → r' ≡ (if b then r +ℤ y else r)
    → (if a then x +ℤ r' else r')
      ≡ (if b then (if a then x +ℤ r else r) +ℤ y else (if a then x +ℤ r else r))
add_last true true x y r r' e = ap (λ t. x +ℤ t) e ∙ sym (+ℤ_assoc x r y)
add_last true false x y r r' e = ap (λ t. x +ℤ t) e
add_last false true x y r r' e = e
add_last false false x y r r' e = e

pub pulled-last :
    (c : CategoryId) (moves : List BudgetMove) (move : BudgetMove)
    → pulled c (moves ++ move ∷ []) ≡ (
        if test (String-discrete c move.source)
        then pulled c moves +ℤ move.amount.milliunits
        else pulled c moves)
unfolding pulled
pulled-last c [] move =
    ap (λ t. if test (String-discrete c move.source) then t else pos 0)
      (+ℤ_comm move.amount.milliunits (pos 0))
pulled-last c (m ∷ moves) move =
    add_last (test (String-discrete c m.source)) (test (String-discrete c move.source))
      m.amount.milliunits move.amount.milliunits (pulled c moves) (pulled c (moves ++ move ∷ []))
      (pulled-last c moves move)

abbrev pub IsCapped : Money → BudgetMove → Type 0
IsCapped ceiling move =
    (pos 0 <ℤ move.amount.milliunits) × (move.amount.milliunits ≤ℤ ceiling.milliunits)

-- A source has either been left alone or not been overdrawn, and the books balance.
pub record Sound (start : ℤ) (left gone : ℤ) : Type 0 where
  pub books : gone +ℤ left ≡ start
  pub solvent : (pos 0 ≤ℤ left) ⊎ (gone ≡ pos 0)

abbrev pub IsSoundPool : Money → Amounts → Pool → Type 0
IsSoundPool ceiling start pool =
    All (IsCapped ceiling) pool.moves
    × ((c : CategoryId)
        → Sound (start c).milliunits (pool.remaining c).milliunits (pulled c pool.moves))

take_give : (gone left amount : ℤ) → gone +ℤ amount +ℤ (left -ℤ amount) ≡ gone +ℤ left
take_give gone left amount = omega int_laws

Sound-step :
    (start left gone amount : ℤ)
    → Sound start left gone
    → amount ≤ℤ left
    → Sound start (left -ℤ amount) (gone +ℤ amount)
Sound-step start left gone amount s h = record {
  books = take_give gone left amount ∙ s.books;
  solvent = inl (omega (arith, -ℤ_parts left amount));
}

pub test-eq : (a b : String) → test (String-discrete a b) ≡ true → a ≡ b
test-eq a b t = ground arith

-- The pool after a move, at one category.
draw_once-Sound :
    (ceiling : Money) (destination source c : CategoryId) (d : Drawing) (start : ℤ)
    → goes_on ceiling destination source d ≡ true
    → Sound start (d.pool.remaining c).milliunits (pulled c d.pool.moves)
    → let after = (draw_once ceiling destination source d).pool in
      Sound start (after.remaining c).milliunits (pulled c after.moves)
unfolding draw_once Money.sub set_amount
draw_once-Sound ceiling destination source c d start on s =
    rw
      (pulled-last c d.pool.moves (record {
        source = source;
        destination = destination;
        amount = next_take ceiling destination source d;
      }))
      (elim (Bool-cases (test (String-discrete c source))) [
        | inl here ↦ rw here (
            Sound-step start (d.pool.remaining source).milliunits (pulled c d.pool.moves)
              (next_take ceiling destination source d).milliunits
              (subst (λ k. Sound start (d.pool.remaining k).milliunits (pulled c d.pool.moves))
                (test-eq c source here) s)
              (goes_on-Fits ceiling destination source d on).within)
        | inr there ↦ rw there s
      ])

draw_once-IsSoundPool :
    (ceiling : Money) (destination : CategoryId) (start : Amounts) (source : CategoryId)
    (d : Drawing)
    → goes_on ceiling destination source d ≡ true
    → IsSoundPool ceiling start d.pool
    → IsSoundPool ceiling start (draw_once ceiling destination source d).pool
unfolding draw_once
draw_once-IsSoundPool ceiling destination start source d on (capped, sound) = (
  All-append (IsCapped ceiling) d.pool.moves _ capped (
      let fits = goes_on-Fits ceiling destination source d on in
      ((fits.positive, fits.capped), tt)),
  λ c. draw_once-Sound ceiling destination source c d (start c).milliunits on (sound c),
)

module _ (ceiling : Money) (start : Amounts) (ordered : List Source) where
  plan_needs-IsSoundPool :
      (needs : List Need) (p : Planning)
      → IsSoundPool ceiling start p.pool
      → IsSoundPool ceiling start (plan_needs ceiling ordered needs p).pool
  unfolding plan_needs
  plan_needs-IsSoundPool [] p h = h
  plan_needs-IsSoundPool (need ∷ needs) p h =
      let d : Drawing = record { pool = p.pool; shortfall = need.shortfall } in
      plan_needs-IsSoundPool needs _ (
        cover_need_inv (λ d. IsSoundPool ceiling start d.pool) ceiling need.category
          (draw_once-IsSoundPool ceiling need.category start) ordered d h)

-- The pool that a plan leaves.
abbrev pub final_pool : List Need → List Source → Money → Pool
final_pool needs sources ceiling =
    (plan_needs ceiling (sorted_by compare_sources sources) needs
      (record { pool = start_pool sources; uncovered = [] })).pool

pub plan_coverage-IsSoundPool :
    (needs : List Need) (sources : List Source) (ceiling : Money)
    → IsSoundPool ceiling (amounts_of drawable sources) (final_pool needs sources ceiling)
unfolding pulled
plan_coverage-IsSoundPool needs sources ceiling =
    let start = amounts_of drawable sources in
    plan_needs-IsSoundPool ceiling start (sorted_by compare_sources sources) needs
      (record { pool = start_pool sources; uncovered = [] })
      (tt, λ c. record { books = zero-+ℤ (start c).milliunits; solvent = inr refl })

abbrev nothing_negative : ℤ → ℤ
nothing_negative z = if leb_ℤ (pos 0) z then z else pos 0

-- The amount that a source may give: what it can spare, and nothing where that is negative.
abbrev pub sparable : List Source → CategoryId → ℤ
sparable sources c = nothing_negative (amounts_of drawable sources c).milliunits

zero-le : (z : ℤ) → pos 0 ≤ℤ nothing_negative z
zero-le z = ground arith

gone-le : (gone left : ℤ) → pos 0 ≤ℤ left → gone ≤ℤ nothing_negative (gone +ℤ left)
gone-le gone left h = ground (arith, +ℤ_parts gone left)

settled-le : (start left gone : ℤ) → Sound start left gone → gone ≤ℤ nothing_negative start
settled-le start left gone s = elim s.solvent [
  | inl kept ↦ rw (← s.books) (gone-le gone left kept)
  | inr none ↦ rw none (zero-le start)
]

-- The plan stays within its limits: each of its moves is positive and at most the per-move
-- ceiling, and together they pull no more out of any category than that source can spare, so
-- nothing at all out of a category that is no source.
pub plan_coverage_within :
    (needs : List Need) (sources : List Source) (ceiling : Money)
    → let plan = plan_coverage needs sources ceiling in
      All (IsCapped ceiling) plan.moves
      × ((c : CategoryId) → pulled c plan.moves ≤ℤ sparable sources c)
unfolding plan_coverage
plan_coverage_within needs sources ceiling =
    let (capped, sound) = plan_coverage-IsSoundPool needs sources ceiling in
    (capped, λ c. settled-le _ _ _ (sound c))
