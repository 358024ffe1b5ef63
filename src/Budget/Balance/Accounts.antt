-- ===== src/Budget/Balance/Accounts.antt =====
-- The planner's loops end, its books balance, and it gives up on a need only when its sources are
-- drained.
use ynab_agent.Common.{
  ℕ, zero, suc, ◌≤◌, ◌<◌, ◌≡◌, refl, sym, ap, ◌∙◌, true, false, List, [], ◌∷◌, ◌++◌, inl, inr, All,
  Bool-cases, test, String-discrete, arith,
}
use ynab_agent.Common.Int.{
  ℤ, pos, pos_part, ◌+ℤ◌, ◌-ℤ◌, ◌≤ℤ◌, ◌<ℤ◌, -ℤ_parts, int_laws, +ℤ_assoc, +ℤ_comm,
}
use mathlib.Core.Path.{subst}
use ynab_agent.Domain.Ids.{CategoryId}
use ynab_agent.Domain.Money
use ynab_agent.Domain.Money.{Money, zero_money}
use ynab_agent.Budget.Balance.{Source, BudgetMove}
use ynab_agent.Budget.Balance.Planner.{
  set_amount, Drawing, next_take, goes_on, draw_once, draw_from, cover_need,
}
use ynab_agent.Budget.Balance.Pool.{goes_on-Fits, cover_need_inv, draw_from_inv, test-eq}

-- The sum of what the moves bring.
unfoldable pub moved : List BudgetMove → ℤ
moved [] = pos 0
moved (move ∷ moves) = move.amount.milliunits +ℤ moved moves

pub moved-last :
    (moves : List BudgetMove) (move : BudgetMove)
    → moved (moves ++ move ∷ []) ≡ moved moves +ℤ move.amount.milliunits
unfolding moved
moved-last [] move = +ℤ_comm move.amount.milliunits (pos 0)
moved-last (m ∷ moves) move =
    ap (λ t. m.amount.milliunits +ℤ t) (moved-last moves move)
    ∙ sym (+ℤ_assoc m.amount.milliunits (moved moves) move.amount.milliunits)

part_falls : (s t : ℤ) → pos 0 <ℤ t → t ≤ℤ s → pos_part (s -ℤ t) < pos_part s
unfolding ◌-ℤ◌
part_falls s t p h = ground arith

not_going :
    (ceiling : Money) (destination source : CategoryId) (d : Drawing)
    → goes_on ceiling destination source d ≡ false
    → pos 0 <ℤ ceiling.milliunits
    → pos 0 <ℤ d.shortfall.milliunits
    → (d.pool.remaining source).milliunits ≤ℤ pos 0
unfolding goes_on next_take Money.lt
not_going ceiling destination source d h c s = ground arith

spent_out :
    (ceiling : Money) (destination source : CategoryId) (d : Drawing)
    → pos_part d.shortfall.milliunits ≡ 0
    → goes_on ceiling destination source d ≡ false
unfolding goes_on Money.lt
spent_out ceiling destination source d h = ground arith

module _ (ceiling : Money) (destination : CategoryId) where
  less_left :
      (source : CategoryId) (d : Drawing)
      → goes_on ceiling destination source d ≡ true
      → pos_part (draw_once ceiling destination source d).shortfall.milliunits
        < pos_part d.shortfall.milliunits
  unfolding draw_once Money.sub
  less_left source d on =
      let fits = goes_on-Fits ceiling destination source d on in
      part_falls d.shortfall.milliunits (next_take ceiling destination source d).milliunits
        fits.positive fits.wanted

  -- The loop ends by its own condition: the fuel is never what stops it.
  draw_from-ends :
      (source : CategoryId) (fuel : ℕ) (d : Drawing)
      → pos_part d.shortfall.milliunits ≤ fuel
      → goes_on ceiling destination source (draw_from ceiling destination source fuel d) ≡ false
  unfolding draw_from
  draw_from-ends source zero d h = spent_out ceiling destination source d (omega arith)
  draw_from-ends source (suc fuel) d h = elim (Bool-cases (goes_on ceiling destination source d)) [
    | inl on ↦ rw on (
        draw_from-ends source fuel (draw_once ceiling destination source d)
          (omega (arith, less_left source d on)))
    | inr off ↦ rw (off, off)
  ]

-- Nothing is left in any of the sources.
abbrev pub Drained : List Source → Drawing → Type 0
Drained sources d = All (λ s. (d.pool.remaining s.category).milliunits ≤ℤ pos 0) sources

-- Drawing on a source lowers what is left of it and of the shortfall, which stays positive or zero.
pub record Lowers (d after : Drawing) : Type 0 where
  pub remaining :
      (c : CategoryId) → (after.pool.remaining c).milliunits ≤ℤ (d.pool.remaining c).milliunits
  pub shortfall : after.shortfall.milliunits ≤ℤ d.shortfall.milliunits
  pub balance :
      moved after.pool.moves +ℤ after.shortfall.milliunits
      ≡ moved d.pool.moves +ℤ d.shortfall.milliunits
  pub unpaid : pos 0 ≤ℤ d.shortfall.milliunits → pos 0 ≤ℤ after.shortfall.milliunits

Lowers-refl : (d : Drawing) → Lowers d d
Lowers-refl d = record {
  remaining = λ c. omega arith;
  shortfall = omega arith;
  balance = refl;
  unpaid = λ h. h;
}

falls : (r t : ℤ) → pos 0 <ℤ t → r -ℤ t ≤ℤ r
falls r t h = omega (arith, -ℤ_parts r t)

stays : (s t : ℤ) → t ≤ℤ s → pos 0 ≤ℤ s -ℤ t
stays s t h = omega (arith, -ℤ_parts s t)

met_not_short :
    {A : Type 0} (shortfall : Money)
    → Money.le shortfall zero_money ≡ true
    → pos 0 <ℤ shortfall.milliunits
    → A
unfolding Money.le
met_not_short shortfall met h = absurd (ground arith)

take_back : (m s t : ℤ) → m +ℤ t +ℤ (s -ℤ t) ≡ m +ℤ s
take_back m s t = omega int_laws

module _ (ceiling : Money) (destination : CategoryId) where
  lowered :
      (source c : CategoryId) (d : Drawing)
      → goes_on ceiling destination source d ≡ true
      → ((draw_once ceiling destination source d).pool.remaining c).milliunits
        ≤ℤ (d.pool.remaining c).milliunits
  unfolding draw_once Money.sub set_amount
  lowered source c d on =
      let fits = goes_on-Fits ceiling destination source d on in
      let amount = (next_take ceiling destination source d).milliunits in
      elim (Bool-cases (test (String-discrete c source))) [
        | inl here ↦
            rw (here, test-eq c source here)
              (falls (d.pool.remaining source).milliunits amount fits.positive)
        | inr there ↦ rw there (omega arith)
      ]

  draw_once-Lowers :
      (start : Drawing) (source : CategoryId) (d : Drawing)
      → goes_on ceiling destination source d ≡ true
      → Lowers start d
      → Lowers start (draw_once ceiling destination source d)
  unfolding draw_once Money.sub
  draw_once-Lowers start source d on h =
      let fits = goes_on-Fits ceiling destination source d on in
      let amount = (next_take ceiling destination source d).milliunits in
      record {
        remaining = λ c. omega (arith, lowered source c d on, h.remaining c);
        shortfall = omega (arith, falls d.shortfall.milliunits amount fits.positive, h.shortfall);
        balance =
            ap (λ t. t +ℤ (d.shortfall.milliunits -ℤ amount)) (moved-last d.pool.moves _)
            ∙ take_back (moved d.pool.moves) d.shortfall.milliunits amount
            ∙ h.balance;
        unpaid = λ z. stays d.shortfall.milliunits amount fits.wanted;
      }

  draw_from-Lowers :
      (source : CategoryId) (fuel : ℕ) (d : Drawing)
      → Lowers d (draw_from ceiling destination source fuel d)
  draw_from-Lowers source fuel d =
      draw_from_inv (Lowers d) ceiling destination (draw_once-Lowers d) source fuel d
        (Lowers-refl d)

  pub cover_need-Lowers :
      (sources : List Source) (d : Drawing) → Lowers d (cover_need ceiling destination sources d)
  cover_need-Lowers sources d =
      cover_need_inv (Lowers d) ceiling destination (draw_once-Lowers d) sources d (Lowers-refl d)

  pub cover_need-met :
      (sources : List Source) (d : Drawing)
      → Money.le d.shortfall zero_money ≡ true
      → cover_need ceiling destination sources d ≡ d
  unfolding cover_need
  cover_need-met [] d met = refl
  cover_need-met (source ∷ sources) d met = rw met refl

  cover_need-short :
      (source : Source) (sources : List Source) (d : Drawing)
      → Money.le d.shortfall zero_money ≡ false
      → cover_need ceiling destination (source ∷ sources) d
        ≡ cover_need ceiling destination sources
            (draw_from ceiling destination source.category (pos_part d.shortfall.milliunits) d)
  unfolding cover_need
  cover_need-short source sources d short = rw short refl

  -- A need that is left short has drained every source.
  pub cover_need-drains :
      (sources : List Source) (d : Drawing)
      → pos 0 <ℤ ceiling.milliunits
      → pos 0 <ℤ (cover_need ceiling destination sources d).shortfall.milliunits
      → Drained sources (cover_need ceiling destination sources d)
  cover_need-drains [] d c s = tt
  cover_need-drains (source ∷ sources) d c s = elim (Bool-cases (Money.le d.shortfall zero_money)) [
    | inl met ↦ met_not_short d.shortfall met (rw (cover_need-met (source ∷ sources) d met) at s)
    | inr short ↦
        let fuel = pos_part d.shortfall.milliunits in
        let drawn = draw_from ceiling destination source.category fuel d in
        let e = cover_need-short source sources d short in
        let s' = rw e at s in
        let low = cover_need-Lowers sources drawn in
        subst (Drained (source ∷ sources)) (sym e) (
          omega (
            arith,
            low.remaining source.category,
            not_going ceiling destination source.category drawn
                (draw_from-ends ceiling destination source.category fuel d (omega arith)) c
                (omega (arith, low.shortfall)),
          ),
          cover_need-drains sources drawn c s',
        )
  ]
