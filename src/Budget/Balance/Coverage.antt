-- ===== src/Budget/Balance/Coverage.antt =====
-- What a whole plan covers, and what it leaves.
use ynab_agent.Common.{
  ◌≡◌, ◌≢◌, refl, sym, ap, ◌∙◌, true, false, List, [], ◌∷◌, ◌++◌, ◌⊎◌, inl, inr, All, All-imp,
  if◌then◌else◌, Bool-cases, arith,
}
use ynab_agent.Common.Int.{
  ℤ, pos, ◌+ℤ◌, ◌≤ℤ◌, ◌<ℤ◌, leb_ℤ, ltb_ℤ, eq_of_parts, +ℤ_parts, int_laws, +ℤ_assoc, +ℤ_comm,
  +ℤ-zero,
}
use ynab_agent.Common.Sort.{sorted_by, All-sorted_by}
use ynab_agent.Domain.Ids.{CategoryId}
use ynab_agent.Domain.Money
use ynab_agent.Domain.Money.{Money, zero_money}
use ynab_agent.Budget.Balance.{Need, Source, drawable}
use ynab_agent.Budget.Balance.Planner.{
  Drawing, cover_need, Planning, close_need, plan_needs, start_pool, amounts_of, compare_sources,
  plan_coverage,
}
use ynab_agent.Budget.Balance.Pool.{pulled, plan_coverage-IsSoundPool}
use ynab_agent.Budget.Balance.Accounts.{moved, cover_need-Lowers, cover_need-drains, cover_need-met}

-- What a need asks for: nothing, where its shortfall is negative.
abbrev pub asked : Need → ℤ
asked need = if leb_ℤ (pos 0) need.shortfall.milliunits then need.shortfall.milliunits else pos 0

unfoldable pub wanted : List Need → ℤ
wanted [] = pos 0
wanted (need ∷ needs) = asked need +ℤ wanted needs

unfoldable pub owed : List Need → ℤ
owed [] = pos 0
owed (need ∷ needs) = need.shortfall.milliunits +ℤ owed needs

owed-last :
    (needs : List Need) (need : Need)
    → owed (needs ++ need ∷ []) ≡ owed needs +ℤ need.shortfall.milliunits
unfolding owed
owed-last [] need = +ℤ_comm need.shortfall.milliunits (pos 0)
owed-last (n ∷ needs) need =
    ap (λ t. n.shortfall.milliunits +ℤ t) (owed-last needs need)
    ∙ sym (+ℤ_assoc n.shortfall.milliunits (owed needs) need.shortfall.milliunits)

owed-close :
    (uncovered : List Need) (category : CategoryId) (shortfall : Money)
    → owed (
        if Money.lt zero_money shortfall
        then uncovered ++ record { category = category; shortfall = shortfall } ∷ []
        else uncovered)
      ≡ (if ltb_ℤ (pos 0) shortfall.milliunits
          then owed uncovered +ℤ shortfall.milliunits
          else owed uncovered)
unfolding Money.lt
owed-close uncovered category shortfall = elim (Bool-cases (ltb_ℤ (pos 0) shortfall.milliunits)) [
  | inl e ↦ rw e (owed-last uncovered (record { category = category; shortfall = shortfall }))
  | inr e ↦ rw e refl
]

regroup : (m o s : ℤ) → m +ℤ (o +ℤ s) ≡ m +ℤ s +ℤ o
regroup m o s = omega int_laws

shift : (m o s : ℤ) → m +ℤ s +ℤ o ≡ m +ℤ o +ℤ s
shift m o s = omega int_laws

-- What was still short is owed, and the rest was moved.
settle :
    (m' s' m s o : ℤ)
    → m' +ℤ s' ≡ m +ℤ s
    → pos 0 ≤ℤ s'
    → m' +ℤ (if ltb_ℤ (pos 0) s' then o +ℤ s' else o) ≡ m +ℤ o +ℤ s
settle m' s' m s o e h = elim (Bool-cases (ltb_ℤ (pos 0) s')) [
  | inl more ↦ rw more (regroup m' o s' ∙ ap (λ t. t +ℤ o) e ∙ shift m o s)
  | inr done ↦
      let zero : s' ≡ pos 0 = eq_of_parts s' (pos 0) (ground arith) in
      let paid : m' ≡ m +ℤ s = sym (+ℤ-zero m') ∙ ap (λ t. m' +ℤ t) (sym zero) ∙ e in
      rw done (ap (λ t. t +ℤ o) paid ∙ shift m o s)
]

unsettled :
    (s m o : ℤ)
    → leb_ℤ (pos 0) s ≡ false
    → m +ℤ (if ltb_ℤ (pos 0) s then o +ℤ s else o) ≡ m +ℤ o +ℤ pos 0
unsettled s m o e =
    let below : ltb_ℤ (pos 0) s ≡ false = ground arith in rw below (sym (+ℤ-zero (m +ℤ o)))

met_of :
    (shortfall : Money)
    → leb_ℤ (pos 0) shortfall.milliunits ≡ false
    → Money.le shortfall zero_money ≡ true
unfolding Money.le
met_of shortfall e = ground arith

lt-money : (m : Money) → Money.lt zero_money m ≡ true → pos 0 <ℤ m.milliunits
unfolding Money.lt
lt-money m e = ground arith

all_gone : (start left gone : ℤ) → gone +ℤ left ≡ start → left ≤ℤ pos 0 → start ≤ℤ gone
all_gone start left gone e h = rw (← e) (omega (arith, +ℤ_parts gone left))

start_balances : (w : ℤ) → moved [] +ℤ owed [] +ℤ w ≡ w
unfolding moved owed
start_balances w = omega int_laws

module _ (ceiling : Money) (ordered : List Source) where
  -- One need, covered and closed.
  abbrev closed : Need → Planning → Planning
  closed need p =
      close_need need.category
        (cover_need ceiling need.category ordered
          (record { pool = p.pool; shortfall = need.shortfall }))
        p.uncovered

  closed-balances :
      (need : Need) (p : Planning)
      → moved (closed need p).pool.moves +ℤ owed (closed need p).uncovered
        ≡ moved p.pool.moves +ℤ owed p.uncovered +ℤ asked need
  unfolding close_need
  closed-balances need p =
      let d : Drawing = record { pool = p.pool; shortfall = need.shortfall } in
      let after = cover_need ceiling need.category ordered d in
      let low = cover_need-Lowers ceiling need.category ordered d in
      elim (Bool-cases (leb_ℤ (pos 0) need.shortfall.milliunits)) [
        | inl short ↦ rw short (
            ap (λ t. moved after.pool.moves +ℤ t)
              (owed-close p.uncovered need.category after.shortfall)
            ∙ settle (moved after.pool.moves) after.shortfall.milliunits (moved p.pool.moves)
                need.shortfall.milliunits (owed p.uncovered) low.balance
                (low.unpaid (ground arith)))
        | inr over ↦
            rw (over, cover_need-met ceiling need.category ordered d (met_of need.shortfall over))
              (ap (λ t. moved p.pool.moves +ℤ t)
                  (owed-close p.uncovered need.category need.shortfall)
                ∙ unsettled need.shortfall.milliunits (moved p.pool.moves) (owed p.uncovered) over)
      ]

  plan_needs-balances :
      (needs : List Need) (p : Planning)
      → let after = plan_needs ceiling ordered needs p in
        moved after.pool.moves +ℤ owed after.uncovered
        ≡ moved p.pool.moves +ℤ owed p.uncovered +ℤ wanted needs
  unfolding plan_needs wanted
  plan_needs-balances [] p = sym (+ℤ-zero _)
  plan_needs-balances (need ∷ needs) p =
      plan_needs-balances needs (closed need p)
      ∙ ap (λ t. t +ℤ wanted needs) (closed-balances need p)
      ∙ +ℤ_assoc (moved p.pool.moves +ℤ owed p.uncovered) (asked need) (wanted needs)

  -- Either every need so far was covered, or nothing is left to take.
  abbrev Exhausts : Planning → Type 0
  Exhausts p =
      (p.uncovered ≡ []) ⊎ All (λ s. (p.pool.remaining s.category).milliunits ≤ℤ pos 0) ordered

  closed-Exhausts :
      (need : Need) (p : Planning)
      → pos 0 <ℤ ceiling.milliunits
      → Exhausts p
      → Exhausts (closed need p)
  unfolding close_need
  closed-Exhausts need p c h =
      let d : Drawing = record { pool = p.pool; shortfall = need.shortfall } in
      let after = cover_need ceiling need.category ordered d in
      let low = cover_need-Lowers ceiling need.category ordered d in
      elim (Bool-cases (Money.lt zero_money after.shortfall)) [
        | inl short ↦
            inr
              (cover_need-drains ceiling need.category ordered d c (lt-money after.shortfall short))
        | inr paid ↦ rw paid (elim h [
          | inl none_yet ↦ inl none_yet
          | inr drained ↦ inr (
              All-imp (λ s. (p.pool.remaining s.category).milliunits ≤ℤ pos 0)
                (λ s. (after.pool.remaining s.category).milliunits ≤ℤ pos 0)
                (λ s e. omega (arith, low.remaining s.category)) ordered drained)
        ])
      ]

  plan_needs-Exhausts :
      (needs : List Need) (p : Planning)
      → pos 0 <ℤ ceiling.milliunits
      → Exhausts p
      → Exhausts (plan_needs ceiling ordered needs p)
  unfolding plan_needs
  plan_needs-Exhausts [] p c h = h
  plan_needs-Exhausts (need ∷ needs) p c h =
      plan_needs-Exhausts needs (closed need p) c (closed-Exhausts need p c h)

-- The planner's books balance: what its moves bring, together with what it reports as uncovered,
-- is what the needs ask for.
pub plan_coverage_balances :
    (needs : List Need) (sources : List Source) (ceiling : Money)
    → let plan = plan_coverage needs sources ceiling in
      moved plan.moves +ℤ owed plan.uncovered ≡ wanted needs
unfolding plan_coverage
plan_coverage_balances needs sources ceiling =
    plan_needs-balances ceiling (sorted_by compare_sources sources) needs
      (record { pool = start_pool sources; uncovered = [] })
    ∙ start_balances (wanted needs)

-- A need is left uncovered only where there is no more to take: with a positive ceiling, the plan
-- then pulls out of every source all that it can spare.
pub uncovered_when_drained :
    (needs : List Need) (sources : List Source) (ceiling : Money)
    → pos 0 <ℤ ceiling.milliunits
    → let plan = plan_coverage needs sources ceiling in
      plan.uncovered ≢ []
      → All
          (λ s. (amounts_of drawable sources s.category).milliunits ≤ℤ pulled s.category plan.moves)
          sources
unfolding plan_coverage
uncovered_when_drained needs sources ceiling c u =
    let ordered = sorted_by compare_sources sources in
    let start : Planning = record { pool = start_pool sources; uncovered = [] } in
    let sound = plan_coverage-IsSoundPool needs sources ceiling in
    let end = plan_needs ceiling ordered needs start in
    elim (plan_needs-Exhausts ceiling ordered needs start c (inl refl)) [
      | inl none_open ↦ absurd (u none_open)
      | inr drained ↦
          All-sorted_by
            (λ s.
              (amounts_of drawable sources s.category).milliunits
              ≤ℤ pulled s.category end.pool.moves)
            compare_sources sources
            (All-imp (λ s. (end.pool.remaining s.category).milliunits ≤ℤ pos 0)
              (λ s.
                (amounts_of drawable sources s.category).milliunits
                ≤ℤ pulled s.category end.pool.moves)
              (λ s e. all_gone _ _ _ (sound.1 s.category).books e) ordered drained)
    ]
