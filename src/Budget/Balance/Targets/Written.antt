-- ===== src/Budget/Balance/Targets/Written.antt =====
-- What `move_targets` writes, from the changes of each category.
use ynab_agent.Common.{
  ◌≡◌, ◌≢◌, refl, sym, ap, ◌∙◌, String-discrete, true, false, Option, none, some, List, [], ◌∷◌, ok,
  inl, inr, test, if◌then◌else◌, Bool-cases, Option-cases, arith,
}
use mathlib.Core.Option
use mathlib.Core.Path.{subst}
use ynab_agent.Domain.Ids.{CategoryId}
use ynab_agent.Domain.Money
use ynab_agent.Domain.Money.{Money, zero_money, from_milliunits}
use ynab_agent.Budget.Balance.Sums.{Entry, amount_at, Keys, Distinct}
use ynab_agent.Budget.Balance.Guard.{Mapping}
use ynab_agent.Budget.Balance.Targets.{target_entry, targets_from}

-- What a dictionary holds under a key.
unfoldable pub find_entry : CategoryId → List Entry → Option Money
find_entry c [] = none
find_entry c (entry ∷ entries) =
    let rest = find_entry c entries in
    if test (String-discrete c entry.key) then some entry.amount else rest

-- The value to write: none where nothing changes.
abbrev pub target_for : Option Money → Money → Option Money
target_for budgeted change =
    if Money.is_zero change then none else Option.map (λ b. Money.add b change) budgeted

-- What the comprehension returns: the value to write under every key.
pub record Written (current : Mapping) (entries : List Entry) : Type 0 where
  pub targets : List Entry
  pub returned : targets_from current entries ≡ ok targets
  pub values :
      (c : CategoryId) → find_entry c targets ≡ target_for (current c) (amount_at c entries)

absent_zero :
    (c : CategoryId) (entries : List Entry)
    → Keys (λ key. key ≢ c) entries
    → amount_at c entries ≡ zero_money
unfolding amount_at
absent_zero c [] k = refl
absent_zero c (entry ∷ entries) k = ground (arith, absent_zero c entries k.1)

target_for-zero :
    (budgeted : Option Money) (change : Money)
    → Money.is_zero change ≡ true
    → target_for budgeted change ≡ none
target_for-zero budgeted change z = rw z refl

is_zero-zero : Money.is_zero zero_money ≡ true
unfolding Money.is_zero
is_zero-zero = ground arith

at-same :
    (c : CategoryId) (entry : Entry) (entries : List Entry)
    → test (String-discrete c entry.key) ≡ true
    → amount_at c (entry ∷ entries) ≡ entry.amount
unfolding amount_at
at-same c entry entries e = rw e refl

at-other :
    (c : CategoryId) (entry : Entry) (entries : List Entry)
    → test (String-discrete c entry.key) ≡ false
    → amount_at c (entry ∷ entries) ≡ amount_at c entries
unfolding amount_at
at-other c entry entries e = rw e refl

key-same : (c key : CategoryId) → test (String-discrete c key) ≡ true → key ≡ c
key-same c key e = ground arith

module _ (current : Mapping) (entry : Entry) (entries : List Entry)
    (absent : Keys (λ key. key ≢ entry.key) entries) (rest : Written current entries) where
  values-dropped :
      Money.is_zero entry.amount ≡ true
      → (c : CategoryId)
      → find_entry c rest.targets ≡ target_for (current c) (amount_at c (entry ∷ entries))
  values-dropped z c = elim (Bool-cases (test (String-discrete c entry.key))) [
    | inl same ↦
        rest.values c
        ∙ ap (target_for (current c)) (
            absent_zero c entries
              (subst (λ k. Keys (λ key. key ≢ k) entries) (key-same c entry.key same) absent))
        ∙ target_for-zero (current c) zero_money is_zero-zero
        ∙ sym (
            target_for-zero (current c) (amount_at c (entry ∷ entries))
              (rw (at-same c entry entries same) z))
    | inr other ↦ rest.values c ∙ ap (target_for (current c)) (sym (at-other c entry entries other))
  ]

  values-kept :
      (budgeted : Money)
      → Money.is_zero entry.amount ≡ false
      → current entry.key ≡ some budgeted
      → (c : CategoryId)
      → find_entry c (target_entry entry rest.targets budgeted)
        ≡ target_for (current c) (amount_at c (entry ∷ entries))
  unfolding find_entry
  values-kept budgeted z known c = elim (Bool-cases (test (String-discrete c entry.key))) [
    | inl same ↦
        let found : current c ≡ some budgeted =
          ap current (sym (key-same c entry.key same)) ∙ known in
        rw (same, at-same c entry entries same, z, found) refl
    | inr other ↦ rw (other, at-other c entry entries other) (rest.values c)
  ]

  Written-step : current entry.key ≢ none → Written current (entry ∷ entries)
  unfolding targets_from
  Written-step known = elim (Bool-cases (Money.is_zero entry.amount)) [
    | inl z ↦ record {
      targets = rest.targets;
      returned = rw z rest.returned;
      values = values-dropped z;
    }
    | inr n ↦ elim (Option-cases (current entry.key)) [
      | inl missing ↦ absurd (known missing)
      | inr (budgeted, found) ↦ record {
        targets = target_entry entry rest.targets budgeted;
        returned = rw (n, found, rest.returned) refl;
        values = values-kept budgeted n found;
      }
    ]
  ]

pub Written-all :
    (current : Mapping) (entries : List Entry)
    → Distinct entries
    → Keys (λ key. current key ≢ none) entries
    → Written current entries
unfolding targets_from find_entry amount_at
Written-all current [] d k = record {
  targets = [];
  returned = refl;
  values = λ c. sym (target_for-zero (current c) zero_money is_zero-zero);
}
Written-all current (entry ∷ entries) d k =
    Written-step current entry entries d.0 (Written-all current entries d.1 k.1) k.0
