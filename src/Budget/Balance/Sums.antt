-- ===== src/Budget/Balance/Sums.antt =====
-- Dictionaries of amounts that a loop fills, with their entries in the order of insertion.
use ynab_agent.Common.{
  ◌≡◌, ◌≢◌, ◌∙◌, String-discrete, List, [], ◌∷◌, inl, inr, test, All, All-both, if◌then◌else◌,
  Bool-cases, arith,
}
use mathlib.Core.Path.{subst}
use ynab_agent.Domain.Ids.{CategoryId}
use ynab_agent.Domain.Money.{Money, zero_money}

pub record Entry : Type 0 where
  pub key : CategoryId
  pub amount : Money

-- `sums[key] = f(sums.get(key, zero))`: an entry that is there keeps its place, a new one comes
-- last.
unfoldable pub update : CategoryId → (Money → Money) → List Entry → List Entry
update key f [] = record { key = key; amount = f zero_money } ∷ []
update key f (entry ∷ entries) =
    let rest = update key f entries in
    if test (String-discrete key entry.key)
    then record entry { amount = f entry.amount } ∷ entries
    else entry ∷ rest

-- `sums.get(key, zero)`
unfoldable pub amount_at : CategoryId → List Entry → Money
amount_at key [] = zero_money
amount_at key (entry ∷ entries) =
    let rest = amount_at key entries in
    if test (String-discrete key entry.key) then entry.amount else rest

pub amount_at-update :
    (c key : CategoryId) (f : Money → Money) (entries : List Entry)
    → amount_at c (update key f entries)
      ≡ (if test (String-discrete c key) then f (amount_at c entries) else amount_at c entries)
unfolding amount_at update
amount_at-update c key f [] = ground arith
amount_at-update c key f (entry ∷ entries) = ground (arith, amount_at-update c key f entries)

-- The keys after an update are those before it and the new one.
module _ {ℓ} (Q : CategoryId → Type ℓ) where
  abbrev pub Keys : List Entry → Type ℓ
  Keys entries = All (λ entry. Q entry.key) entries

  pub Keys-update :
      (key : CategoryId) (f : Money → Money) (entries : List Entry)
      → Keys entries
      → Q key
      → Keys (update key f entries)
  unfolding update
  Keys-update key f [] k q = (q, tt)
  Keys-update key f (entry ∷ entries) k q =
      elim (Bool-cases (test (String-discrete key entry.key))) [
        | inl same ↦ rw same k
        | inr other ↦ rw other (k.0, Keys-update key f entries k.1 q)
      ]

  pub update-Keys :
      (key : CategoryId) (f : Money → Money) (entries : List Entry)
      → Keys (update key f entries)
      → Keys entries × Q key
  unfolding update
  update-Keys key f [] k = (tt, k.0)
  update-Keys key f (entry ∷ entries) k = elim (Bool-cases (test (String-discrete key entry.key))) [
    | inl same ↦
        let found = rw same at k in
        let e : entry.key ≡ key = ground arith in (found, subst Q e found.0)
    | inr other ↦
        let found = rw other at k in
        let rest = update-Keys key f entries found.1 in ((found.0, rest.0), rest.1)
  ]

-- No key twice.
abbrev pub Distinct : List Entry → Type 0
Distinct [] = Unit
Distinct (entry ∷ entries) = Keys (λ c. c ≢ entry.key) entries × Distinct entries

pub Distinct-update :
    (key : CategoryId) (f : Money → Money) (entries : List Entry)
    → Distinct entries
    → Distinct (update key f entries)
unfolding update
Distinct-update key f [] d = (tt, tt)
Distinct-update key f (entry ∷ entries) d =
    elim (Bool-cases (test (String-discrete key entry.key))) [
      | inl same ↦ rw same d
      | inr other ↦
          let differs : key ≢ entry.key = λ e. ground arith in
          rw other (
            Keys-update (λ c. c ≢ entry.key) key f entries d.0 differs,
            Distinct-update key f entries d.1,
          )
    ]

pub amount_at-later :
    (c : CategoryId) (entry : Entry) (entries : List Entry)
    → c ≢ entry.key
    → amount_at c (entry ∷ entries) ≡ amount_at c entries
unfolding amount_at
amount_at-later c entry entries n = ground arith

pub amount_at-first :
    (entry : Entry) (entries : List Entry) → amount_at entry.key (entry ∷ entries) ≡ entry.amount
unfolding amount_at
amount_at-first entry entries = ground arith

-- Where no key is twice, an entry holds the amount under its key.
pub Distinct-amounts :
    (entries : List Entry)
    → Distinct entries
    → All (λ entry. amount_at entry.key entries ≡ entry.amount) entries
Distinct-amounts [] d = tt
Distinct-amounts (entry ∷ entries) d = (
  amount_at-first entry entries,
  All-both (λ e. e.key ≢ entry.key) (λ e. amount_at e.key entries ≡ e.amount)
      (λ e. amount_at e.key (entry ∷ entries) ≡ e.amount)
      (λ e n h. amount_at-later e.key entry entries n ∙ h) entries d.0
      (Distinct-amounts entries d.1),
)
