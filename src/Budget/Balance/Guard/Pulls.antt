-- ===== src/Budget/Balance/Guard/Pulls.antt =====
-- What the guards' sums by source say of the moves themselves.
use ynab_agent.Common.{
  ◌≡◌, refl, sym, ap, ◌∙◌, String-discrete, Bool, true, false, List, [], ◌∷◌, test, All,
  if◌then◌else◌, arith,
}
use ynab_agent.Common.Int.{ℤ, ◌+ℤ◌, +ℤ_assoc, +ℤ-zero}
use ynab_agent.Domain.Ids.{CategoryId}
use ynab_agent.Domain.Money
use ynab_agent.Domain.Money.{Money}
use ynab_agent.Budget.Balance.{BudgetMove}
use ynab_agent.Budget.Balance.Sums.{
  Entry, update, amount_at, amount_at-update, Keys, Keys-update, update-Keys, Distinct,
  Distinct-update,
}
use ynab_agent.Budget.Balance.Pool.{pulled}
use ynab_agent.Budget.Balance.Guard.{add_to, pulled_from}

abbrev pub drawn : CategoryId → List Entry → ℤ
drawn c entries = (amount_at c entries).milliunits

drawn-pull :
    (c source : CategoryId) (amount : Money) (entries : List Entry)
    → drawn c (update source (add_to amount) entries) ≡ (
        if test (String-discrete c source)
        then drawn c entries +ℤ amount.milliunits
        else drawn c entries)
unfolding Money.add
drawn-pull c source amount entries =
    ground (arith, amount_at-update c source (add_to amount) entries)

if_plus : (b : Bool) (d a r : ℤ) → (if b then d +ℤ a else d) +ℤ r ≡ d +ℤ (if b then a +ℤ r else r)
if_plus true d a r = +ℤ_assoc d a r
if_plus false d a r = refl

pub drawn-pulled_from :
    (c : CategoryId) (moves : List BudgetMove) (entries : List Entry)
    → drawn c (pulled_from entries moves) ≡ drawn c entries +ℤ pulled c moves
unfolding pulled_from pulled
drawn-pulled_from c [] entries = sym (+ℤ-zero (drawn c entries))
drawn-pulled_from c (move ∷ moves) entries =
    drawn-pulled_from c moves (update move.source (add_to move.amount) entries)
    ∙ ap (λ t. t +ℤ pulled c moves) (drawn-pull c move.source move.amount entries)
    ∙ if_plus (test (String-discrete c move.source)) (drawn c entries) move.amount.milliunits
        (pulled c moves)

module _ {ℓ} (Q : CategoryId → Type ℓ) where
  pub Keys-pulled_from :
      (moves : List BudgetMove) (entries : List Entry)
      → Keys Q entries
      → All (λ move. Q move.source) moves
      → Keys Q (pulled_from entries moves)
  unfolding pulled_from
  Keys-pulled_from [] entries k q = k
  Keys-pulled_from (move ∷ moves) entries k q =
      Keys-pulled_from moves _ (Keys-update Q move.source (add_to move.amount) entries k q.0) q.1

  pub pulled_from-Keys :
      (moves : List BudgetMove) (entries : List Entry)
      → Keys Q (pulled_from entries moves)
      → Keys Q entries × All (λ move. Q move.source) moves
  unfolding pulled_from
  pulled_from-Keys [] entries k = (k, tt)
  pulled_from-Keys (move ∷ moves) entries k =
      let later = pulled_from-Keys moves (update move.source (add_to move.amount) entries) k in
      let first = update-Keys Q move.source (add_to move.amount) entries later.0 in
      (first.0, (first.1, later.1))

pub Distinct-pulled_from :
    (moves : List BudgetMove) (entries : List Entry)
    → Distinct entries
    → Distinct (pulled_from entries moves)
unfolding pulled_from
Distinct-pulled_from [] entries d = d
Distinct-pulled_from (move ∷ moves) entries d =
    Distinct-pulled_from moves _ (Distinct-update move.source (add_to move.amount) entries d)
