-- ===== src/Domain/Money.antt =====
-- domain/money.py: an amount is a whole number of milliunits.
use ynab_agent.Common.{Bool, test}
use ynab_agent.Common.Int.{ℤ, pos, ◌+ℤ◌, ◌-ℤ◌, abs, neg, ltb_ℤ, leb_ℤ, ℤ-discrete}

pub record Money : Type 0 where
  pub milliunits : ℤ

pub Money-discrete : Discrete Money
Money-discrete = hlevel ℤ-discrete

abbrev pub from_milliunits : ℤ → Money
from_milliunits n = record { milliunits = n }

abbrev pub zero_money : Money
zero_money = from_milliunits (pos 0)

unfoldable pub add : Money → Money → Money
add a b = from_milliunits (a.milliunits +ℤ b.milliunits)

unfoldable pub sub : Money → Money → Money
sub a b = from_milliunits (a.milliunits -ℤ b.milliunits)

unfoldable pub negate : Money → Money
negate a = from_milliunits (neg a.milliunits)

unfoldable pub magnitude : Money → Money
magnitude a = from_milliunits (abs a.milliunits)

unfoldable pub is_zero : Money → Bool
is_zero a = test (ℤ-discrete a.milliunits (pos 0))

unfoldable pub is_outflow : Money → Bool
is_outflow a = ltb_ℤ a.milliunits (pos 0)

unfoldable pub lt : Money → Money → Bool
lt a b = ltb_ℤ a.milliunits b.milliunits

unfoldable pub le : Money → Money → Bool
le a b = leb_ℤ a.milliunits b.milliunits
