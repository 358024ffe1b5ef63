-- ===== src/Domain/Ids.antt =====
-- domain/ids.py: branded texts; and the clock. A `datetime` and a `timedelta` are whole numbers of
-- microseconds, so that sums, differences and comparisons are those of the integers; a `date` is
-- its ordinal. The range limits of `datetime` (years 1 to 9999) are not modelled.
use ynab_agent.Common.{ℕ, String}
use ynab_agent.Common.Int.{ℤ}

abbrev pub YnabTransactionId : Type 0
YnabTransactionId = String

abbrev pub AccountId : Type 0
AccountId = String

abbrev pub CategoryId : Type 0
CategoryId = String

abbrev pub PayeeId : Type 0
PayeeId = String

abbrev pub ImportId : Type 0
ImportId = String

abbrev pub ThreadId : Type 0
ThreadId = String

abbrev pub ReceiptId : Type 0
ReceiptId = String

abbrev pub RuleId : Type 0
RuleId = String

abbrev pub MessageId : Type 0
MessageId = String

abbrev pub PersonTag : Type 0
PersonTag = String

abbrev pub Datetime : Type 0
Datetime = ℤ

abbrev pub Timedelta : Type 0
Timedelta = ℤ

abbrev pub Date : Type 0
Date = ℕ
