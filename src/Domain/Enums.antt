-- ===== src/Domain/Enums.antt =====
-- domain/enums.py: the closed vocabularies. A member keeps its Python value as its name, but
-- `opened` stands for OPEN, whose value is a reserved word here.
pub data TxnState : Type 0 where
  discovered hold_amazon enriching auto_applied awaiting_human applied : TxnState
  opened lapsed revising archived : TxnState

pub data TrustState : Type 0 where
  suggested confirmed trusted : TrustState

pub data Confidence : Type 0 where
  high medium low : Confidence

pub data DecidedBy : Type 0 where
  human agent : DecidedBy

pub data SourceKind : Type 0 where
  rule ynab_history receipt model web_search : SourceKind

pub data RuleSource : Type 0 where
  human_explicit learned : RuleSource

pub data ReceiptStatus : Type 0 where
  parked matched asked expired : ReceiptStatus

pub data ClearedState : Type 0 where
  uncleared cleared reconciled : ClearedState

pub data FlagColor : Type 0 where
  red orange yellow green blue purple : FlagColor

pub data RevisingOrigin : Type 0 where
  applied lapsed : RevisingOrigin

pub data AwaitingFlag : Type 0 where
  none possibly_inconsistent diverged : AwaitingFlag
