-- ===== src/Ingest.antt =====
-- ingest/scope.py and ingest/plan.py: which polled transactions are addressed, and how. `str.lower`
-- and `str.strip`, whose tables no file of the repository holds, are parameters.
use text.Mathlib.Text.{◌==◌ as str_eq}
use ynab_agent.Common.{
  String, Bool, true, false, not, ◌&&◌, Option, none, some, List, [], ◌∷◌, ltb, any, if◌then◌else◌,
}
use ynab_agent.Common.Text.{is_in}
use ynab_agent.Domain.Ids.{AccountId, Date}
use ynab_agent.Domain.Transaction.{YnabSnapshot, is_matched_import}

pub record AddressTxn : Type 0 where
  pub snapshot : YnabSnapshot
  pub route_to_human : Bool
  pub notify_existing : Bool

pub record IngestScope : Type 0 where
  pub budget_id : String
  pub install_date : Date
  pub account_ids : Option (List AccountId)

-- `scope.account_ids is None or account in scope.account_ids`
unfoldable pub is_listed : AccountId → Option (List AccountId) → Bool
unfolding any
is_listed account none = true
is_listed account (some ids) = any (str_eq account) ids

-- `in_scope`
unfoldable pub in_scope : YnabSnapshot → IngestScope → Bool
unfolding is_listed
in_scope snapshot scope =
    if ltb snapshot.txn_date scope.install_date
    then false
    else is_listed snapshot.account scope.account_ids

-- `is_duplicate_import`
abbrev pub is_duplicate_import : YnabSnapshot → Bool
is_duplicate_import snapshot = is_matched_import snapshot

module _ (lower strip : String → String) where
  -- `is_amazon`
  unfoldable pub is_amazon : String → Bool
  unfolding is_in
  is_amazon payee = is_in "amazon" (lower payee)

  -- `bool(memo and memo.strip())`
  unfoldable pub is_written : Option String → Bool
  is_written none = false
  is_written (some memo) = not (str_eq memo "") && not (str_eq (strip memo) "")

  -- `YnabSnapshot.has_memo`
  unfoldable pub has_memo : YnabSnapshot → Bool
  unfolding is_written
  has_memo snapshot = is_written snapshot.memo

  -- `memo_backfilled`
  unfoldable pub memo_backfilled : YnabSnapshot → Bool
  unfolding is_amazon has_memo
  memo_backfilled snapshot = is_amazon snapshot.payee && has_memo snapshot

  unfoldable pub address : YnabSnapshot → AddressTxn
  unfolding memo_backfilled
  address snap = record {
    snapshot = snap;
    route_to_human = is_duplicate_import snap;
    notify_existing = memo_backfilled snap;
  }

  -- The comprehension of `plan_ingest`.
  unfoldable pub addressed : List YnabSnapshot → IngestScope → List AddressTxn
  unfolding address in_scope
  addressed [] scope = []
  addressed (snap ∷ snaps) scope =
      let rest = addressed snaps scope in
      if in_scope snap scope && not snap.approved then address snap ∷ rest else rest

  -- `plan_ingest`
  unfoldable pub plan_ingest : List YnabSnapshot → IngestScope → Bool → List AddressTxn
  unfolding addressed
  plan_ingest snapshots scope true = []
  plan_ingest snapshots scope false = addressed snapshots scope
