-- ===== src/Join/Once.antt =====
-- Act once, ask once: what any series of runs does about one receipt.
use ynab_agent.Common.{
  ℕ, ◌+◌, ◌≤◌, ◌≡◌, refl, Bool, true, false, List, [], ◌∷◌, Result, raise, ok, ◌>>=◌, count, arith,
}
use mathlib.Core.Path.{subst}
use ynab_agent.Domain.Ids.{Datetime, Timedelta}
use ynab_agent.Domain.Enums.{ReceiptStatus, parked, asked}
use ynab_agent.Domain.Signal.{Receipt}
use ynab_agent.Join.{
  MatchOutcome, JoinAction, signal_transaction, ask_disambiguation, ask_no_match, park, do_nothing,
  plan_join, after_action, resulting_status,
}

abbrev pub is_signal : JoinAction → Bool
is_signal (signal_transaction _ _) = true
is_signal _ = false

abbrev pub is_question : JoinAction → Bool
is_question (ask_disambiguation _ _) = true
is_question _ = false

-- The note that no transaction was found.
abbrev pub is_closure : JoinAction → Bool
is_closure (ask_no_match _) = true
is_closure _ = false

-- The actions of a series of runs over one receipt, each with its verdict and time.
unfoldable pub joins :
    Timedelta → Receipt → List (MatchOutcome × Datetime) → Result (List JoinAction)
joins ttl receipt [] = ok []
joins ttl receipt ((outcome, now) ∷ runs) = do
  action ← plan_join receipt outcome now ttl
  rest ← joins ttl (after_action receipt action) runs
  ok (action ∷ rest)

-- What is left to do in a status: signals and closures together, and questions.
abbrev settlements_left : ReceiptStatus → ℕ
settlements_left parked = 1
settlements_left asked = 1
settlements_left _ = 0

abbrev questions_left : ReceiptStatus → ℕ
questions_left parked = 1
questions_left _ = 0

abbrev one_settlement : JoinAction → ℕ
one_settlement (signal_transaction _ _) = 1
one_settlement (ask_no_match _) = 1
one_settlement _ = 0

abbrev one_question : JoinAction → ℕ
one_question (ask_disambiguation _ _) = 1
one_question _ = 0

-- One run spends what it does.
spends :
    (ttl : Timedelta) (receipt : Receipt) (outcome : MatchOutcome) (now : Datetime)
    (action : JoinAction)
    → plan_join receipt outcome now ttl ≡ ok action
    → (one_settlement action + settlements_left (after_action receipt action).status
        ≤ settlements_left receipt.status)
      × (one_question action + questions_left (after_action receipt action).status
          ≤ questions_left receipt.status)
unfolding plan_join after_action resulting_status
spends ttl receipt outcome now action h = ground arith

-- The rest of a series, from the rest of its runs.
then_rest : JoinAction → Result (List JoinAction) → Result (List JoinAction)
then_rest action rest = do actions ← rest; ok (action ∷ actions)

first_rest :
    (action : JoinAction) (later : JoinAction → Result (List JoinAction))
    (found : Result (List JoinAction)) {actions : List JoinAction}
    → later action ≡ found
    → then_rest action found ≡ ok actions
    → (a : JoinAction) × (rest : List JoinAction) × (ok action ≡ ok a)
      × (later a ≡ ok rest)
      × (a ∷ rest ≡ actions)
unfolding then_rest
first_rest action later (raise _) e h = cc
first_rest action later (ok rest) e h = (action, rest, refl, e, cc)

first_action :
    (planned : Result JoinAction) (later : JoinAction → Result (List JoinAction))
    {actions : List JoinAction}
    → planned >>= (λ action. then_rest action (later action)) ≡ ok actions
    → (action : JoinAction) × (rest : List JoinAction) × (planned ≡ ok action)
      × (later action ≡ ok rest)
      × (action ∷ rest ≡ actions)
unfolding then_rest
first_action (raise _) later h = cc
first_action (ok action) later h = first_rest action later (later action) refl h

abbrev Within : ReceiptStatus → List JoinAction → Type 0
Within status actions =
    (count is_signal actions + count is_closure actions ≤ settlements_left status)
    × (count is_question actions ≤ questions_left status)

Within-cons :
    (status next : ReceiptStatus) (action : JoinAction) (rest : List JoinAction)
    → one_settlement action + settlements_left next ≤ settlements_left status
    → one_question action + questions_left next ≤ questions_left status
    → Within next rest
    → Within status (action ∷ rest)
unfolding count
Within-cons status next (signal_transaction _ _) rest s q w = ground arith
Within-cons status next (ask_disambiguation _ _) rest s q w = ground arith
Within-cons status next (ask_no_match _) rest s q w = ground arith
Within-cons status next (park _) rest s q w = ground arith
Within-cons status next (do_nothing _) rest s q w = ground arith

-- The settlements and the questions of a series are within what is left.
joins-Within :
    (ttl : Timedelta) (runs : List (MatchOutcome × Datetime)) (receipt : Receipt)
    {actions : List JoinAction}
    → joins ttl receipt runs ≡ ok actions
    → Within receipt.status actions
unfolding joins then_rest count
joins-Within ttl [] receipt h = ground arith
joins-Within ttl ((outcome, now) ∷ runs) receipt h =
    let (action, rest, planned, later, e) =
      first_action (plan_join receipt outcome now ttl)
        (λ action. joins ttl (after_action receipt action) runs) h in
    let (s, q) = spends ttl receipt outcome now action planned in
    subst (Within receipt.status) e (
      Within-cons receipt.status (after_action receipt action).status action rest s q
        (joins-Within ttl runs (after_action receipt action) later))

-- However often a receipt is matched again, it is settled at most once, by a signal to one
-- transaction or by the note that none was found, and its owner is asked at most once.
pub joins_once :
    (ttl : Timedelta) (receipt : Receipt) (runs : List (MatchOutcome × Datetime))
    {actions : List JoinAction}
    → joins ttl receipt runs ≡ ok actions
    → (count is_signal actions + count is_closure actions ≤ 1) × (count is_question actions ≤ 1)
joins_once ttl receipt runs h = ground (arith, joins-Within ttl runs receipt h)
