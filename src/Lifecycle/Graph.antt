-- ===== src/Lifecycle/Graph.antt =====
-- The lifecycle's diagram, and that `advance` follows it.
use ynab_agent.Common.{◌≡◌, ◌≢◌, Bool, true, false, [], ok, arith}
use ynab_agent.Domain.Ids.{Datetime}
use ynab_agent.Domain.Enums.{
  TxnState, discovered, hold_amazon, enriching, auto_applied, awaiting_human, applied, opened,
  lapsed, revising, archived,
}
use ynab_agent.Domain.Transaction.{Transaction}
use ynab_agent.Domain.Event.{LifecycleEvent}
use ynab_agent.Lifecycle.{advance}
use ynab_agent.Lifecycle.Values.{LifecyclePolicy, Transition, advanced, state}

infix 40 ◌⟶◌
pub data ◌⟶◌ : TxnState → TxnState → Type 0 where
  buffer : discovered ⟶ discovered
  hold : discovered ⟶ hold_amazon
  materialize : discovered ⟶ enriching
  release : hold_amazon ⟶ enriching
  refeed_enriching : enriching ⟶ enriching
  grant : enriching ⟶ auto_applied
  ask : enriching ⟶ awaiting_human
  verify_auto : auto_applied ⟶ opened
  flag_auto : auto_applied ⟶ awaiting_human
  answer : awaiting_human ⟶ applied
  volley : awaiting_human ⟶ awaiting_human
  hand_off : awaiting_human ⟶ lapsed
  verify_answer : applied ⟶ opened
  flag_answer : applied ⟶ awaiting_human
  reopen : opened ⟶ revising
  adopt : opened ⟶ opened
  close : opened ⟶ archived
  revive : lapsed ⟶ revising
  warn : lapsed ⟶ lapsed
  close_lapsed : lapsed ⟶ archived
  retarget : revising ⟶ revising
  reapply_revision : revising ⟶ opened
  ask_revision : revising ⟶ awaiting_human

ruleset edges = (
  buffer, hold, materialize, release, refeed_enriching, grant, ask, verify_auto, flag_auto, answer,
  volley, hand_off, verify_answer, flag_answer, reopen, adopt, close, revive, warn, close_lapsed,
  retarget, reapply_revision, ask_revision,
)

-- The diagram as a test, which `ground` decides.
abbrev edge : TxnState → TxnState → Bool
edge discovered discovered = true
edge discovered hold_amazon = true
edge discovered enriching = true
edge hold_amazon enriching = true
edge enriching enriching = true
edge enriching auto_applied = true
edge enriching awaiting_human = true
edge auto_applied opened = true
edge auto_applied awaiting_human = true
edge awaiting_human applied = true
edge awaiting_human awaiting_human = true
edge awaiting_human lapsed = true
edge applied opened = true
edge applied awaiting_human = true
edge opened revising = true
edge opened opened = true
edge opened archived = true
edge lapsed revising = true
edge lapsed lapsed = true
edge lapsed archived = true
edge revising revising = true
edge revising opened = true
edge revising awaiting_human = true
edge _ _ = false

edge-⟶ : (s t : TxnState) → edge s t ≡ true → s ⟶ t
edge-⟶ s t h = grind (arith, edges)

advance-edge :
    (now : Datetime) (policy : LifecyclePolicy) (txn : Transaction) (event : LifecycleEvent)
    {t : Transition}
    → advance now policy txn event ≡ ok t
    → t.kind ≡ advanced
    → edge (state txn) (state t.next) ≡ true
unfolding advance
advance-edge now policy txn event h k = ground arith

-- An advanced transition follows an edge of the lifecycle's diagram.
pub advance-⟶ :
    (now : Datetime) (policy : LifecyclePolicy) (txn : Transaction) (event : LifecycleEvent)
    {t : Transition}
    → advance now policy txn event ≡ ok t
    → t.kind ≡ advanced
    → state txn ⟶ state t.next
advance-⟶ now policy txn event h k = edge-⟶ _ _ (advance-edge now policy txn event h k)

-- An event that is ignored or rejected leaves the transaction as it was and has no effect.
pub refused_unchanged :
    (now : Datetime) (policy : LifecyclePolicy) (txn : Transaction) (event : LifecycleEvent)
    {t : Transition}
    → advance now policy txn event ≡ ok t
    → t.kind ≢ advanced
    → (t.next ≡ txn) × (t.effects ≡ [])
unfolding advance
refused_unchanged now policy txn event h k = ground arith
