-- ===== src/Driver/Transitions.antt =====
-- What one call of `advance` does to the signals on their way, to the walk in the diagram and to
-- the writes that are not verified.
use ynab_agent.Common.{
  ◌≡◌, ◌≢◌, ◌⊎◌, inl, inr, refl, sym, Bool, true, false, List, [], ◌∷◌, ◌++◌, ok, raise, Exception,
  value_error, arith,
}
use mathlib.Core.List.{append-nil}
use mathlib.Core.Path.{subst}
use ynab_agent.Domain.Ids.{Datetime}
use ynab_agent.Domain.Proposal.{Decision}
use ynab_agent.Domain.Signal.{InboundSignal}
use ynab_agent.Domain.Transaction.{
  Transaction, discovered, hold_amazon, enriching, auto_applied, awaiting_human, applied, opened,
  lapsed, revising, archived,
}
use ynab_agent.Domain.Event.{
  LifecycleEvent, inbound_received, converged, write_verified, VerifyOutcome,
}
use ynab_agent.Domain.Effect.{Effect, replay_buffered}
use ynab_agent.Domain.Enums.{TxnState}
use ynab_agent.Lifecycle.{advance}
use ynab_agent.Lifecycle.Values.{
  LifecyclePolicy, Transition, TransitionKind, advanced, ignored, rejected, state,
}
use ynab_agent.Lifecycle.Graph.{advance-⟶, refused_unchanged}
use ynab_agent.Lifecycle.Writes.{unverified, commits, commits-advance}
use ynab_agent.Driver.Consistent.{Walk, along, in_hand, buffered, carrying}

-- The signals that a list of effects puts back before the inbound queue: a later effect before an
-- earlier one.
abbrev pub replays : List Effect → List InboundSignal
replays [] = []
replays (replay_buffered sigs ∷ es) = replays es ++ sigs
replays (_ ∷ es) = replays es

abbrev pub is_discovered : Transaction → Bool
is_discovered (discovered _) = true
is_discovered _ = false

-- The signal that an event hands to the state machine.
abbrev pub carried : LifecycleEvent → List InboundSignal
carried (inbound_received sig) = sig ∷ []
carried _ = []

-- What stays in hand as an event arrives: its convergence ends a revision.
abbrev pub held : LifecycleEvent → Transaction → List InboundSignal
held (converged _) txn = []
held _ txn = in_hand txn

-- The signals between the handled ones and the queue, as an event arrives.
abbrev pub on_the_way : LifecycleEvent → Transaction → List InboundSignal
on_the_way event txn = held event txn ++ (buffered txn ++ carried event)

-- The states in which the workflow feeds a raw signal to the state machine.
abbrev pub takes_raw : Transaction → Bool
takes_raw (discovered _) = true
takes_raw (hold_amazon _) = true
takes_raw (opened _) = true
takes_raw (lapsed _) = true
takes_raw _ = false

abbrev pub Feeds : LifecycleEvent → Transaction → Type 0
Feeds (inbound_received _) txn = takes_raw txn ≡ true
Feeds (write_verified _) txn = ⊥
Feeds _ txn = Unit

same_ok : {s t : Transition} → ok s ≡ ok t → s ≡ t
same_ok h = cc

module _ (now : Datetime) (policy : LifecyclePolicy) where
  -- A transition loses no signal and changes no order: those on their way are carried by the new
  -- state, or put back before the queue.
  pub advance-mail :
      (txn : Transaction) (event : LifecycleEvent) {t : Transition}
      → Feeds event txn
      → advance now policy txn event ≡ ok t
      → on_the_way event txn ≡ carrying t.next ++ replays t.effects
  unfolding advance
  advance-mail (discovered s) (inbound_received sig) f h =
      subst (λ t. s.pending ++ sig ∷ [] ≡ carrying t.next ++ replays t.effects) (same_ok h)
        (sym (append-nil (s.pending ++ sig ∷ [])))
  advance-mail (discovered s) event f h = ground (arith, append-nil s.pending)
  advance-mail (hold_amazon s) event f h = ground arith
  advance-mail (enriching s) event f h = ground arith
  advance-mail (auto_applied s) event f h = ground arith
  advance-mail (awaiting_human s) event f h = ground arith
  advance-mail (applied s) event f h = ground arith
  advance-mail (opened s) event f h = ground arith
  advance-mail (lapsed s) event f h = ground arith
  advance-mail (revising s) event f h = ground arith
  advance-mail (archived s) event f h = ground arith

  -- Where it raises, a validator has refused.
  pub advance-raises :
      (txn : Transaction) (event : LifecycleEvent) {x : Exception}
      → advance now policy txn event ≡ raise x
      → x ≡ value_error
  unfolding advance
  advance-raises txn event h = ground arith

  -- A transaction that is still without a snapshot has no effects.
  pub advance-discovered :
      (txn : Transaction) (event : LifecycleEvent) {t : Transition}
      → is_discovered t.next ≡ true
      → advance now policy txn event ≡ ok t
      → t.effects ≡ []
  unfolding advance
  advance-discovered txn event u h = ground arith

  -- A verification writes nothing, in any state.
  pub write_verified-commits :
      (txn : Transaction) (outcome : VerifyOutcome) {t : Transition}
      → advance now policy txn (write_verified outcome) ≡ ok t
      → commits t.effects ≡ []
  unfolding advance
  write_verified-commits txn outcome h = ground arith

  -- A write that is verified is no longer without its verification, and the verification writes
  -- and puts back nothing.
  pub advance-verified :
      (txn : Transaction) (outcome : VerifyOutcome) {c : Decision} {t : Transition}
      → unverified txn ≡ c ∷ []
      → advance now policy txn (write_verified outcome) ≡ ok t
      → (unverified t.next ≡ [])
        × (commits t.effects ≡ [])
        × (replays t.effects ≡ [])
        × (carrying t.next ≡ [])
        × (carrying txn ≡ [])
        × (is_discovered t.next ≡ false)
  unfolding advance
  advance-verified (auto_applied s) outcome u h = ground arith
  advance-verified (applied s) outcome u h = ground arith
  advance-verified txn outcome u h = ground arith

  module _ (txn : Transaction) (event : LifecycleEvent) {t : Transition}
      (stepped : advance now policy txn event ≡ ok t) where
    advanced-Walk :
        {from : TxnState} (k : t.kind ≡ advanced) → Walk from (state txn) → Walk from (state t.next)
    advanced-Walk k p = along p (advance-⟶ now policy txn event stepped k)

    refused-Walk :
        {from : TxnState} → t.kind ≢ advanced → Walk from (state txn) → Walk from (state t.next)
    refused-Walk {from} k p =
        subst (λ u. Walk from (state u)) (sym (refused_unchanged now policy txn event stepped k).0)
          p

    is_advanced_cases : (k : TransitionKind) → (k ≡ advanced) ⊎ (k ≢ advanced)
    is_advanced_cases advanced = inl refl
    is_advanced_cases ignored = inr (λ e. cc)
    is_advanced_cases rejected = inr (λ e. cc)

    pub advance-Walk : {from : TxnState} → Walk from (state txn) → Walk from (state t.next)
    advance-Walk p = elim (is_advanced_cases t.kind) [
      | inl k ↦ advanced-Walk k p
      | inr k ↦ refused-Walk k p
    ]

    refused-unverified :
        t.kind ≢ advanced → unverified txn ≡ [] → unverified t.next ≡ commits t.effects
    refused-unverified k u =
        let (same, none') = refused_unchanged now policy txn event stepped k in rw (same, none') u

    -- What is written is what waits for its verification.
    pub advance-unverified : unverified txn ≡ [] → unverified t.next ≡ commits t.effects
    advance-unverified u = elim (is_advanced_cases t.kind) [
      | inl k ↦ sym (commits-advance now policy txn event stepped k)
      | inr k ↦ refused-unverified k u
    ]
