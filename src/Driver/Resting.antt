-- ===== src/Driver/Resting.antt =====
-- That the steps of the states that wait for the owner, and so every step, keep the invariant of a
-- workflow at rest.
use ynab_agent.Common.{
  ◌≡◌, ℕ, refl, sym, ap, ◌∙◌, Bool, true, false, Option, none, some, List, [], ◌++◌, not, test,
  Bool-cases, inl, inr,
}
use mathlib.Core.Path.{subst}
use ynab_agent.Domain.Enums.{TxnState}
use ynab_agent.Domain.Ids.{Datetime}
use ynab_agent.Domain.Signal.{InboundSignal}
use ynab_agent.Domain.Transaction.{
  Opened, Revising, Transaction, discovered, hold_amazon, enriching, auto_applied, awaiting_human,
  applied, opened, lapsed, revising, archived,
}
use ynab_agent.Domain.Event.{LifecycleEvent, converged, archive_window_reached}
use ynab_agent.Domain.Effect.{archive}
use ynab_agent.Lifecycle.Writes.{unverified}
use ynab_agent.Domain.Allocation.{ResolvedAllocation-discrete}
use ynab_agent.Policy.Converge.{TargetState}
use ynab_agent.Driver.World.{World, Deadlines, Driver, Entry, ReplyOutcome, Run}
use ynab_agent.Driver.World as W
use ynab_agent.Driver.Action.{has_inbound}
use ynab_agent.Driver.Steps.{
  same_type, wait_window, wait_on, try_closing, archive_or_override, override_event,
  after_window_open, on_open, after_window, on_lapsed, on_revising, step_in, step,
}
use ynab_agent.Driver.Ensures.{
  Ensures, ensured, Ensures-bind, Ensures-gets, Ensures-modify, Ensures-pure,
}
use ynab_agent.Driver.Consistent.{Consistent, Settled, Kept, carrying, in_hand}
use ynab_agent.Driver.Keeping.{wait_condition-Kept, wait_until-Kept, wait_forever-Kept}
use ynab_agent.Driver.Transitions.{Feeds, on_the_way, held, carried, takes_raw}
use ynab_agent.Driver.Settling.{dispatch-Settled}
use ynab_agent.Driver.Invariant.{handing-Kept, dispatch_quiet, hand_in-Settled, waited}
use ynab_agent.Driver.Stepping.{
  same_type-raw, on_the_way_rest, called, discovered-Settled, enriching-Settled, hold-Settled,
}
use ynab_agent.Driver.Expiry.{without_timer, awaiting-Settled}

module _ (old : List InboundSignal) (from : TxnState) (base : ℕ) (world : World) where
  window-Kept :
      (deadline : Option Datetime) (d : Driver)
      → Settled old from base d
      → Ensures
          (Settled old from base)
          (λ met d'.
            Kept old from base (carrying d.txn) d.txn d' × (met ≡ true → has_inbound d' ≡ true))
          (wait_window world deadline)
          d
  unfolding wait_window
  window-Kept none d s =
      wait_forever-Kept old from base (carrying d.txn) world has_inbound d
        (λ d1 k. waited old from base world d d1 s k) s.consistent
  window-Kept (some deadline) d s =
      wait_until-Kept old from base (carrying d.txn) world deadline has_inbound d
        (λ d1 k. waited old from base world d d1 s k) s.consistent

  wait_on-Settled :
      (same : Bool) (d : Driver)
      → (same ≡ true → takes_raw d.txn ≡ true)
      → Settled old from base d
      → Ensures (Settled old from base) (λ _. Settled old from base) (wait_on world same) d
  unfolding wait_on
  wait_on-Settled false d r s = Ensures-pure tt d s
  wait_on-Settled true d r s =
      let d1 : Driver = record d { deadlines = W.set_timer d.deadlines archive none } in
      Ensures-modify _ _ d (
        Ensures-bind
          (wait_condition-Kept old from base (carrying d.txn) world has_inbound d1
            (λ d2 k. waited old from base world d d2 s k)
            (without_timer old from base world d1.deadlines d s).consistent)
          (λ _ d2 (k, met).
            hand_in-Settled old from base world d2 (ap takes_raw k.unchanged ∙ r refl) met
              (waited old from base world d d2 s k)))

  closing-Settled :
      (event : LifecycleEvent) (d : Driver)
      → Feeds event d.txn
      → on_the_way event d.txn ≡ carrying d.txn ++ []
      → takes_raw d.txn ≡ true
      → Settled old from base d
      → Ensures (Settled old from base) (λ _. Settled old from base) (try_closing world event) d
  unfolding try_closing
  closing-Settled event d f e r s = Ensures-gets _ _ d (
      Ensures-bind (dispatch_quiet old from base world event d f e s) (λ _ d1 s1.
        Ensures-gets _ _ d1
          (wait_on-Settled (same_type d1.txn d.txn) d1 (λ h. same_type-raw d1.txn d.txn h r) s1)))

  -- What an archive window leads to takes no signal over.
  override_event-quiet :
      (read : Option TargetState) (st : Opened) (now : Datetime) (txn : Transaction)
      → Feeds (override_event read st now) txn
        × (held (override_event read st now) txn ≡ in_hand txn)
        × (carried (override_event read st now) ≡ [])
  unfolding override_event
  override_event-quiet none st now txn = (tt, refl, refl)
  override_event-quiet (some read) st now txn =
      elim (Bool-cases
        (not (test (ResolvedAllocation-discrete read.allocation st.decision.allocation)))) [
          | inl moved ↦ rw moved (tt, refl, refl)
          | inr same ↦ rw same (tt, refl, refl)
        ]

  -- The event is one that a closing can be tried with.
  abbrev CanClose : LifecycleEvent → Driver → Type 0
  CanClose event d =
      Feeds event d.txn
      × (on_the_way event d.txn ≡ carrying d.txn ++ [])
      × (takes_raw d.txn ≡ true)
      × Settled old from base d

  archive_or_override-CanClose :
      (st : Opened) (d : Driver)
      → d.txn ≡ opened st
      → Settled old from base d
      → Ensures (Settled old from base) CanClose (archive_or_override world st) d
  unfolding archive_or_override
  archive_or_override-CanClose st d e s =
      Ensures-gets (λ d. d) _ d
        (Ensures-bind (called old from base world (Entry.read_back d.ynab_id) d refl refl refl s)
          (λ _ d1 (s1, same).
            let (f, h, c) = override_event-quiet (world.read d1.log) st (world.now d1.log) d1.txn in
            Ensures-gets _ _ d1 (
              Ensures-gets _ _ d1 (
                Ensures-pure _ d1 (f, on_the_way_rest d1.txn _ h c, ap takes_raw (same ∙ e), s1)))))

  open_window-Settled :
      (st : Opened) (got_inbound : Bool) (d : Driver)
      → d.txn ≡ opened st
      → (got_inbound ≡ true → has_inbound d ≡ true)
      → Settled old from base d
      → Ensures
          (Settled old from base)
          (λ _. Settled old from base)
          (after_window_open world st got_inbound)
          d
  unfolding after_window_open
  open_window-Settled st true d e met s =
      hand_in-Settled old from base world d (ap takes_raw e) (met refl) s
  open_window-Settled st false d e met s =
      Ensures-bind (archive_or_override-CanClose st d e s)
        (λ event d1 (f, h, r, s1). closing-Settled event d1 f h r s1)

  open-Settled :
      (st : Opened) (d : Driver)
      → d.txn ≡ opened st
      → Settled old from base d
      → Ensures (Settled old from base) (λ _. Settled old from base) (on_open world st) d
  unfolding on_open
  open-Settled st d e s = Ensures-gets _ _ d (
      Ensures-bind (window-Kept (d.deadlines archive) d s) (λ got d1 (k, met).
        open_window-Settled st got d1 (k.unchanged ∙ e) met (waited old from base world d d1 s k)))

  window-Settled :
      (got_inbound : Bool) (d : Driver)
      → takes_raw d.txn ≡ true
      → (got_inbound ≡ true → has_inbound d ≡ true)
      → Settled old from base d
      → Ensures
          (Settled old from base)
          (λ _. Settled old from base)
          (after_window world got_inbound)
          d
  unfolding after_window
  window-Settled true d r met s = hand_in-Settled old from base world d r (met refl) s
  window-Settled false d r met s =
      closing-Settled archive_window_reached d tt
        (on_the_way_rest d.txn archive_window_reached refl refl) r s

  lapsed-Settled :
      (d : Driver)
      → takes_raw d.txn ≡ true
      → Settled old from base d
      → Ensures (Settled old from base) (λ _. Settled old from base) (on_lapsed world) d
  unfolding on_lapsed
  lapsed-Settled d r s = Ensures-gets _ _ d (
      Ensures-bind (window-Kept (d.deadlines archive) d s) (λ got d1 (k, met).
        window-Settled got d1 (ap takes_raw k.unchanged ∙ r) met
          (waited old from base world d d1 s k)))

  revising-Settled :
      (st : Revising) (d : Driver)
      → d.txn ≡ revising st
      → Settled old from base d
      → Ensures (Settled old from base) (λ _. Settled old from base) (on_revising world st) d
  unfolding on_revising
  revising-Settled st d e s =
      Ensures-bind
        (handing-Kept old from base world (Entry.converge st.core.snapshot st.instruction st.prior)
          st.instruction d refl refl refl
          (subst (λ l. Consistent old from base l d) (ap carrying e) s.consistent))
        (λ _ d1 k. Ensures-gets _ _ d1 (
          let same : d1.txn ≡ revising st = k.unchanged ∙ e in
          dispatch-Settled old from base world (converged (world.converged d1.log)) d1 tt
            (ap unverified same)
            (subst (λ l. Consistent old from base l d1)
              (sym (ap (on_the_way (converged (world.converged d1.log))) same)) k.consistent)))

  step_in-Settled :
      (txn : Transaction) (d : Driver)
      → d.txn ≡ txn
      → Settled old from base d
      → Ensures (Settled old from base) (λ _. Settled old from base) (step_in world txn) d
  unfolding step_in
  step_in-Settled (discovered st) d e s = discovered-Settled old from base world st d e s
  step_in-Settled (hold_amazon st) d e s = hold-Settled old from base world st d e s
  step_in-Settled (enriching st) d e s = enriching-Settled old from base world st d s
  step_in-Settled (auto_applied _) d e s = Ensures-pure tt d s
  step_in-Settled (awaiting_human st) d e s = awaiting-Settled old from base world st d e s
  step_in-Settled (applied _) d e s = Ensures-pure tt d s
  step_in-Settled (opened st) d e s = open-Settled st d e s
  step_in-Settled (lapsed _) d e s = lapsed-Settled d (ap takes_raw e) s
  step_in-Settled (revising st) d e s = revising-Settled st d e s
  step_in-Settled (archived _) d e s = Ensures-pure tt d s

  pub step-Settled :
      (d : Driver)
      → Settled old from base d
      → Ensures (Settled old from base) (λ _. Settled old from base) (step world) d
  unfolding step
  step-Settled d s = ensured (step_in-Settled d.txn d refl s).holds
