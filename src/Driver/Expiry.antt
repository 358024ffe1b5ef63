-- ===== src/Driver/Expiry.antt =====
-- That the step of AWAITING_HUMAN keeps the invariant of a workflow at rest.
use ynab_agent.Common.{◌≡◌, ℕ, refl, sym, ap, ◌∙◌, Bool, true, false, none, List, []}
use mathlib.Core.Path.{subst}
use ynab_agent.Domain.Enums.{TxnState}
use ynab_agent.Domain.Signal.{InboundSignal}
use ynab_agent.Domain.Transaction.{YnabSnapshot, AwaitingHuman, awaiting_human}
use ynab_agent.Domain.Event.{answer_received, clarify_requested, patience_expired}
use ynab_agent.Lifecycle.Writes.{unverified}
use ynab_agent.Driver.World.{World, Driver, Entry, ReplyOutcome, Run, Deadlines}
use ynab_agent.Driver.World as W
use ynab_agent.Driver.Action.{has_inbound}
use ynab_agent.Driver.Effects.{dispatch, proposal_of}
use ynab_agent.Driver.Steps.{
  same_type, interpret_inbound, reply_event, after_expiry, after_patience, on_awaiting,
}
use ynab_agent.Driver.Ensures.{Ensures, Ensures-bind, Ensures-gets, Ensures-modify, Ensures-pure}
use ynab_agent.Driver.Consistent.{Consistent, Settled, carrying}
use ynab_agent.Driver.Keeping.{wait_condition-Kept, wait_until-Kept}
use ynab_agent.Driver.Settling.{dispatch-Settled}
use ynab_agent.Driver.Invariant.{pop_left-Kept, handing-Kept, dispatch_quiet, waited}
use ynab_agent.Domain.Effect.{patience}
use ynab_agent.Driver.Stepping.{IsIdle, same_type-IsIdle, on_the_way_rest}

module _ (old : List InboundSignal) (from : TxnState) (base : ℕ) (world : World) where
  pub interpret-Settled :
      (snapshot : YnabSnapshot) (d : Driver)
      → IsIdle d.txn
      → has_inbound d ≡ true
      → Settled old from base d
      → Ensures
          (Settled old from base)
          (λ _. Settled old from base)
          (interpret_inbound world snapshot)
          d
  unfolding interpret_inbound
  interpret-Settled snapshot d idle some' s =
      Ensures-bind
        (pop_left-Kept old from base [] d some'
          (subst (λ l. Consistent old from base l d) (rw (idle.0, idle.1) refl) s.consistent))
        (λ sig d1 k1. Ensures-gets _ _ d1 (
          Ensures-bind
            (handing-Kept old from base world (Entry.interpret sig snapshot (proposal_of d1.txn))
              sig d1 refl refl refl k1.consistent)
            (λ _ d2 k2. Ensures-gets _ _ d2 (
              let same : d2.txn ≡ d.txn = k2.unchanged ∙ k1.unchanged in
              replied (world.interpreted d2.log) d2 (subst IsIdle (sym same) idle)
                (ap unverified same ∙ s.verified) k2.consistent))))
    where
      replied :
          (outcome : ReplyOutcome) (d : Driver)
          → IsIdle d.txn
          → unverified d.txn ≡ []
          → Consistent old from base [] d
          → Ensures
              (Settled old from base)
              (λ _. Settled old from base)
              (dispatch world (reply_event world outcome))
              d
      replied (ReplyOutcome.answer decision) d idle v c =
          dispatch-Settled old from base world (answer_received decision) d tt v
            (subst (λ l. Consistent old from base l d) (sym (rw (idle.0, idle.1) refl)) c)
      replied (ReplyOutcome.clarify question) d idle v c =
          dispatch-Settled old from base world (clarify_requested question) d tt v
            (subst (λ l. Consistent old from base l d) (sym (rw (idle.0, idle.1) refl)) c)

  -- A without_timer timer touches no signal.
  pub without_timer :
      (deadlines : Deadlines) (d : Driver)
      → Settled old from base d
      → Settled old from base (record d { deadlines = deadlines })
  without_timer deadlines d s =
      let c = s.consistent in
      record {
        consistent = record {
          mail = c.mail;
          mirror = c.mirror;
          fresh = c.fresh;
          route = c.route;
          legal = c.legal;
        };
        verified = s.verified;
      }

  expired-Settled :
      (st : AwaitingHuman) (same : Bool) (d : Driver)
      → (same ≡ true → IsIdle d.txn)
      → Settled old from base d
      → Ensures (Settled old from base) (λ _. Settled old from base) (after_expiry world st same) d
  unfolding after_expiry
  expired-Settled st false d idle s = Ensures-pure tt d s
  expired-Settled st true d idle s =
      let d1 : Driver = record d { deadlines = W.set_timer d.deadlines patience none } in
      Ensures-modify _ _ d (
        Ensures-bind
          (wait_condition-Kept old from base (carrying d.txn) world has_inbound d1
            (λ d2 k. waited old from base world d d2 s k)
            (without_timer d1.deadlines d s).consistent)
          (λ _ d2 (k, met).
            interpret-Settled st.core.snapshot d2 (subst IsIdle (sym k.unchanged) (idle refl)) met
              (waited old from base world d d2 s k)))

  patience-Settled :
      (st : AwaitingHuman) (got_inbound : Bool) (d : Driver)
      → d.txn ≡ awaiting_human st
      → (got_inbound ≡ true → has_inbound d ≡ true)
      → Settled old from base d
      → Ensures
          (Settled old from base)
          (λ _. Settled old from base)
          (after_patience world st got_inbound)
          d
  unfolding after_patience
  patience-Settled st true d e met s =
      interpret-Settled st.core.snapshot d (subst IsIdle (sym e) (refl, refl)) (met refl) s
  patience-Settled st false d e met s = Ensures-gets _ _ d (
      Ensures-bind
        (dispatch_quiet old from base world patience_expired d tt
          (on_the_way_rest d.txn patience_expired refl refl) s)
        (λ _ d1 s1. Ensures-gets _ _ d1 (
          expired-Settled st (same_type d1.txn d.txn) d1
            (λ h. same_type-IsIdle d1.txn st (ap (same_type d1.txn) (sym e) ∙ h)) s1)))

  pub awaiting-Settled :
      (st : AwaitingHuman) (d : Driver)
      → d.txn ≡ awaiting_human st
      → Settled old from base d
      → Ensures (Settled old from base) (λ _. Settled old from base) (on_awaiting world st) d
  unfolding on_awaiting
  awaiting-Settled st d e s =
      Ensures-bind
        (wait_until-Kept old from base (carrying d.txn) world st.patience_deadline has_inbound d
          (λ d1 k. waited old from base world d d1 s k) s.consistent)
        (λ got d1 (k, met).
          patience-Settled st got d1 (k.unchanged ∙ e) met (waited old from base world d d1 s k))
