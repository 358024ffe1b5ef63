-- ===== src/Driver/Invariant.antt =====
-- The pieces that the steps share keep the invariant of a workflow at rest.
use ynab_agent.Common.{
  ◌≡◌, ℕ, refl, sym, ap, ◌∙◌, true, false, Option, none, some, List, [], ◌∷◌, ◌++◌,
}
use mathlib.Core.List.{append_assoc, append-nil}
use mathlib.Core.Path.{subst}
use ynab_agent.Domain.Enums.{TxnState}
use ynab_agent.Domain.Signal.{InboundSignal}
use ynab_agent.Domain.Transaction.{YnabSnapshot, Transaction}
use ynab_agent.Domain.Event.{LifecycleEvent, inbound_received}
use ynab_agent.Lifecycle.Writes.{unverified}
use ynab_agent.Driver.World.{World, Driver, Entry}
use ynab_agent.Driver.Action.{pop_from, pop_left, call, has_inbound}
use ynab_agent.Driver.Effects.{dispatch}
use ynab_agent.Driver.Steps.{hand_in, take_stirred}
use ynab_agent.Driver.Ensures.{Ensures, Done, ensured, Ensures-bind, Ensures-modify}
use ynab_agent.Driver.Consistent.{
  Consistent, Settled, Kept, carrying, in_hand, buffered, handled, submitted, keys,
}
use ynab_agent.Driver.Keeping.{call-Kept}
use ynab_agent.Driver.Transitions.{Feeds, on_the_way, takes_raw}
use ynab_agent.Driver.Settling.{dispatch-Settled}

module _ (old : List InboundSignal) (from : TxnState) (base : ℕ) where
  -- `popleft` moves the first signal of the queue to those on their way.
  pub pop_left-Kept :
      (xs : List InboundSignal) (d : Driver)
      → has_inbound d ≡ true
      → Consistent old from base xs d
      → Ensures
          (Settled old from base)
          (λ sig. Kept old from base (xs ++ sig ∷ []) d.txn)
          pop_left
          d
  unfolding pop_left
  pop_left-Kept xs d some' c = ensured (popped d.inbound some' c.mail)
    where
      popped :
          (queue : List InboundSignal)
          → (elim queue [ [] ↦ false | _ ∷ _ ↦ true ]) ≡ true
          → handled d.log ++ (xs ++ queue) ≡ old ++ submitted d.log
          → Done
              (Settled old from base)
              (λ sig. Kept old from base (xs ++ sig ∷ []) d.txn)
              (pop_from queue d)
      popped [] h e = cc
      popped (sig ∷ rest) h e = record {
        consistent = record {
          mail = ap (λ l. handled d.log ++ l) (append_assoc xs (sig ∷ []) rest) ∙ e;
          mirror = c.mirror;
          fresh = c.fresh;
          route = c.route;
          legal = c.legal;
        };
        unchanged = refl;
      }

  pub Kept-Settled :
      (txn : Transaction) (d : Driver)
      → unverified txn ≡ []
      → Kept old from base (carrying txn) txn d
      → Settled old from base d
  Kept-Settled txn d v k = record {
    consistent =
        subst (λ t. Consistent old from base (carrying t) d) (sym k.unchanged) k.consistent;
    verified = ap unverified k.unchanged ∙ v;
  }

  module _ (world : World) where
    -- An activity that hands the signal on its way to a model.
    pub handing-Kept :
        (entry : Entry) (sig : InboundSignal) (d : Driver)
        → handled (entry ∷ d.log) ≡ handled d.log ++ sig ∷ []
        → submitted (entry ∷ d.log) ≡ submitted d.log
        → keys (entry ∷ d.log) ≡ keys d.log
        → Consistent old from base (sig ∷ []) d
        → Ensures (Settled old from base) (λ _. Kept old from base [] d.txn) (call world entry) d
    handing-Kept entry sig d h s k c = call-Kept old from base [] world entry d (record {
      mail = rw (h, s, append_assoc (handled d.log)) c.mail;
      mirror = c.mirror;
      fresh = rw k c.fresh;
      route = c.route;
      legal = c.legal;
    })

    -- An event that hands no signal over.
    pub dispatch_quiet :
        (event : LifecycleEvent) (d : Driver)
        → Feeds event d.txn
        → on_the_way event d.txn ≡ carrying d.txn ++ []
        → Settled old from base d
        → Ensures (Settled old from base) (λ _. Settled old from base) (dispatch world event) d
    dispatch_quiet event d f e s = dispatch-Settled old from base world event d f s.verified (
        subst (λ l. Consistent old from base l d) (sym (e ∙ append-nil (carrying d.txn)))
          s.consistent)

    pub hand_in-Settled :
        (d : Driver)
        → takes_raw d.txn ≡ true
        → has_inbound d ≡ true
        → Settled old from base d
        → Ensures (Settled old from base) (λ _. Settled old from base) (hand_in world) d
    unfolding hand_in
    hand_in-Settled d r some' s =
        Ensures-bind (pop_left-Kept (carrying d.txn) d some' s.consistent) (λ sig d1 k.
          dispatch-Settled old from base world (inbound_received sig) d1
            (ap takes_raw k.unchanged ∙ r) (ap unverified k.unchanged ∙ s.verified)
            (subst (λ l. Consistent old from base l d1) (same sig d1 k.unchanged) k.consistent))
      where
        same :
            (sig : InboundSignal) (d1 : Driver)
            → d1.txn ≡ d.txn
            → carrying d.txn ++ sig ∷ [] ≡ on_the_way (inbound_received sig) d1.txn
        same sig d1 e =
            append_assoc (in_hand d.txn) (buffered d.txn) (sig ∷ [])
            ∙ ap (on_the_way (inbound_received sig)) (sym e)

    -- What a wait leaves.
    pub waited :
        (d d' : Driver)
        → Settled old from base d
        → Kept old from base (carrying d.txn) d.txn d'
        → Settled old from base d'
    waited d d' s k = Kept-Settled d.txn d' s.verified k

    pub take_stirred-Settled :
        (event : YnabSnapshot → LifecycleEvent) (ready : Option YnabSnapshot) (d : Driver)
        → ((snap : YnabSnapshot) → Feeds (event snap) d.txn)
        → ((snap : YnabSnapshot) → on_the_way (event snap) d.txn ≡ carrying d.txn ++ [])
        → takes_raw d.txn ≡ true
        → (ready ≡ none → has_inbound d ≡ true)
        → Settled old from base d
        → Ensures
            (Settled old from base)
            (λ _. Settled old from base)
            (take_stirred world event ready)
            d
    unfolding take_stirred
    take_stirred-Settled event none d f e r some' s = hand_in-Settled d r (some' refl) s
    take_stirred-Settled event (some snap) d f e r some' s =
        let c = s.consistent in
        Ensures-modify _ _ d (
          dispatch_quiet (event snap) (record d { snapshot_ready = none }) (f snap) (e snap)
            (record {
              consistent = record {
                mail = c.mail;
                mirror = c.mirror;
                fresh = c.fresh;
                route = c.route;
                legal = c.legal;
              };
              verified = s.verified;
            }))
