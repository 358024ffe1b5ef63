-- ===== src/Driver/Performing.antt =====
-- That the effects of a transition keep the invariant, whatever activities they call.
use ynab_agent.Common.{◌≡◌, refl, ap, ◌∙◌, Bool, true, false, ℕ, none, List, ◌∷◌, ◌++◌}
use mathlib.Core.List.{append_assoc}
use ynab_agent.Domain.Enums.{TxnState}
use ynab_agent.Domain.Signal.{InboundSignal}
use ynab_agent.Domain.Effect.{
  MessagePurpose, Effect, open_thread, send_message, commit_to_ynab, set_timer, cancel_timer,
  feed_rule_learning, record_auto_action, replay_buffered, close_thread,
}
use ynab_agent.Lifecycle.Writes.{commits}
use ynab_agent.Driver.World.{World, Driver}
use ynab_agent.Driver.Effects.{perform}
use ynab_agent.Driver.Ensures.{Ensures, ensured, Ensures-gets}
use ynab_agent.Driver.Consistent.{Settled, carrying, handled}
use ynab_agent.Driver.Transitions.{replays}
use ynab_agent.Driver.Underway.{
  Underway, call-Underway, open_thread_with-Underway, send-Underway, close-Underway,
  suppressed-Underway,
}

abbrev pub is_commit : Effect → Bool
is_commit (commit_to_ynab _) = true
is_commit _ = false

module _ (old : List InboundSignal) (from : TxnState) (base : ℕ) where
  regrouped :
      (cs xs ss is : List InboundSignal) → (cs ++ xs) ++ (ss ++ is) ≡ (cs ++ (xs ++ ss)) ++ is
  regrouped cs xs ss is = simp append_assoc

  replayed :
      (hs cs xs ss is zs : List InboundSignal)
      → hs ++ ((cs ++ (xs ++ ss)) ++ is) ≡ zs
      → hs ++ ((cs ++ xs) ++ (ss ++ is)) ≡ zs
  replayed hs cs xs ss is zs h = ap (λ l. hs ++ l) (regrouped cs xs ss is) ∙ h

  module _ (world : World) (xs : List InboundSignal) where
    -- What an effect without a follow-up keeps.
    pub perform-Underway :
        (effect : Effect) (es : List Effect) (d : Driver)
        → Underway old from base (xs ++ replays (effect ∷ es)) (commits (effect ∷ es)) d
        → is_commit effect ≡ false
        → Ensures
            (Settled old from base)
            (λ _. Underway old from base (xs ++ replays es) (commits es))
            (perform world effect)
            d
    unfolding perform
    perform-Underway (commit_to_ynab c) es d u h = cc
    perform-Underway open_thread es d u h =
        open_thread_with-Underway old from base _ _ world MessagePurpose.proposal none none d u
    perform-Underway (send_message purpose detail decision) es d u h =
        Ensures-gets _ _ d
          (send-Underway old from base _ _ world purpose detail decision d.thread_id d u)
    perform-Underway (feed_rule_learning f) es d u h =
        call-Underway old from base _ _ world _ d refl refl refl u
    perform-Underway (record_auto_action id) es d u h =
        suppressed-Underway old from base _ _ world id d u
    perform-Underway close_thread es d u h =
        Ensures-gets _ _ d (close-Underway old from base _ _ world d.thread_id d u)
    perform-Underway (set_timer k t) es d u h =
        let c = u.consistent in
        ensured (record {
          consistent = record {
            mail = c.mail;
            mirror = c.mirror;
            fresh = c.fresh;
            route = c.route;
            legal = c.legal;
          };
          owes = u.owes;
          placed = u.placed;
        })
    perform-Underway (cancel_timer k) es d u h =
        let c = u.consistent in
        ensured (record {
          consistent = record {
            mail = c.mail;
            mirror = c.mirror;
            fresh = c.fresh;
            route = c.route;
            legal = c.legal;
          };
          owes = u.owes;
          placed = u.placed;
        })
    perform-Underway (replay_buffered sigs) es d u h =
        let c = u.consistent in
        ensured (record {
          consistent = record {
            mail =
                replayed (handled d.log) (carrying d.txn) (xs ++ replays es) sigs d.inbound _
                  (rw (append_assoc xs) c.mail);
            mirror = c.mirror;
            fresh = c.fresh;
            route = c.route;
            legal = c.legal;
          };
          owes = u.owes;
          placed = u.placed;
        })
