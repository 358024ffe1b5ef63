-- ===== src/Driver/Settling.antt =====
-- That a whole `_dispatch` ends in the invariant of a workflow at rest.
use ynab_agent.Common.{
  ◌≡◌, sym, ap, ◌∙◌, true, false, ℕ, suc, List, [], ◌∷◌, ◌++◌, ok, Bool-cases, inl, inr,
}
use mathlib.Core.List.{append-nil}
use mathlib.Core.Path.{subst}
use ynab_agent.Domain.Enums.{TxnState}
use ynab_agent.Domain.Proposal.{Decision}
use ynab_agent.Domain.Signal.{InboundSignal}
use ynab_agent.Domain.Event.{LifecycleEvent, write_verified, VerifyOutcome}
use ynab_agent.Lifecycle.{advance}
use ynab_agent.Lifecycle.Values.{Transition}
use ynab_agent.Lifecycle.Writes.{unverified, commits}
use ynab_agent.Driver.World.{World, Driver}
use ynab_agent.Driver.Effects.{execute_all, enter, dispatch_within, dispatch}
use ynab_agent.Driver.Ensures.{Ensures, ensured, Ensures-pure, Ensures-weaken}
use ynab_agent.Driver.Consistent.{Consistent, Settled, carrying}
use ynab_agent.Driver.Transitions.{
  replays, is_discovered, advance-discovered, Feeds, on_the_way, advance-mail, advance-unverified,
  advance-verified,
}
use ynab_agent.Driver.Underway.{Underway}
use ynab_agent.Driver.Dispatching.{Follows, execute_all-Underway, enter-Consistent}
use ynab_agent.Driver.Depth.{entered}

module _ (old : List InboundSignal) (from : TxnState) (base : ℕ) (world : World) where
  verified-Underway :
      (outcome : VerifyOutcome) (xs : List InboundSignal) (c : Decision) (d : Driver)
      {t : Transition}
      → Underway old from base xs (c ∷ []) d
      → advance (world.now d.log) world.policy d.txn (write_verified outcome) ≡ ok t
      → Underway old from base (xs ++ replays t.effects) (commits t.effects) (enter t.next d)
  unfolding enter
  verified-Underway outcome xs c d {t} u e =
      let (owes, writes, puts, carries, carried, placed) =
        advance-verified (world.now d.log) world.policy d.txn outcome u.owes e in
      let c : Consistent old from base (carrying d.txn ++ xs) d = u.consistent in
      let same : carrying d.txn ++ xs ≡ carrying t.next ++ (xs ++ replays t.effects) =
        rw (carried, carries, puts) (sym (append-nil xs)) in
      record {
        consistent =
            enter-Consistent old from base world (carrying t.next ++ (xs ++ replays t.effects))
              (write_verified outcome) d e (subst (λ l. Consistent old from base l d) same c);
        owes = owes ∙ sym writes;
        placed = placed;
      }

  -- A follow-up settles its write, and has no follow-up of its own.
  pub dispatch_within-Follows :
      (n : ℕ) → Follows old from base world (dispatch_within world (suc n))
  dispatch_within-Follows n outcome xs c d u = entered world n (write_verified outcome) d (λ t e.
      execute_all-Underway old from base world (dispatch_within world n) t.effects xs
        (enter t.next d)
        (λ some'.
          absurd (some' (advance-verified (world.now d.log) world.policy d.txn outcome u.owes e).1))
        (verified-Underway outcome xs c d u e))

  Underway-Settled : (d : Driver) → Underway old from base [] [] d → Settled old from base d
  Underway-Settled d u = record {
    consistent =
        subst (λ l. Consistent old from base l d) (append-nil (carrying d.txn)) u.consistent;
    verified = u.owes;
  }

  -- The loop over the effects, where the new state has some or stands with a snapshot.
  loop-Settled :
      (n : ℕ) (event : LifecycleEvent) (d : Driver) {t : Transition}
      → Feeds event d.txn
      → unverified d.txn ≡ []
      → Consistent old from base (on_the_way event d.txn) d
      → advance (world.now d.log) world.policy d.txn event ≡ ok t
      → is_discovered t.next ≡ false
      → Ensures
          (Settled old from base)
          (λ _. Settled old from base)
          (execute_all world (dispatch_within world (suc n)) t.effects)
          (enter t.next d)
  unfolding enter
  loop-Settled n event d {t} f v c e placed =
      Ensures-weaken
        (execute_all-Underway old from base world (dispatch_within world (suc n)) t.effects []
          (enter t.next d) (λ _. dispatch_within-Follows n)
          (record {
            consistent =
                enter-Consistent old from base world (carrying t.next ++ replays t.effects) event d
                  e
                  (subst (λ l. Consistent old from base l d)
                    (advance-mail (world.now d.log) world.policy d.txn event f e) c);
            owes = advance-unverified (world.now d.log) world.policy d.txn event e v;
            placed = placed;
          }))
        (λ _ d' u. Underway-Settled d' u)

  waiting-Settled :
      (n : ℕ) (event : LifecycleEvent) (d : Driver) {t : Transition}
      → Feeds event d.txn
      → unverified d.txn ≡ []
      → Consistent old from base (on_the_way event d.txn) d
      → advance (world.now d.log) world.policy d.txn event ≡ ok t
      → is_discovered t.next ≡ true
      → Ensures
          (Settled old from base)
          (λ _. Settled old from base)
          (execute_all world (dispatch_within world (suc n)) t.effects)
          (enter t.next d)
  unfolding enter execute_all
  waiting-Settled n event d {t} f v c e placed =
      let none' = advance-discovered (world.now d.log) world.policy d.txn event placed e in
      let carries : on_the_way event d.txn ≡ carrying t.next =
        advance-mail (world.now d.log) world.policy d.txn event f e
        ∙ ap (λ es. carrying t.next ++ replays es) none'
        ∙ append-nil (carrying t.next) in
      subst
        (λ es.
          Ensures (Settled old from base) (λ _. Settled old from base)
            (execute_all world (dispatch_within world (suc n)) es) (enter t.next d))
        (sym none')
        (Ensures-pure tt (enter t.next d) (record {
          consistent =
              enter-Consistent old from base world (carrying t.next) event d e
                (subst (λ l. Consistent old from base l d) carries c);
          verified =
              advance-unverified (world.now d.log) world.policy d.txn event e v ∙ ap commits none';
        }))

  -- A dispatch that returns loses no signal and leaves no write without its verification.
  pub dispatch-Settled :
      (event : LifecycleEvent) (d : Driver)
      → Feeds event d.txn
      → unverified d.txn ≡ []
      → Consistent old from base (on_the_way event d.txn) d
      → Ensures (Settled old from base) (λ _. Settled old from base) (dispatch world event) d
  unfolding dispatch
  dispatch-Settled event d f v c =
      ensured
        (entered world 1 event d (λ t e. elim (Bool-cases (is_discovered t.next)) [
          | inl yes' ↦ waiting-Settled 0 event d f v c e yes'
          | inr no' ↦ loop-Settled 0 event d f v c e no'
        ])).holds
