-- ===== src/Driver/Stepping.antt =====
-- That every step keeps the invariant of a workflow at rest.
use ynab_agent.Common.{
  ◌≡◌, ℕ, refl, sym, ap, ◌∙◌, Bool, true, false, Option, none, some, List, [], ◌∷◌, ◌++◌, arith, ok,
}
use mathlib.Core.List.{append_assoc}
use mathlib.Core.Path.{subst}
use ynab_agent.Domain.Enums.{TxnState}
use ynab_agent.Domain.Ids.{Datetime}
use ynab_agent.Domain.Signal.{InboundSignal}
use ynab_agent.Domain.Transaction.{
  YnabSnapshot, Discovered, Enriching, HoldAmazon, AwaitingHuman, Transaction, discovered,
  hold_amazon, awaiting_human,
}
use ynab_agent.Domain.Event.{
  LifecycleEvent, snapshot_unavailable, hold_resolved, hold_deadline_reached, enriched,
}
use ynab_agent.Driver.World.{World, Driver, Entry, ReplyOutcome, Run}
use ynab_agent.Driver.World as W
use ynab_agent.Driver.Action.{call, has_inbound, is_stirred}
use ynab_agent.Driver.Effects.{dispatch, dispatch_within, execute_all, enter}
use ynab_agent.Driver.Steps.{
  same_type, materialized, after_fetch, on_discovered, on_enriching, after_hold, on_hold,
}
use ynab_agent.Driver.Ensures.{
  Ensures, ensured, Ensures-bind, Ensures-gets, Ensures-weaken, Ensures-both,
}
use ynab_agent.Driver.Consistent.{
  Consistent, Settled, carrying, in_hand, buffered, handled, submitted, keys,
}
use ynab_agent.Driver.Keeping.{call-Kept, wait_condition-Kept, wait_until-Kept}
use ynab_agent.Driver.Transitions.{on_the_way, held, carried, takes_raw}
use ynab_agent.Driver.Depth.{entered}
use ynab_agent.Lifecycle.{advance}
use ynab_agent.Lifecycle.Values.{LifecyclePolicy, Transition}
use ynab_agent.Driver.Invariant.{dispatch_quiet, waited, take_stirred-Settled}

-- Neither in hand nor put aside.
abbrev pub IsIdle : Transaction → Type 0
IsIdle txn = (in_hand txn ≡ []) × (buffered txn ≡ [])

-- The states whose type the last test of a step compares.
pub same_type-raw :
    (txn before : Transaction)
    → same_type txn before ≡ true
    → takes_raw before ≡ true
    → takes_raw txn ≡ true
same_type-raw txn before e r = ground arith

pub same_type-IsIdle :
    (txn : Transaction) (st : AwaitingHuman) → same_type txn (awaiting_human st) ≡ true → IsIdle txn
same_type-IsIdle txn st e = ground arith

-- What has stirred the workflow, if no snapshot.
stirred_by : (d : Driver) → is_stirred d ≡ true → d.snapshot_ready ≡ none → has_inbound d ≡ true
stirred_by d met e = ground arith

unavailable :
    (now : Datetime) (policy : LifecyclePolicy) (txn : Transaction) (st : Discovered)
    {t : Transition}
    → txn ≡ discovered st
    → advance now policy txn snapshot_unavailable ≡ ok t
    → (t.next ≡ discovered st) × (t.effects ≡ [])
unfolding advance
unavailable now policy txn st e h = ground arith

-- An event that takes nothing over leaves on their way what the transaction carries.
pub on_the_way_rest :
    (txn : Transaction) (event : LifecycleEvent)
    → held event txn ≡ in_hand txn
    → carried event ≡ []
    → on_the_way event txn ≡ carrying txn ++ []
on_the_way_rest txn event h c = rw (h, c) (sym (append_assoc (in_hand txn) (buffered txn) []))

module _ (old : List InboundSignal) (from : TxnState) (base : ℕ) (world : World) where
  finished :
      (st : Discovered) (next : Transaction) (d : Driver)
      → next ≡ discovered st
      → Ensures
          (Settled old from base)
          (λ _ d'. d'.txn ≡ discovered st)
          (execute_all world (dispatch_within world 1) [])
          (enter next d)
  unfolding execute_all enter
  finished st next d same = ensured same

  -- A snapshot that is not there changes no state.
  still-discovered :
      (st : Discovered) (d : Driver)
      → d.txn ≡ discovered st
      → Ensures
          (Settled old from base)
          (λ _ d'. d'.txn ≡ discovered st)
          (dispatch world snapshot_unavailable)
          d
  unfolding dispatch
  still-discovered st d e =
      ensured
        (entered world 1 snapshot_unavailable d (λ t h.
          let (same, none') = unavailable (world.now d.log) world.policy d.txn st e h in
          subst
            (λ es.
              Ensures (Settled old from base) (λ _ d'. d'.txn ≡ discovered st)
                (execute_all world (dispatch_within world 1) es) (enter t.next d))
            (sym none') (finished st t.next d same))).holds

  logged :
      (xs : List InboundSignal) (d : Driver) (entry : Entry)
      → handled (entry ∷ d.log) ≡ handled d.log
      → submitted (entry ∷ d.log) ≡ submitted d.log
      → keys (entry ∷ d.log) ≡ keys d.log
      → Consistent old from base xs d
      → Consistent old from base xs (W.write d entry)
  logged xs d entry h s k c = record {
    mail = rw (h, s) c.mail;
    mirror = c.mirror;
    fresh = rw k c.fresh;
    route = c.route;
    legal = c.legal;
  }

  -- An activity that hands no signal over.
  pub called :
      (entry : Entry) (d : Driver)
      → handled (entry ∷ d.log) ≡ handled d.log
      → submitted (entry ∷ d.log) ≡ submitted d.log
      → keys (entry ∷ d.log) ≡ keys d.log
      → Settled old from base d
      → Ensures
          (Settled old from base)
          (λ _ d'. Settled old from base d' × (d'.txn ≡ d.txn))
          (call world entry)
          d
  called entry d h s k settled =
      Ensures-weaken
        (call-Kept old from base (carrying d.txn) world entry d
          (logged (carrying d.txn) d entry h s k settled.consistent))
        (λ _ d' kept. (waited old from base world d d' settled kept, kept.unchanged))

  fetched-Settled :
      (snapshot : Option YnabSnapshot) (st : Discovered) (d : Driver)
      → d.txn ≡ discovered st
      → Settled old from base d
      → Ensures (Settled old from base) (λ _. Settled old from base) (after_fetch world snapshot) d
  unfolding after_fetch
  fetched-Settled (some snap) st d e s =
      dispatch_quiet old from base world (materialized world snap) d tt
        (on_the_way_rest d.txn (materialized world snap) refl refl) s
  fetched-Settled none st d e s =
      Ensures-bind
        (Ensures-both
          (dispatch_quiet old from base world snapshot_unavailable d tt
            (on_the_way_rest d.txn snapshot_unavailable refl refl) s)
          (still-discovered st d e))
        (λ _ d1 (s1, e1).
          Ensures-bind
            (wait_condition-Kept old from base (carrying d1.txn) world is_stirred d1
              (λ d2 k. waited old from base world d1 d2 s1 k) s1.consistent)
            (λ _ d2 (k, met). Ensures-gets _ _ d2 (
              take_stirred-Settled old from base world (materialized world) d2.snapshot_ready d2
                (λ snap. tt) (λ snap. on_the_way_rest d2.txn (materialized world snap) refl refl)
                (ap takes_raw (k.unchanged ∙ e1)) (stirred_by d2 met)
                (waited old from base world d1 d2 s1 k))))

  pub discovered-Settled :
      (st : Discovered) (d : Driver)
      → d.txn ≡ discovered st
      → Settled old from base d
      → Ensures (Settled old from base) (λ _. Settled old from base) (on_discovered world) d
  unfolding on_discovered
  discovered-Settled st d e s = Ensures-gets _ _ d (
      Ensures-bind (called (Entry.fetch_snapshot d.ynab_id) d refl refl refl s) (λ _ d1 (s1, same).
        Ensures-gets _ _ d1 (fetched-Settled (world.fetched d1.log) st d1 (same ∙ e) s1)))

  pub enriching-Settled :
      (st : Enriching) (d : Driver)
      → Settled old from base d
      → Ensures (Settled old from base) (λ _. Settled old from base) (on_enriching world st) d
  unfolding on_enriching
  enriching-Settled st d s =
      Ensures-bind (called (Entry.enrich st.core.snapshot) d refl refl refl s) (λ _ d1 (s1, same).
        Ensures-gets _ _ d1 (
          let event : LifecycleEvent = enriched (world.enriched d1.log) in
          dispatch_quiet old from base world event d1 tt (on_the_way_rest d1.txn event refl refl)
            s1))

  held-Settled :
      (ready : Bool) (d : Driver)
      → takes_raw d.txn ≡ true
      → (ready ≡ true → is_stirred d ≡ true)
      → Settled old from base d
      → Ensures (Settled old from base) (λ _. Settled old from base) (after_hold world ready) d
  unfolding after_hold
  held-Settled false d r met s =
      dispatch_quiet old from base world hold_deadline_reached d tt
        (on_the_way_rest d.txn hold_deadline_reached refl refl) s
  held-Settled true d r met s = Ensures-gets _ _ d (
      take_stirred-Settled old from base world hold_resolved d.snapshot_ready d (λ snap. tt)
        (λ snap. on_the_way_rest d.txn (hold_resolved snap) refl refl) r (stirred_by d (met refl))
        s)

  pub hold-Settled :
      (st : HoldAmazon) (d : Driver)
      → d.txn ≡ hold_amazon st
      → Settled old from base d
      → Ensures (Settled old from base) (λ _. Settled old from base) (on_hold world st) d
  unfolding on_hold
  hold-Settled st d e s =
      Ensures-bind
        (wait_until-Kept old from base (carrying d.txn) world st.amazon_deadline is_stirred d
          (λ d1 k. waited old from base world d d1 s k) s.consistent)
        (λ ready d1 (k, met).
          held-Settled ready d1 (ap takes_raw (k.unchanged ∙ e)) met
            (waited old from base world d d1 s k))
