-- ===== src/Driver/Keeping.antt =====
-- That activities, waits and the signals that arrive meanwhile keep the invariant.
use ynab_agent.Common.{
  ◌≡◌, refl, ap, ◌∙◌, Bool, true, false, ℕ, Option, none, some, List, [], ◌∷◌, ◌++◌, activity_error,
  if◌then◌else◌,
}
use mathlib.Core.List.{append_assoc}
use ynab_agent.Domain.Ids.{Datetime, Timedelta}
use ynab_agent.Domain.Enums.{TxnState}
use ynab_agent.Domain.Signal.{InboundSignal}
use ynab_agent.Driver.World.{
  World, Driver, Entry, Log, Arrival, arrived, submit_inbound, notify_snapshot, interpret, converge,
  send, receive, receive_all, Outcome, done, raised, waiting, Run, wait,
}
use ynab_agent.Driver.World as W
use ynab_agent.Driver.Action.{
  record_entry, call, wait_condition, wait_until, wait_at_most, wait_forever,
}
use ynab_agent.Driver.Ensures.{Ensures, Done, ensured, Done-if, Ensures-bind, Ensures-pure}
use ynab_agent.Driver.Consistent.{Consistent, Kept, handled, submitted}

module _ (old : List InboundSignal) (from : TxnState) (base : ℕ) where
  module _ (between : List InboundSignal) where
    receive-mail :
        (xs ys zs : List InboundSignal) (sig : InboundSignal)
        → xs ++ (between ++ ys) ≡ old ++ zs
        → xs ++ (between ++ (ys ++ sig ∷ [])) ≡ old ++ (zs ++ sig ∷ [])
    receive-mail xs ys zs sig h =
        simp (← append_assoc) (ap (λ l. l ++ sig ∷ []) (append_assoc xs between ys ∙ h))

    receive-Kept :
        (a : Arrival) (d : Driver)
        → Consistent old from base between d
        → Kept old from base between d.txn (receive d a)
    unfolding receive
    receive-Kept (submit_inbound sig) d c = record {
      consistent = record {
        mail = receive-mail (handled d.log) d.inbound (submitted d.log) sig c.mail;
        mirror = c.mirror;
        fresh = c.fresh;
        route = c.route;
        legal = c.legal;
      };
      unchanged = refl;
    }
    receive-Kept (notify_snapshot snap) d c = record {
      consistent = record {
        mail = c.mail;
        mirror = c.mirror;
        fresh = c.fresh;
        route = c.route;
        legal = c.legal;
      };
      unchanged = refl;
    }

    receive_all-Kept :
        (as' : List Arrival) (d : Driver)
        → Consistent old from base between d
        → Kept old from base between d.txn (receive_all d as')
    unfolding receive_all
    receive_all-Kept [] d c = record { consistent = c; unchanged = refl }
    receive_all-Kept (a ∷ as') d c =
        let k = receive-Kept a d c in
        let rest = receive_all-Kept as' (receive d a) k.consistent in
        record { consistent = rest.consistent; unchanged = rest.unchanged ∙ k.unchanged }

    pub record_entry-Kept :
        (world : World) (entry : Entry) (d : Driver)
        → Consistent old from base between (W.write d entry)
        → Kept old from base between d.txn (record_entry world entry d)
    unfolding record_entry
    record_entry-Kept world entry d c =
        receive_all-Kept (world.arrivals (entry ∷ d.log)) (W.write d entry) c

    -- An activity, where the invariant holds once the call is logged.
    pub call-Kept :
        {Rest : Driver → Type 0} (world : World) (entry : Entry) (d : Driver)
        → Consistent old from base between (W.write d entry)
        → Ensures Rest (λ _. Kept old from base between d.txn) (call world entry) d
    unfolding call
    call-Kept {Rest} world entry d c = ensured (
        Done-if Rest (λ _. Kept old from base between d.txn) (world.fails (entry ∷ d.log))
          (raised activity_error) (done tt) (record_entry world entry d) tt
          (record_entry-Kept world entry d c))

    wait-Kept :
        (world : World) (timeout : Option Timedelta) (d : Driver)
        → Consistent old from base between d
        → Kept old from base between d.txn (record_entry world (wait timeout) d)
    wait-Kept world timeout d c = record_entry-Kept world (wait timeout) d (record {
      mail = c.mail;
      mirror = c.mirror;
      fresh = c.fresh;
      route = c.route;
      legal = c.legal;
    })

    pub wait_condition-Kept :
        {Rest : Driver → Type 0} (world : World) (predicate : Driver → Bool) (d : Driver)
        → ((d' : Driver) → Kept old from base between d.txn d' → Rest d')
        → Consistent old from base between d
        → Ensures Rest
            (λ _ d'. Kept old from base between d.txn d' × (predicate d' ≡ true))
            (wait_condition world predicate)
            d
    unfolding wait_condition
    wait_condition-Kept {Rest} world predicate d rests c =
        ensured (met (predicate (record_entry world (wait none) d)) refl)
      where
        d1 : Driver
        d1 = record_entry world (wait none) d

        met :
            (b : Bool)
            → predicate d1 ≡ b
            → Done Rest
                (λ (_ : Unit {0}) d'. Kept old from base between d.txn d' × (predicate d' ≡ true))
                (if b then done tt else waiting, d1)
        met true e = (wait-Kept world none d c, e)
        met false e = rests _ (wait-Kept world none d c)

    pub wait_at_most-Kept :
        {Rest : Driver → Type 0} (world : World) (timeout : Timedelta) (predicate : Driver → Bool)
        (d : Driver)
        → ((d' : Driver) → Kept old from base between d.txn d' → Rest d')
        → Consistent old from base between d
        → Ensures Rest
            (λ met d'. Kept old from base between d.txn d' × (met ≡ true → predicate d' ≡ true))
            (wait_at_most world timeout predicate)
            d
    unfolding wait_at_most
    wait_at_most-Kept {Rest} world timeout predicate d rests c = ensured (
        met (world.times_out (wait (some timeout) ∷ d.log))
          (predicate (record_entry world (wait (some timeout)) d)) refl)
      where
        d1 : Driver
        d1 = record_entry world (wait (some timeout)) d

        met :
            (late b : Bool)
            → predicate d1 ≡ b
            → Done Rest
                (λ met d'. Kept old from base between d.txn d' × (met ≡ true → predicate d' ≡ true))
                (if late then done false else if b then done true else waiting, d1)
        met true b e = (wait-Kept world (some timeout) d c, λ h. cc)
        met false true e = (wait-Kept world (some timeout) d c, λ h. e)
        met false false e = rests _ (wait-Kept world (some timeout) d c)

    pub wait_until-Kept :
        {Rest : Driver → Type 0} (world : World) (deadline : Datetime) (predicate : Driver → Bool)
        (d : Driver)
        → ((d' : Driver) → Kept old from base between d.txn d' → Rest d')
        → Consistent old from base between d
        → Ensures Rest
            (λ met d'. Kept old from base between d.txn d' × (met ≡ true → predicate d' ≡ true))
            (wait_until world deadline predicate)
            d
    unfolding wait_until
    wait_until-Kept world deadline predicate d rests c =
        ensured (wait_at_most-Kept world _ predicate d rests c).holds

    pub wait_forever-Kept :
        {Rest : Driver → Type 0} (world : World) (predicate : Driver → Bool) (d : Driver)
        → ((d' : Driver) → Kept old from base between d.txn d' → Rest d')
        → Consistent old from base between d
        → Ensures Rest
            (λ met d'. Kept old from base between d.txn d' × (met ≡ true → predicate d' ≡ true))
            (wait_forever world predicate)
            d
    unfolding wait_forever
    wait_forever-Kept world predicate d rests c =
        Ensures-bind (wait_condition-Kept world predicate d rests c)
          (λ a d' (k, e). Ensures-pure true d' (k, λ _. e))
