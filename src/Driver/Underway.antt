-- ===== src/Driver/Underway.antt =====
-- The invariant in the middle of a dispatch, and that the single calls of an effect keep it.
use ynab_agent.Common.{
  ◌≡◌, refl, sym, ap, ◌∙◌, Bool, true, false, ℕ, suc, Option, none, some, List, ◌∷◌, ◌++◌, arith,
  String, activity_error, if◌then◌else◌,
}
use mathlib.Core.Path.{subst}
use ynab_agent.Domain.Ids.{ThreadId}
use ynab_agent.Domain.Enums.{TxnState}
use ynab_agent.Domain.Proposal.{Decision}
use ynab_agent.Domain.Signal.{InboundSignal}
use ynab_agent.Domain.Transaction.{Transaction}
use ynab_agent.Domain.Effect.{MessagePurpose}
use ynab_agent.Lifecycle.Values.{state}
use ynab_agent.Lifecycle.Validity.{IsValid}
use ynab_agent.Lifecycle.Writes.{unverified}
use ynab_agent.Driver.World.{World, Driver, Entry, done, raised}
use ynab_agent.Driver.Action.{call, suppressed}
use ynab_agent.Driver.Effects.{
  adopt, thread_of, set_thread_id, proposal_of, open_thread_with, asked, close, commit, perform,
}
use ynab_agent.Driver.Effects as E
use ynab_agent.Driver.Ensures.{
  Ensures, Done, ensured, Ensures-bind, Ensures-gets, Ensures-modify, Ensures-pure, Ensures-weaken,
}
use ynab_agent.Driver.Consistent.{
  Settled, Consistent, Kept, carrying, Mirrors, keys, handled, submitted, Walk,
}
use ynab_agent.Driver.Keeping.{call-Kept, record_entry-Kept}
use ynab_agent.Driver.Transitions.{is_discovered}

-- What a new thread leaves as it was.
pub record Alike (txn txn' : Transaction) : Type 0 where
  pub states : state txn' ≡ state txn
  pub carries : carrying txn' ≡ carrying txn
  pub owes : unverified txn' ≡ unverified txn
  pub places : is_discovered txn' ≡ is_discovered txn

adopt-Alike : (txn : Transaction) (tid : ThreadId) → Alike txn (adopt txn tid)
adopt-Alike txn tid = ground arith

adopt-IsValid : (txn : Transaction) (tid : ThreadId) → IsValid txn → IsValid (adopt txn tid)
adopt-IsValid txn tid v = ground arith

adopt-Mirrors :
    (txn : Transaction) (tid : ThreadId)
    → is_discovered txn ≡ false
    → Mirrors (thread_of (adopt txn tid)) (some tid)
adopt-Mirrors txn tid placed = ground arith

module _ (old : List InboundSignal) (from : TxnState) (base : ℕ) where
  -- The invariant in the middle of a dispatch: `xs` are still to be put back, and `owed` are still
  -- to be written.
  pub record Underway (xs : List InboundSignal) (owed : List Decision) (d : Driver) : Type 0 where
    pub consistent : Consistent old from base (carrying d.txn ++ xs) d
    pub owes : unverified d.txn ≡ owed
    pub placed : is_discovered d.txn ≡ false

  module _ (xs : List InboundSignal) (owed : List Decision) where
    Kept-Underway :
        (d d' : Driver)
        → Underway xs owed d
        → Kept old from base (carrying d.txn ++ xs) d.txn d'
        → Underway xs owed d'
    Kept-Underway d d' u k = record {
      consistent =
          subst (λ txn. Consistent old from base (carrying txn ++ xs) d') (sym k.unchanged)
            k.consistent;
      owes = ap unverified k.unchanged ∙ u.owes;
      placed = ap is_discovered k.unchanged ∙ u.placed;
    }

    -- An activity that handles no signal and sends no message.
    pub call-Underway :
        (world : World) (entry : Entry) (d : Driver)
        → handled (entry ∷ d.log) ≡ handled d.log
        → submitted (entry ∷ d.log) ≡ submitted d.log
        → keys (entry ∷ d.log) ≡ keys d.log
        → Underway xs owed d
        → Ensures (Settled old from base) (λ _. Underway xs owed) (call world entry) d
    call-Underway world entry d h s k u =
        let c = u.consistent in
        Ensures-weaken
          (call-Kept old from base (carrying d.txn ++ xs) world entry d (record {
            mail = rw (h, s) c.mail;
            mirror = c.mirror;
            fresh = rw k c.fresh;
            route = c.route;
            legal = c.legal;
          }))
          (λ a d' kept. Kept-Underway d d' u kept)

    set_thread_id-Underway :
        (tid : ThreadId) (d : Driver) → Underway xs owed d → Underway xs owed (set_thread_id tid d)
    unfolding set_thread_id
    set_thread_id-Underway tid d u =
        let c = u.consistent in
        let a = adopt-Alike d.txn tid in
        record {
          consistent = record {
            mail = rw a.carries c.mail;
            mirror = adopt-Mirrors d.txn tid u.placed;
            fresh = c.fresh;
            route = subst (Walk from) (sym a.states) c.route;
            legal = adopt-IsValid d.txn tid c.legal;
          };
          owes = a.owes ∙ u.owes;
          placed = a.places ∙ u.placed;
        }

    pub open_thread_with-Underway :
        (world : World) (purpose : MessagePurpose) (detail : Option String)
        (decision : Option Decision) (d : Driver)
        → Underway xs owed d
        → Ensures
            (Settled old from base)
            (λ _. Underway xs owed)
            (open_thread_with world purpose detail decision)
            d
    unfolding open_thread_with
    open_thread_with-Underway world purpose detail decision d u =
        Ensures-gets (λ d. d) _ d
          (Ensures-bind (call-Underway world _ d refl refl refl u) (λ _ d' u'.
            Ensures-gets _ _ d' (ensured (set_thread_id-Underway (world.opened d'.log) d' u'))))

    pub send-Underway :
        (world : World) (purpose : MessagePurpose) (detail : Option String)
        (decision : Option Decision) (thread_id : Option ThreadId) (d : Driver)
        → Underway xs owed d
        → Ensures
            (Settled old from base)
            (λ _. Underway xs owed)
            (E.send world purpose detail decision thread_id)
            d
    unfolding E.send
    send-Underway world purpose detail decision none d u =
        open_thread_with-Underway world purpose detail decision d u
    send-Underway world purpose detail decision (some tid) d u =
        let c = u.consistent in
        let next : Driver = record d { action_seq = suc d.action_seq } in
        Ensures-modify _ _ d (
          Ensures-gets _ _ next (
            Ensures-weaken
              (call-Kept old from base (carrying d.txn ++ xs) world _ next (record {
                mail = c.mail;
                mirror = c.mirror;
                fresh = (omega arith, c.fresh);
                route = c.route;
                legal = c.legal;
              }))
              (λ a d' kept. Kept-Underway d d' u kept)))

    pub close-Underway :
        (world : World) (thread_id : Option ThreadId) (d : Driver)
        → Underway xs owed d
        → Ensures (Settled old from base) (λ _. Underway xs owed) (close world thread_id) d
    unfolding close
    close-Underway world none d u = Ensures-pure tt d u
    close-Underway world (some tid) d u = call-Underway world _ d refl refl refl u

    -- Whether the ledger of automatic actions answers or not.
    Done-suppressed :
        (failed : Bool) (d : Driver)
        → Underway xs owed d
        → Done
            (Settled old from base)
            (λ (_ : Unit {0}). Underway xs owed)
            (suppressed (if failed then raised activity_error else done tt, d))
    Done-suppressed true d u = u
    Done-suppressed false d u = u

    pub suppressed-Underway :
        (world : World) (ynab_id : String) (d : Driver)
        → Underway xs owed d
        → Ensures
            (Settled old from base)
            (λ _. Underway xs owed)
            (λ d'. suppressed (call world (Entry.record_auto_action ynab_id) d'))
            d
    unfolding call
    suppressed-Underway world ynab_id d u =
        let entry = Entry.record_auto_action ynab_id in
        let c = u.consistent in
        ensured (
          Done-suppressed (world.fails (entry ∷ d.log)) _ (
            Kept-Underway d _ u (
              record_entry-Kept old from base (carrying d.txn ++ xs) world entry d (record {
                mail = c.mail;
                mirror = c.mirror;
                fresh = c.fresh;
                route = c.route;
                legal = c.legal;
              }))))
