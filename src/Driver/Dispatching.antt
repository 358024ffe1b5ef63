-- ===== src/Driver/Dispatching.antt =====
-- That `_dispatch`, with its follow-ups, keeps the invariant and leaves no write unverified.
use ynab_agent.Common.{
  ◌≡◌, ◌≢◌, refl, sym, false, ℕ, Option, none, some, List, [], ◌∷◌, ◌++◌, arith, ok,
  String-discrete,
}
use mathlib.Core.List.{append-nil}
use mathlib.Core.Path.{subst}
use ynab_agent.Domain.Enums.{TxnState}
use ynab_agent.Domain.Ids.{ThreadId}
use ynab_agent.Domain.Proposal.{Decision}
use ynab_agent.Domain.Signal.{InboundSignal}
use ynab_agent.Domain.Transaction.{Transaction}
use ynab_agent.Domain.Event.{LifecycleEvent, write_verified, VerifyOutcome}
use ynab_agent.Domain.Effect.{Effect, commit_to_ynab}
use ynab_agent.Lifecycle.{advance}
use ynab_agent.Lifecycle.Values.{Transition}
use ynab_agent.Lifecycle.Validity.{advance-IsValid}
use ynab_agent.Lifecycle.Writes.{unverified, commits}
use ynab_agent.Policy.Converge.{classify_verify, target_of}
use ynab_agent.Driver.World.{World, Driver, Entry, Run}
use ynab_agent.Driver.Effects.{commit, execute, follow, execute_all, enter, thread_of, mirrored}
use ynab_agent.Driver.Ensures.{Ensures, ensured, Ensures-bind, Ensures-gets, Ensures-pure}
use ynab_agent.Driver.Consistent.{Settled, Consistent, Mirrors}
use ynab_agent.Driver.Transitions.{replays, advance-Walk}
use ynab_agent.Driver.Depth.{execute-perform}
use ynab_agent.Driver.Underway.{Underway, call-Underway}
use ynab_agent.Driver.Performing.{perform-Underway, is_commit}

unverified_once :
    (txn : Transaction) {c : Decision} {cs : List Decision} → unverified txn ≡ c ∷ cs → cs ≡ []
unverified_once txn u = ground arith

pub mirrored-Mirrors : (named mirror : Option ThreadId) → Mirrors named (mirrored named mirror)
mirrored-Mirrors none mirror = tt
mirrored-Mirrors (some tid) mirror = refl

module _ (old : List InboundSignal) (from : TxnState) (base : ℕ) (world : World) where
  abbrev Unfollowed : List InboundSignal → List Decision → Option LifecycleEvent → Driver → Type 0
  Unfollowed xs owed followup d = (followup ≡ none) × Underway old from base xs owed d

  executed :
      (effect : Effect) (es : List Effect) (xs : List InboundSignal) (d : Driver)
      → is_commit effect ≡ false
      → Underway old from base (xs ++ replays (effect ∷ es)) (commits (effect ∷ es)) d
      → Ensures
          (Settled old from base)
          (Unfollowed (xs ++ replays es) (commits es))
          (execute world effect)
          d
  executed effect es xs d h u =
      subst (λ m. Ensures (Settled old from base) (Unfollowed (xs ++ replays es) (commits es)) m d)
        (sym (execute-perform world effect h))
        (Ensures-bind (perform-Underway old from base world xs effect es d u h)
          (λ _ d' u'. Ensures-pure none d' (refl, u')))

  -- A verification that is fed back does away with the one unverified write.
  abbrev pub Follows : (LifecycleEvent → Run (Unit {0})) → Type 0
  Follows again =
      (outcome : VerifyOutcome) (xs : List InboundSignal) (c : Decision) (d : Driver)
      → Underway old from base xs (c ∷ []) d
      → Ensures (Settled old from base) (λ _. Underway old from base xs [])
          (again (write_verified outcome)) d

  -- A commit asks for the verification of its write.
  commit-Underway :
      (xs : List InboundSignal) (owed : List Decision) (c : Decision) (d : Driver)
      → Underway old from base xs owed d
      → Ensures
          (Settled old from base)
          (λ followup d'.
            (outcome : VerifyOutcome) × (followup ≡ some (write_verified outcome))
            × Underway old from base xs owed d')
          (commit world c)
          d
  unfolding commit
  commit-Underway xs owed c d u = Ensures-gets _ _ d (
      Ensures-bind
        (call-Underway old from base xs owed world (Entry.commit d.ynab_id c) d refl refl refl u)
        (λ _ d1 u1.
          Ensures-bind
            (call-Underway old from base xs owed world (Entry.read_back d.ynab_id) d1 refl refl refl
              u1)
            (λ _ d2 u2. Ensures-gets _ _ d2 (
              Ensures-pure _ d2 (
                classify_verify String-discrete world.digest (world.read d2.log) (target_of c),
                refl,
                u2,
              )))))

  module _ (again : LifecycleEvent → Run (Unit {0})) where
    follow-Underway :
        (follows : Follows again) (xs : List InboundSignal) (c : Decision)
        (followup : Option LifecycleEvent) (outcome : VerifyOutcome) (d : Driver)
        → followup ≡ some (write_verified outcome)
        → Underway old from base xs (c ∷ []) d
        → Ensures
            (Settled old from base)
            (λ _. Underway old from base xs [])
            (follow again followup)
            d
    unfolding follow
    follow-Underway follows xs c followup outcome d e u =
        subst
          (λ f.
            Ensures (Settled old from base) (λ _. Underway old from base xs []) (follow again f) d)
          (sym e) (ensured (follows outcome xs c d u).holds)

    unfollowed :
        {xs : List InboundSignal} {owed : List Decision} (followup : Option LifecycleEvent)
        (d : Driver)
        → followup ≡ none
        → Underway old from base xs owed d
        → Ensures
            (Settled old from base)
            (λ _. Underway old from base xs owed)
            (follow again followup)
            d
    unfolding follow
    unfollowed {xs} {owed} followup d e u =
        subst
          (λ f.
            Ensures (Settled old from base) (λ _. Underway old from base xs owed) (follow again f)
              d)
          (sym e) (Ensures-pure tt d u)

    execute_commit :
        (xs : List InboundSignal) (c : Decision) (d : Driver)
        → Underway old from base xs (c ∷ []) d
        → Ensures
            (Settled old from base)
            (λ followup d'.
              (outcome : VerifyOutcome) × (followup ≡ some (write_verified outcome))
              × Underway old from base xs (c ∷ []) d')
            (execute world (commit_to_ynab c))
            d
    unfolding execute
    execute_commit xs c d u = commit-Underway xs (c ∷ []) c d u

    -- The loop of a dispatch puts back and writes all that it has to. Where it writes nothing, it
    -- dispatches nothing.
    pub execute_all-Underway :
        (es : List Effect) (xs : List InboundSignal) (d : Driver)
        → (commits es ≢ [] → Follows again)
        → Underway old from base (xs ++ replays es) (commits es) d
        → Ensures
            (Settled old from base)
            (λ _. Underway old from base xs [])
            (execute_all world again es)
            d
    unfolding execute_all
    execute_all-Underway [] xs d follows u =
        Ensures-pure tt d (subst (λ l. Underway old from base l [] d) (append-nil xs) u)
    execute_all-Underway (commit_to_ynab c ∷ es) xs d follows u =
        let once = unverified_once d.txn u.owes in
        let ys : List InboundSignal = xs ++ replays es in
        Ensures-bind
          (execute_commit ys c d (subst (λ cs. Underway old from base ys (c ∷ cs) d) once u))
          (λ followup d1 (outcome, e, u1).
            Ensures-bind (follow-Underway (follows (λ e. cc)) ys c followup outcome d1 e u1)
              (λ _ d2 u2.
                execute_all-Underway es xs d2 (λ some'. absurd (some' once))
                  (subst (λ cs. Underway old from base ys cs d2) (sym once) u2)))
    execute_all-Underway (effect ∷ es) xs d follows u =
        Ensures-bind (executed effect es xs d refl u) (λ followup d1 (e, u1).
          Ensures-bind (unfollowed followup d1 e u1)
            (λ _ d2 u2. execute_all-Underway es xs d2 follows u2))

  pub enter-Consistent :
      (xs : List InboundSignal) (event : LifecycleEvent) (d : Driver) {t : Transition}
      → advance (world.now d.log) world.policy d.txn event ≡ ok t
      → Consistent old from base xs d
      → Consistent old from base xs (enter t.next d)
  unfolding enter
  enter-Consistent xs event d {t} e c = record {
    mail = c.mail;
    mirror = mirrored-Mirrors (thread_of t.next) d.thread_id;
    fresh = c.fresh;
    route = advance-Walk (world.now d.log) world.policy d.txn event e c.route;
    legal = advance-IsValid (world.now d.log) world.policy d.txn event c.legal e;
  }
