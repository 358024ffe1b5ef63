-- ===== src/Driver/Termination.antt =====
-- That two is enough for the depth of `_dispatch`: more changes nothing.
use ynab_agent.Common.{◌≡◌, ◌≢◌, refl, sym, ap, ◌∙◌, ℕ, suc, Option, List, [], ◌∷◌, ok}
use mathlib.Core.Path.{subst, fun_ext}
use ynab_agent.Domain.Event.{LifecycleEvent, write_verified, VerifyOutcome}
use ynab_agent.Domain.Effect.{Effect, commit_to_ynab}
use ynab_agent.Lifecycle.{advance}
use ynab_agent.Lifecycle.Values.{Transition}
use ynab_agent.Lifecycle.Writes.{commits}
use ynab_agent.Driver.World.{World, Driver, Outcome, done, raised, waiting, exhausted, Run}
use ynab_agent.Driver.Action.{◌>>=◌, ◌>>◌, continue}
use ynab_agent.Driver.Effects.{follow, execute_all, dispatch_within, dispatch}
use ynab_agent.Driver.Transitions.{write_verified-commits}
use ynab_agent.Driver.Ensures.{Ensures, Done, Ensures-weaken}
use ynab_agent.Driver.Depth.{
  Anywhere, Verifies, commit-Verifies, performed-none, transition-Stepped, dispatch-Stops,
}

Done-ne-exhausted {ℓ} :
    {A : Type ℓ} (Q : A → Driver → Type 0) (r : Outcome A × Driver)
    → Done Anywhere Q r
    → r.0 ≢ exhausted
Done-ne-exhausted Q (done _, d) h e = cc
Done-ne-exhausted Q (raised _, d) h e = cc
Done-ne-exhausted Q (waiting, d) h e = cc
Done-ne-exhausted Q (exhausted, d) h e = h

-- Where the first part returns, the two continuations return the same.
abbrev Agree {ℓ} : {A : Type ℓ} → (f g : A → Run (Unit {0})) → A → Driver → Type 0
Agree f g a d = f a d ≡ g a d

continue-Agree {ℓ} :
    {A : Type ℓ} (f g : A → Run (Unit {0})) (r : Outcome A × Driver)
    → Done Anywhere (Agree f g) r
    → continue f r ≡ continue g r
continue-Agree f g (done a, d) h = h
continue-Agree f g (raised e, d) h = refl
continue-Agree f g (waiting, d) h = refl
continue-Agree f g (exhausted, d) h = refl

bind-Agree {ℓ} :
    {A : Type ℓ} (first : Run A) (f g : A → Run (Unit {0})) (d : Driver)
    → Ensures Anywhere (Agree f g) first d
    → (first >>= f) d ≡ (first >>= g) d
unfolding ◌>>=◌
bind-Agree first f g d h = continue-Agree f g (first d) h.holds

seq-agree :
    (m m' rest rest' : Run (Unit {0})) (d : Driver)
    → m d ≡ m' d
    → ((d' : Driver) → rest d' ≡ rest' d')
    → (m >> rest) d ≡ (m' >> rest') d
unfolding ◌>>=◌
seq-agree m m' rest rest' d e h =
    ap (continue (λ _. rest)) e ∙ ap (λ r. continue (λ _. r) (m' d)) (fun_ext h)

module _ (world : World) where
  module _ (k l : LifecycleEvent → Run (Unit {0})) where
    follow-agree :
        (followup : Option LifecycleEvent) (d : Driver)
        → ((outcome : VerifyOutcome) → k (write_verified outcome) d ≡ l (write_verified outcome) d)
        → Verifies world followup
        → follow k followup d ≡ follow l followup d
    unfolding follow
    follow-agree followup d h (outcome, e) =
        subst (λ f. follow k f d ≡ follow l f d) (sym e) (h outcome)

    -- The loop over the effects dispatches verifications only, and none where nothing is written.
    execute_all-agree :
        (es : List Effect) (d : Driver)
        → (commits es ≢ []
            → (outcome : VerifyOutcome) (d' : Driver)
            → k (write_verified outcome) d' ≡ l (write_verified outcome) d')
        → execute_all world k es d ≡ execute_all world l es d
    unfolding execute_all follow
    execute_all-agree [] d h = refl
    execute_all-agree (commit_to_ynab c ∷ es) d h = bind-Agree _ _ _ d (
        Ensures-weaken (commit-Verifies world c d) (λ f d1 v.
          seq-agree _ _ _ _ d1 (follow-agree f d1 (λ o. h (λ e. cc) o d1) v)
            (λ d2. execute_all-agree es d2 (λ _. h (λ e. cc)))))
    execute_all-agree (effect ∷ es) d h = bind-Agree _ _ _ d (
        Ensures-weaken (performed-none world effect d refl) (λ f d1 e.
          seq-agree _ _ _ _ d1 (subst (λ f. follow k f d1 ≡ follow l f d1) (sym e) refl)
            (λ d2. execute_all-agree es d2 h)))

  -- Two depths agree on an event if they do on the effects of its transition.
  entered-agree :
      (m n : ℕ) (event : LifecycleEvent) (d : Driver)
      → ((t : Transition) (d' : Driver)
          → advance (world.now d.log) world.policy d.txn event ≡ ok t
          → execute_all world (dispatch_within world m) t.effects d'
            ≡ execute_all world (dispatch_within world n) t.effects d')
      → dispatch_within world (suc m) event d ≡ dispatch_within world (suc n) event d
  unfolding dispatch_within
  entered-agree m n event d h = bind-Agree _ _ _ d (
      Ensures-weaken (transition-Stepped world event d)
        (λ t d1 (e, same). seq-agree _ _ _ _ d1 refl (λ d2. h t d2 e)))

  verified-agree :
      (m n : ℕ) (outcome : VerifyOutcome) (d : Driver)
      → dispatch_within world (suc m) (write_verified outcome) d
        ≡ dispatch_within world (suc n) (write_verified outcome) d
  verified-agree m n outcome d = entered-agree m n (write_verified outcome) d (λ t d' e.
      execute_all-agree _ _ t.effects d' (λ some'.
        absurd (some' (write_verified-commits (world.now d.log) world.policy d.txn outcome e))))

  -- A dispatch ends, in any state and for any event: with the depth of two its recursion is never
  -- cut off, and any greater depth gives the same outcome and the same state.
  pub dispatch-terminates :
      (event : LifecycleEvent) (d : Driver)
      → ((dispatch world event d).0 ≢ exhausted)
        × ((n : ℕ) → dispatch_within world (suc (suc n)) event d ≡ dispatch world event d)
  unfolding dispatch
  dispatch-terminates event d = (
    Done-ne-exhausted _ _ (dispatch-Stops world 0 event d).holds,
    λ n.
        entered-agree (suc n) 1 event d
          (λ t d' e. execute_all-agree _ _ t.effects d' (λ _. verified-agree n 0)),
  )
