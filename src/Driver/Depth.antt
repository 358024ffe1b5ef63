-- ===== src/Driver/Depth.antt =====
-- That `_dispatch` ends: its recursion is two calls deep at most, in any state and for any event.
use ynab_agent.Common.{
  ◌≡◌, ◌≢◌, refl, sym, Bool, true, false, ℕ, suc, Option, none, some, List, [], ◌∷◌, Result, ok,
  raise, activity_error, if◌then◌else◌,
}
use mathlib.Core.Path.{subst}
use ynab_agent.Domain.Ids.{ThreadId}
use ynab_agent.Domain.Proposal.{Decision}
use ynab_agent.Domain.Event.{LifecycleEvent, write_verified, VerifyOutcome}
use ynab_agent.Domain.Effect.{
  MessagePurpose, Effect, open_thread, send_message, commit_to_ynab, set_timer, cancel_timer,
  feed_rule_learning, record_auto_action, replay_buffered, close_thread,
}
use ynab_agent.Lifecycle.{advance}
use ynab_agent.Lifecycle.Values.{Transition}
use ynab_agent.Lifecycle.Writes.{commits}
use ynab_agent.Driver.World.{World, Driver, Entry, done, raised, Run}
use ynab_agent.Driver.Action.{◌>>◌, pure, lift, modify, call, suppressed, record_entry}
use ynab_agent.Driver.Effects.{
  set_thread_id, open_thread_with, close, commit, perform, execute, follow, execute_all, transition,
  enter, dispatch_within, dispatch,
}
use ynab_agent.Driver.Effects as E
use ynab_agent.Driver.Transitions.{write_verified-commits, advance-raises}
use ynab_agent.Driver.Performing.{is_commit}
use ynab_agent.Driver.Ensures.{
  Ensures, Done, Done-if, MayRaise, ensured, Ensures-bind, Ensures-gets, Ensures-modify,
  Ensures-pure,
}

-- Nothing is asked of a state that waits.
abbrev pub Anywhere : Driver → Type 0
Anywhere _ = Unit {0}

-- `m` ends: it returns, waits, or is stopped as the workflow may be.
abbrev pub Stops {ℓ} : {A : Type ℓ} → Run A → Driver → Type 0
Stops m d = Ensures Anywhere (λ _ _. Unit {0}) m d

module _ (world : World) where
  call-Stops : (entry : Entry) (d : Driver) → Stops (call world entry) d
  unfolding call
  call-Stops entry d = ensured (
      Done-if Anywhere (λ _ _. Unit {0}) (world.fails (entry ∷ d.log)) (raised activity_error)
        (done tt) (record_entry world entry d) tt tt)

  open_thread_with-Stops :
      (purpose : MessagePurpose) (detail : Option _) (decision : Option Decision) (d : Driver)
      → Stops (open_thread_with world purpose detail decision) d
  unfolding open_thread_with
  open_thread_with-Stops purpose detail decision d =
      Ensures-gets _ _ d
        (Ensures-bind (call-Stops _ d) (λ _ d1 _. Ensures-gets _ _ d1 (ensured tt)))

  send-Stops :
      (purpose : MessagePurpose) (detail : Option _) (decision : Option Decision)
      (thread_id : Option ThreadId) (d : Driver)
      → Stops (E.send world purpose detail decision thread_id) d
  unfolding E.send
  send-Stops purpose detail decision none d = open_thread_with-Stops purpose detail decision d
  send-Stops purpose detail decision (some tid) d =
      Ensures-modify _ _ d (Ensures-gets _ _ _ (call-Stops _ _))

  close-Stops : (thread_id : Option ThreadId) (d : Driver) → Stops (close world thread_id) d
  unfolding close
  close-Stops none d = Ensures-pure tt d tt
  close-Stops (some tid) d = call-Stops _ d

  suppressed-Stops : (entry : Entry) (d : Driver) → Stops (λ d'. suppressed (call world entry d')) d
  unfolding call
  suppressed-Stops entry d = ensured (ended (world.fails (entry ∷ d.log)) _)
    where
      ended :
          (failed : Bool) (d : Driver)
          → Done Anywhere
              (λ (_ : Unit {0}) _. Unit {0})
              (suppressed (if failed then raised activity_error else done tt, d))
      ended true d = tt
      ended false d = tt

  perform-Stops : (effect : Effect) (d : Driver) → Stops (perform world effect) d
  unfolding perform
  perform-Stops (commit_to_ynab _) d = Ensures-pure tt d tt
  perform-Stops open_thread d = open_thread_with-Stops _ none none d
  perform-Stops (send_message purpose detail decision) d =
      Ensures-gets _ _ d (send-Stops purpose detail decision d.thread_id d)
  perform-Stops (feed_rule_learning f) d = call-Stops _ d
  perform-Stops (record_auto_action id) d = suppressed-Stops (Entry.record_auto_action id) d
  perform-Stops close_thread d = Ensures-gets _ _ d (close-Stops d.thread_id d)
  perform-Stops (set_timer k t) d = ensured tt
  perform-Stops (cancel_timer k) d = ensured tt
  perform-Stops (replay_buffered sigs) d = ensured tt

  pub execute-perform :
      (effect : Effect)
      → is_commit effect ≡ false
      → execute world effect ≡ (perform world effect >> pure none)
  unfolding execute
  execute-perform (commit_to_ynab _) h = cc
  execute-perform effect h = refl

  -- Only a commit has a follow-up, and that is its verification.
  abbrev pub Verifies : Option LifecycleEvent → Type 0
  Verifies followup = (outcome : VerifyOutcome) × (followup ≡ some (write_verified outcome))

  pub commit-Verifies :
      (c : Decision) (d : Driver)
      → Ensures Anywhere (λ f _. Verifies f) (execute world (commit_to_ynab c)) d
  unfolding execute commit
  commit-Verifies c d = Ensures-gets _ _ d (
      Ensures-bind (call-Stops _ d) (λ _ d1 _.
        Ensures-bind (call-Stops _ d1)
          (λ _ d2 _. Ensures-gets _ _ d2 (Ensures-pure _ d2 (_, refl)))))

  pub performed-none :
      (effect : Effect) (d : Driver)
      → is_commit effect ≡ false
      → Ensures Anywhere (λ f _. f ≡ none) (execute world effect) d
  performed-none effect d h =
      subst (λ m. Ensures Anywhere (λ f _. f ≡ none) m d) (sym (execute-perform effect h))
        (Ensures-bind (perform-Stops effect d) (λ _ d1 _. Ensures-pure none d1 refl))

  module _ (again : LifecycleEvent → Run (Unit {0})) where
    follow-Stops :
        (followup : Option LifecycleEvent) (d : Driver)
        → ((outcome : VerifyOutcome) → Stops (again (write_verified outcome)) d)
        → Verifies followup
        → Stops (follow again followup) d
    unfolding follow
    follow-Stops followup d stops (outcome, e) =
        subst (λ f. Stops (follow again f) d) (sym e) (ensured (stops outcome).holds)

    execute_all-Stops :
        (es : List Effect) (d : Driver)
        → (commits es ≢ []
            → (outcome : VerifyOutcome) (d' : Driver) → Stops (again (write_verified outcome)) d')
        → Stops (execute_all world again es) d
    unfolding execute_all follow
    execute_all-Stops [] d stops = Ensures-pure tt d tt
    execute_all-Stops (commit_to_ynab c ∷ es) d stops =
        Ensures-bind (commit-Verifies c d) (λ f d1 v.
          Ensures-bind (follow-Stops f d1 (λ o. stops (λ e. cc) o d1) v)
            (λ _ d2 _. execute_all-Stops es d2 (λ _. stops (λ e. cc))))
    execute_all-Stops (effect ∷ es) d stops = Ensures-bind (performed-none effect d refl) (λ f d1 e.
        Ensures-bind (subst (λ f. Stops (follow again f) d1) (sym e) (Ensures-pure tt d1 tt))
          (λ _ d2 _. execute_all-Stops es d2 stops))

  -- What `transition` returns is what `advance` does, and the state is as before.
  abbrev pub Stepped : LifecycleEvent → Driver → Transition → Driver → Type 0
  Stepped event d t d' = (advance (world.now d.log) world.policy d.txn event ≡ ok t) × (d' ≡ d)

  pub transition-Stepped :
      {Rest : Driver → Type 0} (event : LifecycleEvent) (d : Driver)
      → Ensures Rest (Stepped event d) (transition world event) d
  unfolding transition
  transition-Stepped {Rest} event d =
      ensured (lifted (advance (world.now d.log) world.policy d.txn event) refl)
    where
      lifted :
          (r : Result Transition)
          → advance (world.now d.log) world.policy d.txn event ≡ r
          → Done Rest (Stepped event d) (lift r d)
      lifted (ok t) e = (e, refl)
      lifted (raise x) e =
          subst MayRaise (sym (advance-raises (world.now d.log) world.policy d.txn event e)) tt

  -- The first two lines of `_dispatch`, before the loop over the effects.
  pub entered :
      {Rest : Driver → Type 0} {Q : Unit {0} → Driver → Type 0} (n : ℕ) (event : LifecycleEvent)
      (d : Driver)
      → ((t : Transition)
          → advance (world.now d.log) world.policy d.txn event ≡ ok t
          → Ensures Rest Q (execute_all world (dispatch_within world n) t.effects) (enter t.next d))
      → Ensures Rest Q (dispatch_within world (suc n) event) d
  unfolding dispatch_within
  entered {Rest} {Q} n event d loop = Ensures-bind (transition-Stepped event d) (λ t d' (e, same).
      subst
        (λ d1.
          Ensures Rest Q
            (modify (enter t.next) >> execute_all world (dispatch_within world n) t.effects) d1)
        (sym same) (Ensures-modify (enter t.next) _ d (loop t e)))

  verified-Stops :
      (n : ℕ) (outcome : VerifyOutcome) (d : Driver)
      → Stops (dispatch_within world (suc n) (write_verified outcome)) d
  verified-Stops n outcome d = entered n (write_verified outcome) d (λ t e.
      execute_all-Stops (dispatch_within world n) t.effects (enter t.next d) (λ some'.
        absurd (some' (write_verified-commits (world.now d.log) world.policy d.txn outcome e))))

  pub dispatch-Stops :
      (n : ℕ) (event : LifecycleEvent) (d : Driver)
      → Stops (dispatch_within world (suc (suc n)) event) d
  dispatch-Stops n event d = entered (suc n) event d (λ t e.
      execute_all-Stops (dispatch_within world (suc n)) t.effects (enter t.next d)
        (λ _. verified-Stops n))
