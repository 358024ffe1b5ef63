-- ===== src/Driver/Action.antt =====
-- workflow/txn_workflow.py: how the workflow's code is put together from awaits and assignments.
-- What was assigned before a raise stays assigned, so the state comes back beside every outcome.
use ynab_agent.Common.{
  Bool, true, false, none, some, List, [], ◌∷◌, Result, ok, raise, index_error, value_error,
  key_error, activity_error, if◌then◌else◌,
}
use ynab_agent.Common.Int.{ℤ, pos, negsuc, ◌-ℤ◌}
use ynab_agent.Domain.Ids.{Datetime, Timedelta}
use ynab_agent.Domain.Signal.{InboundSignal}
use ynab_agent.Driver.World.{
  World, Driver, Entry, wait, write, receive_all, Outcome, done, raised, waiting, exhausted, Run,
}

module _ {ℓ} {A : Type ℓ} where
  abbrev pub pure : A → Run A
  pure a d = (done a, d)

  abbrev pub gets : (Driver → A) → Run A
  gets f d = (done (f d), d)

  abbrev pub lift : Result A → Run A
  lift (ok a) d = (done a, d)
  lift (raise e) d = (raised e, d)

abbrev pub modify : (Driver → Driver) → Run (Unit {0})
modify f d = (done tt, f d)

module _ {ℓ κ} {A : Type ℓ} {B : Type κ} where
  abbrev pub continue : (A → Run B) → Outcome A × Driver → Outcome B × Driver
  continue rest (done a, d) = rest a d
  continue rest (raised e, d) = (raised e, d)
  continue rest (waiting, d) = (waiting, d)
  continue rest (exhausted, d) = (exhausted, d)

  infixl 5 ◌>>=◌ ◌>>◌
  unfoldable pub ◌>>=◌ : Run A → (A → Run B) → Run B
  (first >>= rest) d = continue rest (first d)

  abbrev pub ◌>>◌ : Run A → Run B → Run B
  first >> rest = first >>= λ _. rest

-- `try: ... except ActivityError: pass`
abbrev pub suppressed : Outcome (Unit {0}) × Driver → Outcome (Unit {0}) × Driver
suppressed (raised activity_error, d) = (done tt, d)
suppressed (raised value_error, d) = (raised value_error, d)
suppressed (raised index_error, d) = (raised index_error, d)
suppressed (raised key_error, d) = (raised key_error, d)
suppressed (done a, d) = (done a, d)
suppressed (waiting, d) = (waiting, d)
suppressed (exhausted, d) = (exhausted, d)

-- `timeout = deadline - workflow.now()`, at least zero.
abbrev at_least_zero : ℤ → ℤ
at_least_zero (pos n) = pos n
at_least_zero (negsuc _) = pos 0

-- `len(self._inbound) > 0`
abbrev pub has_inbound : Driver → Bool
has_inbound d = elim d.inbound [ [] ↦ false | _ ∷ _ ↦ true ]

-- `self._snapshot_ready is not None or len(self._inbound) > 0`
abbrev pub is_stirred : Driver → Bool
is_stirred d = elim d.snapshot_ready [ none ↦ has_inbound d | some _ ↦ true ]

-- `self._inbound.popleft()`
unfoldable pub pop_from : List InboundSignal → Run InboundSignal
pop_from [] d = (raised index_error, d)
pop_from (sig ∷ rest) d = (done sig, record d { inbound = rest })

unfoldable pub pop_left : Run InboundSignal
unfolding pop_from
pop_left d = pop_from d.inbound d

module _ (world : World) where
  -- The log with a new entry, and what arrives by the time that it is over.
  unfoldable pub record_entry : Entry → Driver → Driver
  record_entry entry d = receive_all (write d entry) (world.arrivals (entry ∷ d.log))

  -- `workflow.execute_activity` of an activity.
  unfoldable pub call : Entry → Run (Unit {0})
  unfolding record_entry
  call entry d =
      (if world.fails (entry ∷ d.log) then raised activity_error else done tt, record_entry entry d)

  -- `workflow.wait_condition`, without a timeout.
  unfoldable pub wait_condition : (Driver → Bool) → Run (Unit {0})
  unfolding record_entry
  wait_condition predicate d =
      let d' = record_entry (wait none) d in (if predicate d' then done tt else waiting, d')

  unfoldable pub wait_at_most : Timedelta → (Driver → Bool) → Run Bool
  unfolding record_entry
  wait_at_most timeout predicate d =
      let d' = record_entry (wait (some timeout)) d in
      (
        if world.times_out (wait (some timeout) ∷ d.log)
            then done false
            else if predicate d'
            then done true
            else waiting,
        d',
      )

  -- `_wait_until`
  unfoldable pub wait_until : Datetime → (Driver → Bool) → Run Bool
  unfolding wait_at_most
  wait_until deadline predicate d =
      wait_at_most (at_least_zero (deadline -ℤ world.now d.log)) predicate d

  -- `_wait_forever`
  unfoldable pub wait_forever : (Driver → Bool) → Run Bool
  wait_forever predicate = do wait_condition predicate; pure true
