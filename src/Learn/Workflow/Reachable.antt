-- ===== src/Learn/Workflow/Reachable.antt =====
-- What holds of the registry after any history of signals.
use ynab_agent.Common.{arith, String, List, [], ◌∷◌}
use ynab_agent.Domain.Ids.{Datetime}
use ynab_agent.Learn.Registry.{RegistryState}
use ynab_agent.Learn.Registry.Soundness.{
  IsSoundRegistry, record_learning-IsSound, bless_rule-IsSound, mark_offered-IsSound,
  bless_by_id-IsSound, revoke_payee-IsSound,
}
use ynab_agent.Learn.Workflow.{
  RegistrySignal, record_feed, bless_command, bless_existing, revoke, offer_sent, empty_registry,
  handle, replay,
}

module _ (lower : String → String) where
  handle-IsSound :
      (s : RegistryState) (now : Datetime) (signal : RegistrySignal)
      → IsSoundRegistry s
      → IsSoundRegistry (handle lower s now signal)
  unfolding handle
  handle-IsSound s now (record_feed feed id) h = record_learning-IsSound s now h feed id
  handle-IsSound s now (bless_command pattern action id) h =
      bless_rule-IsSound s now h pattern action id
  handle-IsSound s now (bless_existing id) h = bless_by_id-IsSound s now h id
  handle-IsSound s now (revoke payee) h = revoke_payee-IsSound s now h lower payee
  handle-IsSound s now (offer_sent id) h = mark_offered-IsSound s now h id

  replay-IsSound_from :
      (signals : List (Datetime × RegistrySignal)) (s : RegistryState)
      → IsSoundRegistry s
      → IsSoundRegistry (replay lower s signals)
  unfolding replay
  replay-IsSound_from [] s h = h
  replay-IsSound_from ((now, signal) ∷ signals) s h =
      replay-IsSound_from signals (handle lower s now signal) (handle-IsSound s now signal h)

  -- After any history of signals every rule that the owner granted is trusted, every rule that is
  -- eligible for a grant was confirmed at least three times, and the audit is within its cap.
  pub replay-IsSound :
      (signals : List (Datetime × RegistrySignal))
      → IsSoundRegistry (replay lower empty_registry signals)
  replay-IsSound signals =
      replay-IsSound_from signals empty_registry
        (record { rules_sound = tt; audit_bounded = omega arith })
