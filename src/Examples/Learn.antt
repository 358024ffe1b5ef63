-- ===== src/Examples/Learn.antt =====
-- The rule registry at concrete histories.
use ynab_agent.Common.{◌≡◌, ◌≢◌, refl, String, none, some, List, [], ◌∷◌, All, find?, arith}
use text.Mathlib.TextEquality.{eq_iff}
use ynab_agent.Domain.Ids.{Datetime}
use ynab_agent.Domain.Effect.{FeedRuleLearning, confirm, correct}
use ynab_agent.Policy.Gate.{ask, evaluate_gate}
use ynab_agent.Learn.Transitions.{has_id}
use ynab_agent.Learn.Handler.{rule_action_from_decision}
use ynab_agent.Learn.Registry.{
  RegistryState, record_learning, revoke_payee, rules_for_payee, pending_offers,
}
use ynab_agent.Learn.Registry.Soundness.{IsSoundRegistry}
use ynab_agent.Learn.Registry.Grants.{Demoted, correction_demotes}
use ynab_agent.Learn.Registry.Revocation.{revoke_payee-ask}
use ynab_agent.Learn.Registry.Offers.{Confirmation, confirmations, revoked_never_reoffered}
use ynab_agent.Learn.Workflow.{RegistrySignal, record_feed, revoke, empty_registry, replay}
use ynab_agent.Learn.Workflow.Reachable.{replay-IsSound}
use ynab_agent.Examples.Samples.{
  now, coffee, answer, automatic, dining_action, blessed_rule, cautious, no_actions, same_text,
}

abbrev registry : RegistryState
registry = record { rules = blessed_rule ∷ []; audit = [] }

abbrev confirmed_feed : FeedRuleLearning
confirmed_feed = record {
  event = confirm;
  payee = "Coffee Bar";
  decision = some answer;
  prior = none;
}

abbrev corrected_feed : FeedRuleLearning
corrected_feed = record {
  event = correct;
  payee = "Coffee Bar";
  decision = some answer;
  prior = some automatic;
}

abbrev history : List (Datetime × RegistrySignal)
history = (now, record_feed confirmed_feed "r1") ∷ (now, revoke "Coffee Bar") ∷ []

replay-IsSound_example : IsSoundRegistry (replay same_text empty_registry history)
replay-IsSound_example = replay-IsSound same_text history

driver_found : find? (has_id "r1") registry.rules ≡ some blessed_rule
unfolding find? has_id
driver_found = ground arith

answer_teaches : rule_action_from_decision answer ≡ some dining_action
unfolding rule_action_from_decision
answer_teaches = refl

correction_demotes_example :
    All
      (λ r. r.id ≡ "r1" → Demoted dining_action r)
      (record_learning registry corrected_feed now "r2").rules
correction_demotes_example =
    correction_demotes registry corrected_feed now "r2" answer automatic dining_action "r1" refl
      refl answer_teaches refl refl driver_found

revoke_payee-ask_example :
    (evaluate_gate same_text coffee
      (rules_for_payee same_text (revoke_payee same_text registry "Coffee Bar" now) "Coffee Bar")
      no_actions
      cautious).verdict
    ≡ ask
revoke_payee-ask_example = revoke_payee-ask same_text registry now coffee no_actions cautious

distinct_ids : ◌≢◌ {A = String} "r2" "r1"
distinct_ids = ground (arith, eq_iff "r2" "r1")

abbrev again : List Confirmation
again = record { feed = confirmed_feed; at = now; next_id = "r2" } ∷ []

revoked_never_reoffered_example :
    All
      (λ r. r.id ≢ "r1")
      (pending_offers (confirmations (revoke_payee same_text registry "Coffee Bar" now) again))
revoked_never_reoffered_example =
    revoked_never_reoffered same_text registry "Coffee Bar" now "r1" again ((λ e. refl), tt)
      ((refl, distinct_ids), tt)
