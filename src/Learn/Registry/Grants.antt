-- ===== src/Learn/Registry/Grants.antt =====
-- Autonomy is granted, never taken, and a correction or a revocation takes it back.
use ynab_agent.Common.{
  ◌≡◌, refl, true, false, some, List, Memᴰ, find?, find?_test, All, All-mem, All-map, All-imp,
  Option-cases, inl, inr, arith,
}
use ynab_agent.Domain.Ids.{RuleId, Datetime}
use ynab_agent.Domain.Enums.{suggested, learned}
use ynab_agent.Domain.Proposal.{Decision}
use ynab_agent.Domain.Rule.{Rule, RuleAction}
use ynab_agent.Domain.Effect.{FeedRuleLearning, correct}
use ynab_agent.Learn.Transitions.{
  LearningEvent, confirm_category, correct_decision, explicit_command, has_id, apply_learning,
  strengthen, confirmed_rule, demote, seeded_rule, replace_one, replace_rule, correct_found,
  find_rule, k_default,
}
use ynab_agent.Learn.Transitions.Induction.{Makes, apply_learning-All}
use ynab_agent.Learn.Handler.{plan_rule_update, event_of, rule_action_from_decision, payee_match}
use ynab_agent.Learn.Registry.{RegistryState, is_learned, record_learning}

-- If the rule is granted, a rule of the table with its id, match and action was granted before.
abbrev pub GrantedIn : List Rule → Rule → Type 0
GrantedIn rules r =
    is_learned r.source ≡ false
    → (old : Rule) × Memᴰ old rules
      × (old.id ≡ r.id)
      × (old.match ≡ r.match)
      × (old.action ≡ r.action)
      × (is_learned old.source ≡ false)

-- Only a command grants: the events that a feed stands for are of the other two kinds.
abbrev IsFeedback : LearningEvent → Type 0
IsFeedback (explicit_command _ _) = ⊥
IsFeedback _ = Unit

Makes-no_grant :
    (rules : List Rule) (now : Datetime) (next_id : RuleId) (event : LearningEvent)
    → IsFeedback event
    → Makes (λ r. Memᴰ r rules) (GrantedIn rules) rules now next_id k_default event
unfolding strengthen confirmed_rule demote seeded_rule
Makes-no_grant rules now next_id (confirm_category pattern action id) f =
    (λ t m h. (t, m, refl, refl, refl, h), λ h. cc)
Makes-no_grant rules now next_id (correct_decision pattern action id) f = (λ t m h. cc, λ h. cc)
Makes-no_grant rules now next_id (explicit_command pattern action) f = absurd f

event_of-IsFeedback :
    (feed : FeedRuleLearning) {event : LearningEvent}
    → event_of feed ≡ some event
    → IsFeedback event
unfolding event_of
event_of-IsFeedback feed {event} e = ground arith

-- Feedback never grants autonomy: after any confirmation or correction every granted rule was
-- granted before, with the same match and action.
pub record_learning_grants_nothing :
    (s : RegistryState) (feed : FeedRuleLearning) (now : Datetime) (next_id : RuleId)
    → All (GrantedIn s.rules) (record_learning s feed now next_id).rules
unfolding record_learning plan_rule_update
record_learning_grants_nothing s feed now next_id = elim (Option-cases (event_of feed)) [
  | inl e ↦
      rw (e, record_learning, plan_rule_update)
        (All-imp (λ r. Memᴰ r s.rules) (GrantedIn s.rules) (λ r m h. (r, m, refl, refl, refl, h))
          s.rules (All-mem s.rules))
  | inr (event, e) ↦
      rw (e, record_learning, plan_rule_update)
        (apply_learning-All (λ r. Memᴰ r s.rules) (GrantedIn s.rules)
          (λ r m h. (r, m, refl, refl, refl, h)) s.rules (All-mem s.rules) now next_id k_default
          event (Makes-no_grant s.rules now next_id event (event_of-IsFeedback feed e)))
]

-- What a correction leaves of the rule that it overturns.
abbrev pub Demoted : RuleAction → Rule → Type 0
Demoted action r = (r.trust ≡ suggested) × (r.source ≡ learned) × (r.hits ≡ 0) × (r.action ≡ action)

demote-Demoted :
    (rules : List Rule) (now : Datetime) (next_id id : RuleId) (action : RuleAction) (t r : Rule)
    → t.id ≡ id
    → (replace_one (demote rules now next_id t action) r).id ≡ id
    → Demoted action (replace_one (demote rules now next_id t action) r)
unfolding demote replace_one
demote-Demoted rules now next_id id action t r e h = ground arith

same_id : (id : RuleId) (r : Rule) → has_id id r ≡ true → r.id ≡ id
unfolding has_id
same_id id r h = ground arith

-- The event of a correction.
overturned :
    (feed : FeedRuleLearning) (d prior : Decision) (action : RuleAction) (id : RuleId)
    → feed.event ≡ correct
    → feed.decision ≡ some d
    → rule_action_from_decision d ≡ some action
    → feed.prior ≡ some prior
    → prior.rule_id ≡ some id
    → event_of feed ≡ some (correct_decision (payee_match feed.payee) action (some id))
unfolding event_of
overturned feed d prior action id e₁ e₂ e₃ e₄ e₅ = ground arith

-- A correction takes autonomy back: where the overturned decision came from a rule of the table,
-- every rule with that id then holds the new action, untrusted and with no confirmation to its name.
pub correction_demotes :
    (s : RegistryState) (feed : FeedRuleLearning) (now : Datetime) (next_id : RuleId)
    (d prior : Decision) (action : RuleAction) (id : RuleId) {driver : Rule}
    → feed.event ≡ correct
    → feed.decision ≡ some d
    → rule_action_from_decision d ≡ some action
    → feed.prior ≡ some prior
    → prior.rule_id ≡ some id
    → find? (has_id id) s.rules ≡ some driver
    → All (λ r. r.id ≡ id → Demoted action r) (record_learning s feed now next_id).rules
unfolding record_learning plan_rule_update
correction_demotes s feed now next_id d prior action id {driver} e₁ e₂ e₃ e₄ e₅ found =
    let planned = overturned feed d prior action id e₁ e₂ e₃ e₄ e₅ in
    rw (planned, record_learning, plan_rule_update)
      (unfold apply_learning find_rule correct_found replace_rule in
        rw (found, correct_found)
          (All-map (λ r. Memᴰ r s.rules) (λ r. r.id ≡ id → Demoted action r)
            (replace_one (demote s.rules now next_id driver action))
            (λ r m.
              demote-Demoted s.rules now next_id id action driver r
                (same_id id driver (find?_test (has_id id) s.rules found)))
            s.rules (All-mem s.rules)))
