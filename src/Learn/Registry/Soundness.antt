-- ===== src/Learn/Registry/Soundness.antt =====
-- What every rule of the registry satisfies, whatever the registry is sent.
use ynab_agent.Common.{
  ◌≤◌, ◌≡◌, String, true, false, Option, none, some, List, [], ◌∷◌, ◌++◌, map, length,
  length-take_last, All, All-map, Option-cases, Bool-cases, inl, inr, test, arith,
}
use ynab_agent.Domain.Ids.{RuleId, Datetime}
use ynab_agent.Domain.Rule.{Rule, RuleMatch, RuleAction}
use ynab_agent.Domain.Effect.{FeedRuleLearning}
use ynab_agent.Learn.Transitions.{
  LearningEvent, confirm_category, correct_decision, explicit_command, has_id, apply_learning,
  confirmed_rule, strengthen, seeded_rule, demote, commanded_rule, bless, trust_for_hits, k_default,
}
use ynab_agent.Learn.Transitions.Induction.{Makes, apply_learning-All}
use ynab_agent.Learn.Handler.{plan_rule_update, event_of}
use ynab_agent.Learn.Registry.{
  RegistryState, RegistryAuditEntry, is_trusted, is_learned, is_eligible, record_learning,
  bless_rule, mark_offered, bless_by_id, revoke_payee, stamp_offer, Rules-discrete,
  bless_found_by_id, replace_by_id, granted, revoke_found, revoke_one, appended_audit, audit_cap,
}

-- A rule that the owner granted is trusted, and one that earned trust was confirmed three times.
pub record IsSound (r : Rule) : Type 0 where
  pub grant_trusted : is_learned r.source ≡ false → is_trusted r.trust ≡ true
  pub trust_earned : is_eligible r ≡ true → k_default ≤ r.hits

abbrev pub AllSound : List Rule → Type 0
AllSound = All IsSound

Makes-IsSound :
    (rules : List Rule) (now : Datetime) (next_id : RuleId) (event : LearningEvent)
    → Makes IsSound IsSound rules now next_id k_default event
unfolding strengthen confirmed_rule demote seeded_rule bless commanded_rule trust_for_hits
Makes-IsSound rules now next_id (confirm_category pattern action id) =
    (λ t h. ground arith, ground arith)
Makes-IsSound rules now next_id (correct_decision pattern action id) =
    (λ t h. ground arith, ground arith)
Makes-IsSound rules now next_id (explicit_command pattern action) =
    (λ t h. ground arith, ground arith)

-- Every learning event keeps the table sound.
apply_learning-IsSound :
    (rules : List Rule) (now : Datetime) (next_id : RuleId) (event : LearningEvent)
    → AllSound rules
    → AllSound (apply_learning rules now next_id event k_default).rules
apply_learning-IsSound rules now next_id event a =
    apply_learning-All IsSound IsSound (λ r h. h) rules a now next_id k_default event
      (Makes-IsSound rules now next_id event)

-- The audit tail is within its cap.
abbrev pub IsBounded : RegistryState → Type 0
IsBounded s = length s.audit ≤ audit_cap

-- What holds of the registry between two signals.
pub record IsSoundRegistry (s : RegistryState) : Type 0 where
  pub rules_sound : AllSound s.rules
  pub audit_bounded : IsBounded s

length-appended_audit :
    (audit entries : List RegistryAuditEntry) → length (appended_audit audit entries) ≤ audit_cap
unfolding appended_audit
length-appended_audit audit entries = length-take_last audit_cap (audit ++ entries)

module _ (s : RegistryState) (now : Datetime) (h : IsSoundRegistry s) where
  pub record_learning-IsSound :
      (feed : FeedRuleLearning) (next_id : RuleId)
      → IsSoundRegistry (record_learning s feed now next_id)
  unfolding record_learning plan_rule_update
  record_learning-IsSound feed next_id = elim (Option-cases (event_of feed)) [
    | inl e ↦ rw (e, record_learning, plan_rule_update) h
    | inr (event, e) ↦
        rw (e, record_learning, plan_rule_update)
          (record {
            rules_sound = apply_learning-IsSound s.rules now next_id event h.rules_sound;
            audit_bounded = length-appended_audit s.audit _;
          })
  ]

  pub bless_rule-IsSound :
      (pattern : RuleMatch) (action : RuleAction) (next_id : RuleId)
      → IsSoundRegistry (bless_rule s pattern action now next_id)
  unfolding bless_rule
  bless_rule-IsSound pattern action next_id = record {
    rules_sound =
        apply_learning-IsSound s.rules now next_id (explicit_command pattern action) h.rules_sound;
    audit_bounded = length-appended_audit s.audit _;
  }

  stamp_offer-IsSound : (id : RuleId) (r : Rule) → IsSound r → IsSound (stamp_offer id now r)
  unfolding stamp_offer
  stamp_offer-IsSound id r k = ground arith

  pub mark_offered-IsSound : (id : RuleId) → IsSoundRegistry (mark_offered s id now)
  unfolding mark_offered
  mark_offered-IsSound id =
      let updated = map (stamp_offer id now) s.rules in
      elim (Bool-cases (test (Rules-discrete updated s.rules))) [
        | inl e ↦ rw e h
        | inr e ↦ rw e (record {
          rules_sound =
              All-map IsSound IsSound (stamp_offer id now) (stamp_offer-IsSound id) s.rules
                h.rules_sound;
          audit_bounded = h.audit_bounded;
        })
      ]

  replace_by_id-IsSound :
      (id : RuleId) (updated r : Rule)
      → IsSound updated
      → IsSound r
      → IsSound (replace_by_id id updated r)
  unfolding replace_by_id
  replace_by_id-IsSound id updated r u k = elim (Bool-cases (has_id id r)) [
    | inl e ↦ rw e u
    | inr e ↦ rw e k
  ]

  bless_found_by_id-IsSound :
      (id : RuleId) (target : Option Rule) → IsSoundRegistry (bless_found_by_id s id now target)
  unfolding bless_found_by_id
  bless_found_by_id-IsSound id none = h
  bless_found_by_id-IsSound id (some target) = elim (Bool-cases (is_eligible target)) [
    | inl e ↦ rw e (record {
      rules_sound =
          All-map IsSound IsSound (replace_by_id id (granted target now))
            (λ r k. replace_by_id-IsSound id (granted target now) r (granted-IsSound target e) k)
            s.rules h.rules_sound;
      audit_bounded = length-appended_audit s.audit _;
    })
    | inr e ↦ rw e h
  ]
    where
      granted-IsSound : (t : Rule) → is_eligible t ≡ true → IsSound (granted t now)
      granted-IsSound t e = ground arith

  pub bless_by_id-IsSound : (id : RuleId) → IsSoundRegistry (bless_by_id s id now)
  unfolding bless_by_id
  bless_by_id-IsSound id = bless_found_by_id-IsSound id _

  module _ (lower : String → String) where
    revoke_one-IsSound :
        (targets : List Rule) (r : Rule) → IsSound r → IsSound (revoke_one lower targets r)
    unfolding revoke_one
    revoke_one-IsSound targets r k = ground arith

    revoke_found-IsSound :
        (payee : String) (targets : List Rule)
        → IsSoundRegistry (revoke_found lower s payee now targets)
    unfolding revoke_found
    revoke_found-IsSound payee [] = h
    revoke_found-IsSound payee (t ∷ ts) = record {
      rules_sound =
          All-map IsSound IsSound (revoke_one lower (t ∷ ts)) (revoke_one-IsSound (t ∷ ts)) s.rules
            h.rules_sound;
      audit_bounded = length-appended_audit s.audit _;
    }

    pub revoke_payee-IsSound : (payee : String) → IsSoundRegistry (revoke_payee lower s payee now)
    unfolding revoke_payee
    revoke_payee-IsSound payee = revoke_found-IsSound payee _
