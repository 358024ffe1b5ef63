-- ===== src/Learn/Registry/Offers.antt =====
-- The one-time autonomy offer.
use ynab_agent.Common.{
  ◌≡◌, ◌≢◌, String, true, false, some, List, [], ◌∷◌, map, filter, All, All-map, All-filter,
  All-filter_test, All-both, All-of, Option-cases, inl, inr, is_none, arith,
}
use ynab_agent.Domain.Ids.{RuleId, Datetime}
use ynab_agent.Domain.Rule.{Rule}
use ynab_agent.Domain.Effect.{FeedRuleLearning, confirm}
use ynab_agent.Learn.Transitions.{
  LearningEvent, confirm_category, correct_decision, explicit_command, strengthen, confirmed_rule,
  k_default,
}
use ynab_agent.Learn.Transitions.Induction.{Makes, apply_learning-All}
use ynab_agent.Learn.Handler.{plan_rule_update, event_of}
use ynab_agent.Learn.Registry.{
  RegistryState, is_eligible, pending_offers, stamp_offer, mark_offered, record_learning,
  revoke_payee, revoke_found, revoke_one, revocable,
}

-- A rule of that id has had its offer.
abbrev pub Offered : RuleId → Rule → Type 0
Offered id r = r.id ≡ id → is_none r.offered_at ≡ false

-- `mark_offered` gives the stamped table, also where it returns the same state.
rules-mark_offered :
    (s : RegistryState) (id : RuleId) (now : Datetime)
    → (mark_offered s id now).rules ≡ map (stamp_offer id now) s.rules
unfolding mark_offered
rules-mark_offered s id now = ground arith

stamp_offer-Offered : (id : RuleId) (now : Datetime) (r : Rule) → Offered id (stamp_offer id now r)
unfolding stamp_offer
stamp_offer-Offered id now r = ground arith

not_pending : (id : RuleId) (r : Rule) → Offered id r → is_none r.offered_at ≡ true → r.id ≢ id
not_pending id r o n e = cc (o e)

-- A table whose rules of that id have had their offer has no offer pending for it.
pending_offers-Offered :
    (s : RegistryState) (id : RuleId)
    → All (Offered id) s.rules
    → All (λ r. r.id ≢ id) (pending_offers s)
unfolding pending_offers
pending_offers-Offered s id a =
    let eligible = filter is_eligible s.rules in
    All-both (Offered id) (λ r. is_none r.offered_at ≡ true) (λ r. r.id ≢ id) (not_pending id)
      (filter (λ r. is_none r.offered_at) eligible)
      (All-filter (Offered id) (λ r. is_none r.offered_at) eligible
        (All-filter (Offered id) is_eligible s.rules a))
      (All-filter_test (λ r. is_none r.offered_at) eligible)

-- Once an offer went out, the rule is on offer no more.
pub pending_offers-mark_offered :
    (s : RegistryState) (id : RuleId) (now : Datetime)
    → All (λ r. r.id ≢ id) (pending_offers (mark_offered s id now))
pending_offers-mark_offered s id now = pending_offers-Offered (mark_offered s id now) id (
    rw (rules-mark_offered s id now) (
      All-map (λ r. Unit {0}) (Offered id) (stamp_offer id now)
        (λ r u. stamp_offer-Offered id now r) s.rules (All-of (λ r. Unit {0}) (λ r. tt) s.rules)))

revoke_one-Offered :
    (lower : String → String) (targets : List Rule) (id : RuleId) (r : Rule)
    → Offered id r
    → Offered id (revoke_one lower targets r)
unfolding revoke_one
revoke_one-Offered lower targets id r o = ground arith

revoke_payee-Offered :
    (lower : String → String) (s : RegistryState) (payee : String) (now : Datetime) (id : RuleId)
    → All (Offered id) s.rules
    → All (Offered id) (revoke_payee lower s payee now).rules
unfolding revoke_payee
revoke_payee-Offered lower s payee now id a = go (revocable lower s payee)
  where
    go : (targets : List Rule) → All (Offered id) (revoke_found lower s payee now targets).rules
    go [] = a
    go (t ∷ ts) =
        All-map (Offered id) (Offered id) (revoke_one lower (t ∷ ts))
          (λ r o. revoke_one-Offered lower (t ∷ ts) id r o) s.rules a

-- A confirmation that arrives at the registry.
pub record Confirmation : Type 0 where
  pub feed : FeedRuleLearning
  pub at : Datetime
  pub next_id : RuleId

abbrev IsConfirm : LearningEvent → Type 0
IsConfirm (confirm_category _ _ _) = Unit
IsConfirm _ = ⊥

event_of-IsConfirm :
    (feed : FeedRuleLearning) {event : LearningEvent}
    → feed.event ≡ confirm
    → event_of feed ≡ some event
    → IsConfirm event
unfolding event_of
event_of-IsConfirm feed c e = ground arith

Makes-Offered :
    (rules : List Rule) (now : Datetime) (next_id id : RuleId) (event : LearningEvent)
    → next_id ≢ id
    → IsConfirm event
    → Makes (Offered id) (Offered id) rules now next_id k_default event
unfolding strengthen confirmed_rule
Makes-Offered rules now next_id id (confirm_category pattern action rule_id) fresh c =
    (λ t o. o, λ e. absurd (fresh e))
Makes-Offered rules now next_id id (correct_decision pattern action rule_id) fresh c = absurd c
Makes-Offered rules now next_id id (explicit_command pattern action) fresh c = absurd c

record_learning-Offered :
    (s : RegistryState) (c : Confirmation) (id : RuleId)
    → c.feed.event ≡ confirm
    → c.next_id ≢ id
    → All (Offered id) s.rules
    → All (Offered id) (record_learning s c.feed c.at c.next_id).rules
unfolding record_learning plan_rule_update
record_learning-Offered s c id k fresh a = elim (Option-cases (event_of c.feed)) [
  | inl e ↦ rw (e, record_learning, plan_rule_update) a
  | inr (event, e) ↦
      rw (e, record_learning, plan_rule_update)
        (apply_learning-All (Offered id) (Offered id) (λ r o. o) s.rules a c.at c.next_id k_default
          event
          (Makes-Offered s.rules c.at c.next_id id event fresh (event_of-IsConfirm c.feed k e)))
]

-- The registry after a list of confirmations.
pub confirmations : RegistryState → List Confirmation → RegistryState
confirmations s [] = s
confirmations s (c ∷ cs) = confirmations (record_learning s c.feed c.at c.next_id) cs

confirmations-Offered :
    (cs : List Confirmation) (s : RegistryState) (id : RuleId)
    → All (λ c. (c.feed.event ≡ confirm) × (c.next_id ≢ id)) cs
    → All (Offered id) s.rules
    → All (Offered id) (confirmations s cs).rules
unfolding confirmations
confirmations-Offered [] s id h a = a
confirmations-Offered (c ∷ cs) s id h a =
    confirmations-Offered cs (record_learning s c.feed c.at c.next_id) id h.1
      (record_learning-Offered s c id h.0.0 h.0.1 a)

-- Where every rule of an id has had its offer, and its payee is then revoked, no rule of that id is on
-- offer again, after any list of confirmations whose new rules take other ids.
pub revoked_never_reoffered :
    (lower : String → String) (s : RegistryState) (payee : String) (now : Datetime) (id : RuleId)
    (cs : List Confirmation)
    → All (Offered id) s.rules
    → All (λ c. (c.feed.event ≡ confirm) × (c.next_id ≢ id)) cs
    → All (λ r. r.id ≢ id) (pending_offers (confirmations (revoke_payee lower s payee now) cs))
revoked_never_reoffered lower s payee now id cs a h =
    pending_offers-Offered _ id
      (confirmations-Offered cs _ id h (revoke_payee-Offered lower s payee now id a))
