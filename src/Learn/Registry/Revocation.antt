-- ===== src/Learn/Registry/Revocation.antt =====
-- "Stop auto-handling X": what a revocation leaves, and that the gate then asks.
use ynab_agent.Common.{
  ◌≡◌, refl, ap, String, true, false, not, some, List, [], ◌∷◌, Memᴰ, filter, filter_nil,
  any_of_mem, mem-filterᴰ, All, All-mem, All-map, All-imp, All-filter, All-filter_test, All-both,
  Bool-cases, inl, inr, arith,
}
use ynab_agent.Domain.Ids.{Datetime}
use ynab_agent.Domain.Rule.{Rule}
use ynab_agent.Domain.Transaction.{YnabSnapshot}
use ynab_agent.Learn.Transitions.{has_id}
use ynab_agent.Learn.Registry.{
  RegistryState, is_learned, revoke_payee, revoke_found, revoke_one, revocable, is_target,
  rule_has_payee, rules_for_payee,
}
use ynab_agent.Policy.Floor.{FloorVerdict, FloorPolicy, AutoActionCounters, check_floor}
use ynab_agent.Policy.Gate.{
  ask, is_blessed, rule_matches, matching_rules, blessed_rules, judge_floor, evaluate_gate,
}

has_id_self : (r : Rule) → has_id r.id r ≡ true
unfolding has_id
has_id_self r = ground arith

module _ (lower : String → String) (s : RegistryState) (payee : String) where
  abbrev IsRevoked : Rule → Type 0
  IsRevoked r = rule_has_payee lower payee r ≡ true → is_learned r.source ≡ true

  -- A granted rule of the payee is among those to be revoked.
  mem-revocable :
      (r : Rule)
      → Memᴰ r s.rules
      → rule_has_payee lower payee r ≡ true
      → is_learned r.source ≡ false
      → Memᴰ r (revocable lower s payee)
  unfolding revocable
  mem-revocable r m h l =
      mem-filterᴰ (λ rule. not (is_learned rule.source)) (rules_for_payee lower s payee) (ap not l)
        (unfold rules_for_payee in mem-filterᴰ (rule_has_payee lower payee) s.rules h m)

  revoke_one-IsRevoked :
      (targets : List Rule) (r : Rule)
      → (rule_has_payee lower payee r ≡ true → is_learned r.source ≡ false → Memᴰ r targets)
      → IsRevoked (revoke_one lower targets r)
  unfolding revoke_one
  revoke_one-IsRevoked targets r member = elim (Bool-cases (is_target lower targets r)) [
    | inl t ↦ rw (t, revoke_one) (λ h. refl)
    | inr f ↦ rw (f, revoke_one) (λ h. kept f h)
  ]
    where
      kept :
          is_target lower targets r ≡ false
          → rule_has_payee lower payee r ≡ true
          → is_learned r.source ≡ true
      kept f h = elim (Bool-cases (is_learned r.source)) [
        | inl l ↦ l
        | inr l ↦ cc (f, any_of_mem (λ t. has_id r.id t) targets (has_id_self r) (member h l))
      ]

  revoke_found-IsRevoked :
      (now : Datetime) (targets : List Rule)
      → ((r : Rule)
          → Memᴰ r s.rules
          → rule_has_payee lower payee r ≡ true
          → is_learned r.source ≡ false
          → Memᴰ r targets)
      → All IsRevoked (revoke_found lower s payee now targets).rules
  unfolding revoke_found
  revoke_found-IsRevoked now [] member =
      All-imp (λ r. Memᴰ r s.rules) IsRevoked (λ r m h. none_left r m h) s.rules (All-mem s.rules)
    where
      none_left :
          (r : Rule)
          → Memᴰ r s.rules
          → rule_has_payee lower payee r ≡ true
          → is_learned r.source ≡ true
      none_left r m h = elim (Bool-cases (is_learned r.source)) [
        | inl l ↦ l
        | inr l ↦ elim (member r m h l) [ ]
      ]
  revoke_found-IsRevoked now (t ∷ ts) member =
      All-map (λ r. Memᴰ r s.rules) IsRevoked (revoke_one lower (t ∷ ts))
        (λ r m. revoke_one-IsRevoked (t ∷ ts) r (member r m)) s.rules (All-mem s.rules)

  -- After a revocation no rule that matches the payee is granted.
  pub revoke_payee-IsRevoked :
      (now : Datetime) → All IsRevoked (revoke_payee lower s payee now).rules
  unfolding revoke_payee
  revoke_payee-IsRevoked now = revoke_found-IsRevoked now (revocable lower s payee) mem-revocable

-- With no blessed rule the gate asks, whatever the floor says.
judge_floor_nil :
    (v : FloorVerdict) (snapshot : YnabSnapshot) → (judge_floor v snapshot []).verdict ≡ ask
unfolding judge_floor
judge_floor_nil v snapshot = ground arith

not_blessed : (r : Rule) → is_learned r.source ≡ true → is_blessed r ≡ false
not_blessed r h = ground arith

none_blessed :
    (lower : String → String) (s : RegistryState) (now : Datetime) (snapshot : YnabSnapshot)
    → let revoked = revoke_payee lower s snapshot.payee now in
      blessed_rules lower (rules_for_payee lower revoked snapshot.payee) snapshot ≡ []
unfolding blessed_rules matching_rules rules_for_payee
none_blessed lower s now snapshot =
    let payee = snapshot.payee in
    let table = (revoke_payee lower s payee now).rules in
    let served = filter (rule_has_payee lower payee) table in
    let revoked : All (IsRevoked lower s payee) served =
      All-filter (IsRevoked lower s payee) (rule_has_payee lower payee) table
        (revoke_payee-IsRevoked lower s payee now) in
    let matching : All (λ r. rule_has_payee lower payee r ≡ true) served =
      All-filter_test (rule_has_payee lower payee) table in
    let unblessed : All (λ r. is_blessed r ≡ false) served =
      All-both (IsRevoked lower s payee) (λ r. rule_has_payee lower payee r ≡ true)
        (λ r. is_blessed r ≡ false) (λ r h k. not_blessed r (h k)) served revoked matching in
    filter_nil is_blessed (filter (λ r. rule_matches lower r snapshot) served)
      (All-filter (λ r. is_blessed r ≡ false) (λ r. rule_matches lower r snapshot) served unblessed)

-- A revocation takes effect at once: over the rules that the registry then serves for the payee,
-- the gate asks about every transaction of that payee, whatever the counters and the limits.
pub revoke_payee-ask :
    (lower : String → String) (s : RegistryState) (now : Datetime) (snapshot : YnabSnapshot)
    (counters : AutoActionCounters) (policy : FloorPolicy)
    → let revoked = revoke_payee lower s snapshot.payee now in
      (evaluate_gate lower snapshot
        (rules_for_payee lower revoked snapshot.payee)
        counters
        policy).verdict
      ≡ ask
unfolding evaluate_gate
revoke_payee-ask lower s now snapshot counters policy =
    rw (none_blessed lower s now snapshot)
      (judge_floor_nil (check_floor (some snapshot.amount) counters policy) snapshot)
