-- ===== src/Learn/Transitions/Induction.antt =====
-- A rule for learning: to show that every rule of the new table satisfies `Q`, where all of the
-- old table satisfy `P`, it is enough to look at the rules that the event makes.
use mathlib.Core.Path.{subst}
use ynab_agent.Common.{
  ℕ, ◌≡◌, refl, Option, none, some, List, [], ◌∷◌, ◌++◌, All, All-append, All-map, All-imp,
  All-find?, Option-cases, Bool-cases, inl, inr, test, arith,
}
use ynab_agent.Domain.Ids.{RuleId, Datetime}
use ynab_agent.Domain.Rule.{Rule, RuleMatch, RuleAction, RuleAction-discrete}
use ynab_agent.Learn.Transitions.{
  LearningEvent, confirm_category, correct_decision, explicit_command, has_id, find_rule,
  confirm_target, encodes, replace_one, replace_rule, confirm_found, correct_found, bless_found,
  apply_learning, confirmed_rule, strengthen, seeded_rule, demote, commanded_rule, bless,
}

module _ (P : Rule → Type 0) (rules : List Rule) (a : All P rules) where
  -- What is found in the table satisfies what the table does.
  pub find_rule-All : (id : Option RuleId) {r : Rule} → find_rule rules id ≡ some r → P r
  unfolding find_rule
  find_rule-All none e = cc
  find_rule-All (some id) e = All-find? P (has_id id) rules a e

  confirm_target-All :
      (pattern : RuleMatch) (action : RuleAction) (id : Option RuleId) {r : Rule}
      → confirm_target rules pattern action id ≡ some r
      → P r
  unfolding confirm_target
  confirm_target-All pattern action id {r} e = elim (Option-cases (find_rule rules id)) [
    | inl missing ↦ All-find? P (encodes pattern action) rules a (ground arith)
    | inr (driver, found) ↦ elim (Bool-cases (test (RuleAction-discrete driver.action action))) [
      | inl same ↦ subst P (ground arith) (find_rule-All id found)
      | inr other ↦ All-find? P (encodes pattern action) rules a (ground arith)
    ]
  ]

module _ (P Q : Rule → Type 0) (rules : List Rule) (now : Datetime) (next_id : RuleId) (k : ℕ) where
  -- The rule that an event makes from one that it finds, and the one that it creates.
  abbrev pub Makes : LearningEvent → Type 0
  Makes (confirm_category pattern action id) =
      ((t : Rule) → P t → Q (strengthen rules now next_id t k))
      × Q (confirmed_rule rules now next_id pattern action k)
  Makes (correct_decision pattern action id) =
      ((t : Rule) → P t → Q (demote rules now next_id t action))
      × Q (seeded_rule rules now next_id pattern action)
  Makes (explicit_command pattern action) =
      ((t : Rule) → P t → Q (bless rules now next_id t))
      × Q (commanded_rule rules now next_id pattern action)

module _ (P Q : Rule → Type 0) (keep : (r : Rule) → P r → Q r) (rules : List Rule)
    (a : All P rules) where
  create-All : (r : Rule) → Q r → All Q (rules ++ r ∷ [])
  create-All r q = All-append Q rules (r ∷ []) (All-imp P Q keep rules a) (q, tt)

  replace_one-All : (updated r : Rule) → Q updated → P r → Q (replace_one updated r)
  unfolding replace_one
  replace_one-All updated r q p = elim (Bool-cases (has_id updated.id r)) [
    | inl t ↦ rw t q
    | inr f ↦ rw f (keep r p)
  ]

  replace_rule-All : (updated : Rule) → Q updated → All Q (replace_rule rules updated)
  unfolding replace_rule
  replace_rule-All updated q =
      All-map P Q (replace_one updated) (λ r p. replace_one-All updated r q p) rules a

  module _ (now : Datetime) (next_id : RuleId) (k : ℕ) where
    confirm_found-All :
        (pattern : RuleMatch) (action : RuleAction) (target : Option Rule)
        → ((t : Rule) → target ≡ some t → Q (strengthen rules now next_id t k))
        → Q (confirmed_rule rules now next_id pattern action k)
        → All Q (confirm_found rules now next_id pattern action k target).rules
    unfolding confirm_found
    confirm_found-All pattern action none on new = create-All _ new
    confirm_found-All pattern action (some t) on new = replace_rule-All _ (on t refl)

    correct_found-All :
        (pattern : RuleMatch) (action : RuleAction) (target : Option Rule)
        → ((t : Rule) → target ≡ some t → Q (demote rules now next_id t action))
        → Q (seeded_rule rules now next_id pattern action)
        → All Q (correct_found rules now next_id pattern action target).rules
    unfolding correct_found
    correct_found-All pattern action none on new = create-All _ new
    correct_found-All pattern action (some t) on new = replace_rule-All _ (on t refl)

    bless_found-All :
        (pattern : RuleMatch) (action : RuleAction) (target : Option Rule)
        → ((t : Rule) → target ≡ some t → Q (bless rules now next_id t))
        → Q (commanded_rule rules now next_id pattern action)
        → All Q (bless_found rules now next_id pattern action target).rules
    unfolding bless_found
    bless_found-All pattern action none on new = create-All _ new
    bless_found-All pattern action (some t) on new = replace_rule-All _ (on t refl)

    pub apply_learning-All :
        (event : LearningEvent)
        → Makes P Q rules now next_id k event
        → All Q (apply_learning rules now next_id event k).rules
    unfolding apply_learning
    apply_learning-All (confirm_category pattern action id) m =
        confirm_found-All pattern action _
          (λ t e. m.0 t (confirm_target-All P rules a pattern action id e)) m.1
    apply_learning-All (correct_decision pattern action id) m =
        correct_found-All pattern action _ (λ t e. m.0 t (find_rule-All P rules a id e)) m.1
    apply_learning-All (explicit_command pattern action) m =
        bless_found-All pattern action _
          (λ t e. m.0 t (All-find? P (encodes pattern action) rules a e)) m.1
