-- ===== src/Ynab/Tags.antt =====
-- Person tags, which YNAB does not store.
use ynab_agent.Common.{◌≡◌, ◌≢◌, refl, Option, none, some, arith, ltb, length, Bool-cases, inl, inr}
use mathlib.Core.Path.{subst}
use mathlib.Core.Option
use ynab_agent.Domain.Ids.{PersonTag, CategoryId}
use ynab_agent.Domain.Allocation.{ResolvedCategory, ResolvedAllocation, category, split}
use ynab_agent.Domain.Event.{match}
use ynab_agent.Domain.Proposal.{Decision}
use ynab_agent.Domain.Transaction.{YnabSnapshot}
use ynab_agent.Policy.Converge.{TargetState, target_of, classify_verify}
use ynab_agent.Policy.Converge.Verdict.{SameAllocation, classify_verify-Confirms}
use ynab_agent.Ynab.{to_target, whole_target}

-- An allocation that a read-back can show: its category has no tag.
abbrev Untagged : ResolvedAllocation → Type 0
Untagged (category c) = c.person_tag ≡ none
Untagged (split _) = Unit

whole_target-Untagged :
    (snapshot : YnabSnapshot) (id : Option CategoryId) {read : TargetState}
    → Option.map (whole_target snapshot) id ≡ some read
    → Untagged read.allocation
whole_target-Untagged snapshot none e = cc
whole_target-Untagged snapshot (some id) {read} e =
    let same : whole_target snapshot id ≡ read = cc in
    subst (λ (t : TargetState). Untagged t.allocation) same refl

to_target-Untagged :
    (snapshot : YnabSnapshot) {read : TargetState}
    → to_target snapshot ≡ some read
    → Untagged read.allocation
unfolding to_target
to_target-Untagged snapshot {read} e = elim (Bool-cases (ltb 1 (length snapshot.subtransactions))) [
  | inl many ↦
      let shown : TargetState = record {
        allocation = split (record { lines = snapshot.subtransactions });
        memo = snapshot.memo;
        approved = snapshot.approved;
      } in
      let same : shown ≡ read = ground arith in
      subst (λ (t : TargetState). Untagged t.allocation) same tt
  | inr few ↦ whole_target-Untagged snapshot snapshot.category_id (rw few at e)
]

tag-differs :
    (a : ResolvedAllocation) (c : ResolvedCategory) (tag : PersonTag)
    → Untagged a
    → c.person_tag ≡ some tag
    → SameAllocation a (category c)
    → ⊥
tag-differs (category a) c tag u t s = cc
tag-differs (split a) c tag u t s = s

module _ {ℓ} {Digest : Type ℓ} (same : Discrete Digest) (digest : TargetState → Digest)
    (tells : (a b : TargetState) → digest a ≡ digest b → a ≡ b) where
  tagged-ne-match :
      (read : Option TargetState) (target : TargetState) (c : ResolvedCategory) (tag : PersonTag)
      → ((t : TargetState) → read ≡ some t → Untagged t.allocation)
      → target.allocation ≡ category c
      → c.person_tag ≡ some tag
      → classify_verify same digest read target ≢ match
  unfolding classify_verify
  tagged-ne-match none target c tag u a t h = cc
  tagged-ne-match (some read) target c tag u a t h =
      tag-differs read.allocation c tag (u read refl) t (
        subst (SameAllocation read.allocation) a
          (classify_verify-Confirms same digest tells read target h).allocation)

  -- A decision for one category that has a person tag is never confirmed, whatever YNAB holds:
  -- neither the patch nor the read-back has the tag, and the comparison does.
  pub tagged_never_matches :
      (snapshot : YnabSnapshot) (decision : Decision) (c : ResolvedCategory) (tag : PersonTag)
      → decision.allocation ≡ category c
      → c.person_tag ≡ some tag
      → classify_verify same digest (to_target snapshot) (target_of decision) ≢ match
  unfolding target_of
  tagged_never_matches snapshot decision c tag a t =
      tagged-ne-match (to_target snapshot) (target_of decision) c tag
        (λ read e. to_target-Untagged snapshot e) a t
