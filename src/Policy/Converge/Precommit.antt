-- ===== src/Policy/Converge/Precommit.antt =====
-- What is decided before a write, from a fresh read of the current state.
use ynab_agent.Common.{ap, ◌≡◌, ◌≢◌, true, false, Option, none, some, arith, Bool-cases, inl, inr}
use ynab_agent.Policy.Converge.{
  TargetState, PrecommitAction, write, no_change, already_target, diverged, hashes_agree, canonical,
  content_hash, is_moved, precommit_action,
}
use ynab_agent.Policy.Converge.Verdict.{SameEnd, hashes_agree-SameEnd}

-- The allocation is the one that the agent last applied, its split lines in the same order.
abbrev pub Unmoved : TargetState → Option TargetState → Type 0
Unmoved current none = Unit
Unmoved current (some prior) = current.allocation ≡ prior.allocation

-- The end-state is another than what the agent last applied, however its split lines are ordered.
abbrev pub IsNew : TargetState → Option TargetState → Type 0
IsNew current none = Unit
IsNew current (some prior) = canonical current ≢ canonical prior

-- What each decision rests on.
abbrev pub Warranted :
    Option TargetState → TargetState → Option TargetState → PrecommitAction → Type 0
Warranted none target prior write = Unit
Warranted (some current) target prior write =
    (canonical current ≢ canonical target) × Unmoved current prior
Warranted (some current) target (some prior) no_change =
    SameEnd current target × SameEnd current prior
Warranted (some current) target prior already_target = SameEnd current target × IsNew current prior
Warranted (some current) target (some prior) diverged =
    (canonical current ≢ canonical target) × (current.allocation ≢ prior.allocation)
Warranted _ _ _ _ = ⊥

moved-ne :
    (current prior : TargetState)
    → is_moved current prior ≡ true
    → current.allocation ≢ prior.allocation
unfolding is_moved
moved-ne current prior h e = ground arith

unmoved-eq :
    (current prior : TargetState)
    → is_moved current prior ≡ false
    → current.allocation ≡ prior.allocation
unfolding is_moved
unmoved-eq current prior h = ground arith

module _ {ℓ} {Digest : Type ℓ} (same : Discrete Digest) (digest : TargetState → Digest)
    (tells : (a b : TargetState) → digest a ≡ digest b → a ≡ b) where
  another : (a b : TargetState) → hashes_agree same digest a b ≡ false → canonical a ≢ canonical b
  unfolding hashes_agree content_hash
  another a b h e = ground (arith, ap digest e)

  -- What each decision before a write rests on. YNAB is overwritten only where it could not be read, or
  -- holds another end-state than the target, also with the split lines of both sorted, and still has
  -- the allocation that the agent last applied, if it ever applied one, line for line. The write is
  -- skipped only where YNAB already holds the target, its split lines in any order: as no change only
  -- where that is also what was applied last, and as already the target only where it is not. A
  -- divergence is reported only where YNAB does not hold the target and its allocation is not, line for
  -- line and in the same order, the one applied last.
  pub precommit_action-Warranted :
      (current : Option TargetState) (target : TargetState) (prior : Option TargetState)
      → Warranted current target prior (precommit_action same digest current target prior)
  unfolding precommit_action
  precommit_action-Warranted none target prior = tt
  precommit_action-Warranted (some current) target none =
      elim (Bool-cases (hashes_agree same digest current target)) [
        | inl held ↦ rw held (hashes_agree-SameEnd same digest tells current target held, tt)
        | inr other ↦ rw other (another current target other, tt)
      ]
  precommit_action-Warranted (some current) target (some prior) =
      elim (Bool-cases (hashes_agree same digest current target)) [
        | inl held ↦
            let same_end = hashes_agree-SameEnd same digest tells current target held in
            rw held (elim (Bool-cases (hashes_agree same digest current prior)) [
              | inl idle ↦
                  rw idle (same_end, hashes_agree-SameEnd same digest tells current prior idle)
              | inr landed ↦ rw landed (same_end, another current prior landed)
            ])
        | inr other ↦
            let unheld = another current target other in
            rw other (elim (Bool-cases (is_moved current prior)) [
              | inl moved ↦ rw moved (unheld, moved-ne current prior moved)
              | inr still ↦ rw still (unheld, unmoved-eq current prior still)
            ])
      ]
