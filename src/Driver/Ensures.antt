-- ===== src/Driver/Ensures.antt =====
-- What holds where a piece of the workflow returns, with a rule for each way to put pieces together.
use ynab_agent.Common.{
  Exception, value_error, index_error, key_error, activity_error, Bool, true, false, if◌then◌else◌,
}
use ynab_agent.Driver.World.{Driver, Outcome, done, raised, waiting, exhausted, Run}
use ynab_agent.Driver.Action.{pure, gets, modify, ◌>>=◌, continue}

-- The exceptions that the workflow may end with: an activity fails, or a validator refuses.
abbrev pub MayRaise : Exception → Type 0
MayRaise activity_error = Unit
MayRaise value_error = Unit
MayRaise index_error = ⊥
MayRaise key_error = ⊥

abbrev pub Done {ℓ} :
    {A : Type ℓ} → (Driver → Type 0) → (A → Driver → Type 0) → Outcome A × Driver → Type 0
Done Rest Q (done a, d) = Q a d
Done Rest Q (raised e, d) = MayRaise e
Done Rest Q (waiting, d) = Rest d
Done Rest Q (exhausted, d) = ⊥

-- From `d`, `m` returns, waits, or ends as the workflow may. Where it returns, `Q` holds of its result
-- and of the state that it leaves; where it waits, `Rest` holds of the state.
pub record Ensures {ℓ} {A : Type ℓ} (Rest : Driver → Type 0) (Q : A → Driver → Type 0) (m : Run A)
    (d : Driver) : Type 0 where
  pub holds : Done Rest Q (m d)

module _ {ℓ} {A : Type ℓ} {Rest : Driver → Type 0} {Q : A → Driver → Type 0} where
  pub ensured : {m : Run A} {d : Driver} → Done Rest Q (m d) → Ensures Rest Q m d
  ensured h = record { holds = h }

  pub Ensures-pure : (a : A) (d : Driver) → Q a d → Ensures Rest Q (pure a) d
  Ensures-pure a d h = record { holds = h }

  pub Ensures-weaken :
      {P : A → Driver → Type 0} {m : Run A} {d : Driver}
      → Ensures Rest P m d
      → ((a : A) (d' : Driver) → P a d' → Q a d')
      → Ensures Rest Q m d
  Ensures-weaken {P} {m} {d} h weaken = ensured (weakened (m d) h.holds)
    where
      weakened : (r : Outcome A × Driver) → Done Rest P r → Done Rest Q r
      weakened (done a, d) p = weaken a d p
      weakened (raised e, d) p = p
      weakened (waiting, d) p = p
      weakened (exhausted, d) p = p

Done-both {ℓ} :
    {A : Type ℓ} (Rest : Driver → Type 0) (P Q : A → Driver → Type 0) (r : Outcome A × Driver)
    → Done Rest P r
    → Done Rest Q r
    → Done Rest (λ a d. P a d × Q a d) r
Done-both Rest P Q (done a, d) p q = (p, q)
Done-both Rest P Q (raised e, d) p q = p
Done-both Rest P Q (waiting, d) p q = p
Done-both Rest P Q (exhausted, d) p q = p

pub Ensures-both {ℓ} :
    {A : Type ℓ} {Rest : Driver → Type 0} {P Q : A → Driver → Type 0} {m : Run A} {d : Driver}
    → Ensures Rest P m d
    → Ensures Rest Q m d
    → Ensures Rest (λ a d'. P a d' × Q a d') m d
Ensures-both {Rest} {P} {Q} {m} {d} p q = ensured (Done-both Rest P Q (m d) p.holds q.holds)

-- An outcome that a test decides.
pub Done-if {ℓ} :
    {A : Type ℓ} (Rest : Driver → Type 0) (Q : A → Driver → Type 0) (b : Bool) (x y : Outcome A)
    (d : Driver)
    → Done Rest Q (x, d)
    → Done Rest Q (y, d)
    → Done Rest Q (if b then x else y, d)
Done-if Rest Q true x y d p q = p
Done-if Rest Q false x y d p q = q

module _ {ℓ κ} {A : Type ℓ} {B : Type κ} {Rest : Driver → Type 0} {P : A → Driver → Type 0}
    {Q : B → Driver → Type 0} where
  Done-continue :
      (rest : A → Run B) (r : Outcome A × Driver)
      → Done Rest P r
      → ((a : A) (d' : Driver) → P a d' → Ensures Rest Q (rest a) d')
      → Done Rest Q (continue rest r)
  Done-continue rest (done a, d) p after = (after a d p).holds
  Done-continue rest (raised e, d) p after = p
  Done-continue rest (waiting, d) p after = p
  Done-continue rest (exhausted, d) p after = p

  pub Ensures-bind :
      {first : Run A} {rest : A → Run B} {d : Driver}
      → Ensures Rest P first d
      → ((a : A) (d' : Driver) → P a d' → Ensures Rest Q (rest a) d')
      → Ensures Rest Q (first >>= rest) d
  unfolding ◌>>=◌
  Ensures-bind {first} {rest} {d} h after = ensured (Done-continue rest (first d) h.holds after)

module _ {ℓ κ} {A : Type ℓ} {B : Type κ} {Rest : Driver → Type 0} {Q : B → Driver → Type 0} where
  pub Ensures-gets :
      (f : Driver → A) (rest : A → Run B) (d : Driver)
      → Ensures Rest Q (rest (f d)) d
      → Ensures Rest Q (gets f >>= rest) d
  unfolding ◌>>=◌
  Ensures-gets f rest d h = ensured h.holds

module _ {κ} {B : Type κ} {Rest : Driver → Type 0} {Q : B → Driver → Type 0} where
  pub Ensures-modify :
      (f : Driver → Driver) (rest : Unit {0} → Run B) (d : Driver)
      → Ensures Rest Q (rest tt) (f d)
      → Ensures Rest Q (modify f >>= rest) d
  unfolding ◌>>=◌
  Ensures-modify f rest d h = ensured h.holds
