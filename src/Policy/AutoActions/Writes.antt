-- ===== src/Policy/AutoActions/Writes.antt =====
-- The automatic writes themselves: the attempts that the floor allows, each recorded before the
-- next is checked. The fold is no function of the program: the gate of a transaction's workflow reads
-- the counters, and its effect records the write.
use ynab_agent.Common.{
  ◌+◌, ◌≤◌, ◌≡◌, ◌≢◌, refl, String, Bool, true, false, not, ◌&&◌, Option, List, [], ◌∷◌, filter,
  count, count-filter_eq, count_mono, All, one_if, if◌then◌else◌, ◌⊎◌, inl, inr, Bool-cases, arith,
}
use ynab_agent.Common.Int.{◌-ℤ◌, ◌≤ℤ◌, ltb_ℤ}
use ynab_agent.Domain.Ids.{Datetime, Timedelta}
use ynab_agent.Domain.Money.{Money}
use ynab_agent.Policy.Floor.{FloorVerdict, FloorPolicy, check_floor}
use ynab_agent.Policy.AutoActions.{
  AutoActionEntry, AutoActionLedgerState, is_recent, has_id, record_action, counters, run_window,
  day_window,
}
use ynab_agent.Policy.AutoActions.Breaker.{
  IsBound, IsBound-later, record_action-IsBound, kept, keeps_one, count-record_action,
}

is_allowed : FloorVerdict → Bool
is_allowed FloorVerdict.allow = true
is_allowed _ = false

verdict_cases : (v : FloorVerdict) → (v ≡ FloorVerdict.allow) ⊎ (is_allowed v ≡ false)
unfolding is_allowed
verdict_cases FloorVerdict.allow = inl refl
verdict_cases FloorVerdict.force_human = inr refl
verdict_cases FloorVerdict.trip_breaker = inr refl

-- An attempt at an automatic write: its transaction, amount and time. One that the floor allows is
-- recorded before the next is checked.
pub record Attempt : Type 0 where
  pub ynab_id : String
  pub amount : Option Money
  pub at : Datetime

attempt : FloorPolicy → AutoActionLedgerState → Attempt → AutoActionLedgerState
attempt p s a =
    if is_allowed (check_floor a.amount (counters s a.at run_window day_window) p)
    then record_action s a.ynab_id a.at day_window
    else s

pub attempts : FloorPolicy → AutoActionLedgerState → List Attempt → AutoActionLedgerState
attempts p s [] = s
attempts p s (a ∷ as') = attempts p (attempt p s a) as'

-- The attempts follow one another in time, the last by `end`.
abbrev pub Ordered : Datetime → List Attempt → Datetime → Type 0
Ordered start [] end = start ≤ℤ end
Ordered start (a ∷ as') end = (start ≤ℤ a.at) × Ordered a.at as' end

attempt-IsBound :
    (p : FloorPolicy) (s : AutoActionLedgerState) (a : Attempt)
    → IsBound p s a.at
    → IsBound p (attempt p s a) a.at
unfolding attempt is_allowed
attempt-IsBound p s a b =
    let verdict = check_floor a.amount (counters s a.at run_window day_window) p in
    elim (verdict_cases verdict) [
      | inl e ↦ rw e (record_action-IsBound p s a.amount a.ynab_id a.at day_window e)
      | inr e ↦ rw e b
    ]

attempts-IsBound :
    (p : FloorPolicy) (tried : List Attempt) (s : AutoActionLedgerState) (start end : Datetime)
    → Ordered start tried end
    → IsBound p s start
    → IsBound p (attempts p s tried) end
unfolding attempts
attempts-IsBound p [] s start end o b = IsBound-later p s start end o b
attempts-IsBound p (a ∷ rest) s start end o b =
    attempts-IsBound p rest (attempt p s a) a.at end o.1
      (attempt-IsBound p s a (IsBound-later p s start a.at o.0 b))

-- The attempts that the floor allows: the writes that are made.
pub auto_writes : FloorPolicy → AutoActionLedgerState → List Attempt → List Attempt
auto_writes p s [] = []
auto_writes p s (a ∷ rest) =
    let later = auto_writes p (attempt p s a) rest in
    if is_allowed (check_floor a.amount (counters s a.at run_window day_window) p)
    then a ∷ later
    else later

-- A write within the window that ends at `end`.
abbrev pub is_fresh : Datetime → Timedelta → Attempt → Bool
is_fresh end window a = ltb_ℤ (end -ℤ a.at) window

-- No transaction is attempted twice.
abbrev pub Distinct : List Attempt → Type 0
Distinct [] = Unit
Distinct (a ∷ rest) = All (λ b. b.ynab_id ≢ a.ynab_id) rest × Distinct rest

-- The entry is of none of the attempted transactions.
is_foreign : List Attempt → AutoActionEntry → Bool
is_foreign [] e = true
is_foreign (a ∷ rest) e = not (has_id a.ynab_id e) && is_foreign rest e

is_foreign-entry :
    (a : Attempt) (rest : List Attempt)
    → All (λ b. b.ynab_id ≢ a.ynab_id) rest
    → is_foreign rest (record { ynab_id = a.ynab_id; at = a.at }) ≡ true
unfolding is_foreign has_id
is_foreign-entry a [] d = refl
is_foreign-entry a (b ∷ rest) d = ground (arith, d.0, is_foreign-entry a rest d.1)

Ordered-le : (start end : Datetime) (tried : List Attempt) → Ordered start tried end → start ≤ℤ end
Ordered-le start end [] o = o
Ordered-le start end (a ∷ rest) o = omega (arith, o.0, Ordered-le a.at end rest o.1)

module _ (p : FloorPolicy) (end : Datetime) (window : Timedelta) where
  abbrev foreign_recent : List Attempt → AutoActionEntry → Bool
  foreign_recent tried e = is_foreign tried e && is_recent end window e

  -- What was recent of other transactions is still there once the write is recorded.
  foreign_kept :
      (a : Attempt) (rest : List Attempt) (s : AutoActionLedgerState)
      → window ≤ℤ day_window
      → a.at ≤ℤ end
      → count (foreign_recent (a ∷ rest)) s.entries
        ≤ count (foreign_recent rest) (kept s a.ynab_id a.at day_window)
  unfolding is_foreign
  foreign_kept a rest s w o =
      let keeps =
        λ (e : AutoActionEntry). not (has_id a.ynab_id e) && is_recent a.at day_window e in
      omega (
        arith,
        count-filter_eq (foreign_recent (a ∷ rest)) keeps
            (λ e k. keeps_one a.at end window day_window a.ynab_id e o w (ground arith)) s.entries,
        count_mono (foreign_recent (a ∷ rest)) (foreign_recent rest) (λ e k. ground arith)
            (filter keeps s.entries),
      )

  one_recorded :
      (a : Attempt) (rest : List Attempt) (s : AutoActionLedgerState)
      → window ≤ℤ day_window
      → a.at ≤ℤ end
      → All (λ b. b.ynab_id ≢ a.ynab_id) rest
      → one_if (is_fresh end window a) + count (foreign_recent (a ∷ rest)) s.entries
        ≤ count (foreign_recent rest) (record_action s a.ynab_id a.at day_window).entries
  unfolding is_recent
  one_recorded a rest s w o d = ground (
    arith,
    foreign_kept a rest s w o,
    count-record_action s a.ynab_id a.at day_window (foreign_recent rest),
    is_foreign-entry a rest d,
  )

  -- Each fresh write is in the ledger in the end, beside what it held of other transactions.
  writes_recorded :
      (tried : List Attempt) (s : AutoActionLedgerState) (start : Datetime)
      → window ≤ℤ day_window
      → Ordered start tried end
      → Distinct tried
      → count (is_fresh end window) (auto_writes p s tried) + count (foreign_recent tried) s.entries
        ≤ count (is_recent end window) (attempts p s tried).entries
  unfolding auto_writes attempts attempt is_foreign count
  writes_recorded [] s start w o d =
      omega (
        arith,
        count_mono (foreign_recent []) (is_recent end window) (λ e k. ground arith) s.entries,
      )
  writes_recorded (a ∷ rest) s start w o d =
      let ends = Ordered-le a.at end rest o.1 in
      elim (Bool-cases
        (is_allowed (check_floor a.amount (counters s a.at run_window day_window) p))) [
          | inl e ↦ rw e (
              ground (
                arith,
                one_recorded a rest s w ends d.0,
                writes_recorded rest (record_action s a.ynab_id a.at day_window) a.at w o.1 d.1,
              ))
          | inr e ↦ rw e (
              ground (
                arith,
                writes_recorded rest s a.at w o.1 d.1,
                count_mono (foreign_recent (a ∷ rest)) (foreign_recent rest) (λ x k. ground arith)
                    s.entries,
              ))
        ]

-- The breaker binds. Attempts at automatic writes are given in the order of time, no transaction
-- twice; each is checked by the floor against the counters at its time, and, where the floor allows
-- it, made and recorded before the next is checked. From a ledger whose counters are within the caps,
-- the writes so made in the last hour are then at most as many as the cap of a run, and those of the
-- last day as the cap of a day, whenever one looks after the last attempt.
pub auto_writes_capped :
    (p : FloorPolicy) (tried : List Attempt) (s : AutoActionLedgerState) (start end : Datetime)
    → Ordered start tried end
    → Distinct tried
    → IsBound p s start
    → (count (is_fresh end run_window) (auto_writes p s tried) ≤ p.per_run_cap)
      × (count (is_fresh end day_window) (auto_writes p s tried) ≤ p.per_day_cap)
unfolding counters
auto_writes_capped p tried s start end o d b =
    let bound = attempts-IsBound p tried s start end o b in
    (
      omega (
        arith,
        bound.run_bound,
        writes_recorded p end run_window tried s start (omega arith) o d,
      ),
      omega (
        arith,
        bound.day_bound,
        writes_recorded p end day_window tried s start (omega arith) o d,
      ),
    )
