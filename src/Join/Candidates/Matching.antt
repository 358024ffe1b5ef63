-- ===== src/Join/Candidates/Matching.antt =====
-- The match of a receipt that needs no model.
use Prim.Native.Nat.{Ordering}
use mathlib.Core.Path.{subst}
use ynab_agent.Common.{
  ◌≡◌, refl, ℕ, suc, zero, Bool, true, false, Option, none, some, List, [], ◌∷◌, take, filter, ap,
  ◌++◌, Memᴰ, All-both, All-filter, All-filter_test, All-mem, is_none, All, arith, Bool-cases, inl,
  inr, if◌then◌else◌,
}
use ynab_agent.Common.Sort.{insert_by, sorted_by, is_lt}
use ynab_agent.Domain.Ids.{YnabTransactionId}
use ynab_agent.Domain.Signal.{Receipt}
use ynab_agent.Domain.Transaction.{YnabSnapshot}
use ynab_agent.Join.{MatchOutcome, confident_match}
use ynab_agent.Join.Candidates.{
  max_candidates, admits, compare_ranks, candidate_pool, is_exact, single, exact_single_match,
}
use ynab_agent.Join.Candidates.Fits.{
  IsPurchase, Fits, admits-IsPurchase, is_exact-Fits, Fits-is_exact,
}

module _ {ℓ κ} {A : Type ℓ} (P : A → Type κ) where
  All-insert_by :
      (cmp : A → A → Ordering) (r : A) (xs : List A) → P r → All P xs → All P (insert_by cmp r xs)
  unfolding insert_by
  All-insert_by cmp r [] p h = (p, tt)
  All-insert_by cmp r (x ∷ xs) p h = elim (Bool-cases (is_lt (cmp x r))) [
    | inl e ↦ rw e (h.0, All-insert_by cmp r xs p h.1)
    | inr e ↦ rw e (p, h)
  ]

  sorted_by-All : (cmp : A → A → Ordering) (xs : List A) → All P xs → All P (sorted_by cmp xs)
  unfolding sorted_by
  sorted_by-All cmp [] h = tt
  sorted_by-All cmp (x ∷ xs) h =
      All-insert_by cmp x (sorted_by cmp xs) h.0 (sorted_by-All cmp xs h.1)

  All-take : (n : ℕ) (xs : List A) → All P xs → All P (take n xs)
  All-take zero xs h = tt
  All-take (suc n) [] h = tt
  All-take (suc n) (x ∷ xs) h = (h.0, All-take n xs h.1)

unless_none :
    (b : Bool) (found : Option MatchOutcome) {o : MatchOutcome}
    → (if b then none else found) ≡ some o
    → found ≡ some o
unless_none true found h = cc
unless_none false found h = h

cons_ne_nil {ℓ} : {A : Type ℓ} {x : A} {xs : List A} → x ∷ xs ≡ [] → ⊥
cons_ne_nil e = cc

filter-nil_inv {ℓ} :
    {A : Type ℓ} (p : A → Bool) (xs : List A) → filter p xs ≡ [] → All (λ x. p x ≡ false) xs
unfolding filter
filter-nil_inv p [] h = tt
filter-nil_inv p (x ∷ xs) h = elim (Bool-cases (p x)) [
  | inl t ↦ absurd (cons_ne_nil (rw t at h))
  | inr f ↦ (f, filter-nil_inv p xs (rw f at h))
]

true_ne_false : {b : Bool} → b ≡ true → b ≡ false → ⊥
true_ne_false t f = cc

All-parts {ℓ κ} :
    {A : Type ℓ} (P : A → Type κ) (xs ys : List A) → All P (xs ++ ys) → All P xs × All P ys
All-parts P [] ys h = (tt, h)
All-parts P (x ∷ xs) ys h = let (front, back) = All-parts P xs ys h.1 in ((h.0, front), back)

-- Where a test filters one element out of a list, no element before or after it passes.
filter-single {ℓ} :
    {A : Type ℓ} (p : A → Bool) (xs : List A) (x : A)
    → filter p xs ≡ x ∷ []
    → (before after : List A) × (xs ≡ before ++ x ∷ after)
      × All (λ y. p y ≡ false) before
      × All (λ y. p y ≡ false) after
unfolding filter
filter-single p [] x h = cc
filter-single p (y ∷ ys) x h = elim (Bool-cases (p y)) [
  | inl t ↦ ([], ys, ground arith, tt, filter-nil_inv p ys (ground arith))
  | inr f ↦
      let (before, after, e, b, a) = filter-single p ys x (rw f at h) in
      (y ∷ before, after, ap (λ l. y ∷ l) e, (f, b), a)
]

module _ (receipt : Receipt) (transactions : List YnabSnapshot) where
  -- A purchase among the transactions.
  abbrev IsBought : YnabSnapshot → Type 0
  IsBought t = IsPurchase t × Memᴰ t transactions

  candidate_pool-IsBought : All IsBought (candidate_pool receipt transactions)
  unfolding candidate_pool
  candidate_pool-IsBought = All-take IsBought max_candidates _ (
      sorted_by-All IsBought (compare_ranks receipt) _ (
        All-both (λ t. Memᴰ t transactions) (λ t. admits receipt t ≡ true) IsBought
          (λ t m a. (admits-IsPurchase receipt t a, m)) _
          (All-filter (λ t. Memᴰ t transactions) (admits receipt) transactions
            (All-mem transactions))
          (All-filter_test (admits receipt) transactions)))

  -- What a single candidate tells.
  abbrev Sole : YnabTransactionId → List YnabSnapshot → Type 0
  Sole id exact = (t : YnabSnapshot) × (exact ≡ t ∷ []) × (t.ynab_id ≡ id)

  single-Sole :
      (exact : List YnabSnapshot) {id : YnabTransactionId}
      → single exact ≡ some (confident_match id)
      → Sole id exact
  single-Sole [] h = cc
  single-Sole (t ∷ []) h = (t, refl, ground arith)
  single-Sole (t ∷ u ∷ ts) h = cc

  misfits :
      (us : List YnabSnapshot)
      → All IsBought us
      → All (λ u. is_exact receipt u ≡ false) us
      → All (λ u. ¬ Fits receipt u) us
  misfits us bought misses =
      All-both IsBought (λ u. is_exact receipt u ≡ false) (λ u. ¬ Fits receipt u)
        (λ u b m f. true_ne_false (Fits-is_exact receipt u b.0 f) m) us bought misses

  -- A receipt is matched without a model only to a purchase among the transactions: money that went
  -- out, and not to another account. The receipt has a total, the amount spent is within 5 milliunits
  -- of it, and the transaction's day, where the receipt has one, is at most one day from that. Of the
  -- pool of candidates, no other, before or after it, is as near.
  pub exact_single_match_sound :
      {id : YnabTransactionId}
      → exact_single_match receipt (candidate_pool receipt transactions) ≡ some (confident_match id)
      → (t : YnabSnapshot) × (t.ynab_id ≡ id)
        × Memᴰ t transactions
        × IsPurchase t
        × Fits receipt t
        × (before after : List YnabSnapshot) × (candidate_pool receipt transactions
            ≡ before ++ t ∷ after)
        × All (λ u. ¬ Fits receipt u) before
        × All (λ u. ¬ Fits receipt u) after
  unfolding exact_single_match
  exact_single_match_sound h =
      let pool = candidate_pool receipt transactions in
      let (t, alone, id) =
        single-Sole (filter (is_exact receipt) pool) (unless_none (is_none receipt.total) _ h) in
      let (before, after, parts, b, a) = filter-single (is_exact receipt) pool t alone in
      let exact = All-filter_test (is_exact receipt) pool in
      let ((bought, among), _) =
        subst (All IsBought) alone
          (All-filter IsBought (is_exact receipt) pool candidate_pool-IsBought) in
      let (first, second) =
        All-parts IsBought before (t ∷ after)
          (subst (All IsBought) parts candidate_pool-IsBought) in
      (
        t,
        id,
        among,
        bought,
        is_exact-Fits receipt t bought (subst (All (λ u. is_exact receipt u ≡ true)) alone exact).0,
        before,
        after,
        parts,
        misfits before first b,
        misfits after second.1 a,
      )
