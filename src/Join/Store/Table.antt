-- ===== src/Join/Store/Table.antt =====
-- What the bounded table of receipts keeps and serves.
use ynab_agent.Common.{
  ℕ, zero, suc, ◌-◌, ◌≤◌, ◌≡◌, refl, String, Bool, true, false, not, some, List, [], ◌∷◌, ◌++◌, map,
  filter, find?, any, take, take_last, drop, length, length-take_last, length-append, leb, All,
  Bool-cases, inl, inr, arith, None, any-None, None-any, find?-last, None-filter, None-drop,
  filter-last, drop-last,
}
use ynab_agent.Domain.Enums.{ReceiptStatus}
use ynab_agent.Domain.Signal.{Receipt}
use ynab_agent.Join.Store.{
  ReceiptLedgerState, ledger_cap, is_open, has_id, insert_oldest, oldest_first, is_dropped, dropped,
  kept, bounded, park_receipt, set_status, with_status, get,
}

pub length-bounded : (table : List Receipt) → length (bounded table) ≤ 100
unfolding bounded
length-bounded table = elim (Bool-cases (leb (length table) ledger_cap)) [
  | inl e ↦ rw e (ground arith)
  | inr e ↦ rw e (length-take_last ledger_cap (kept table))
]

-- The lists of the table's operations, by a predicate on receipts.
module _ (P : Receipt → Type 0) where
  All-insert_oldest :
      (r : Receipt) (xs : List Receipt) → P r → All P xs → All P (insert_oldest r xs)
  unfolding insert_oldest
  All-insert_oldest r [] p a = (p, tt)
  All-insert_oldest r (x ∷ xs) p a = ground (arith, All-insert_oldest r xs p a.1)

  pub All-oldest_first : (xs : List Receipt) → All P xs → All P (oldest_first xs)
  unfolding oldest_first
  All-oldest_first [] a = tt
  All-oldest_first (x ∷ xs) a = All-insert_oldest x (oldest_first xs) a.0 (All-oldest_first xs a.1)

  pub All-take : (n : ℕ) (xs : List Receipt) → All P xs → All P (take n xs)
  All-take zero xs a = tt
  All-take (suc n) [] a = tt
  All-take (suc n) (x ∷ xs) a = (a.0, All-take n xs a.1)

pub filter-open-last :
    (rs : List Receipt) (r : Receipt)
    → is_open r ≡ true
    → filter (λ x. not (is_open x)) (rs ++ r ∷ []) ≡ filter (λ x. not (is_open x)) rs
unfolding filter
filter-open-last [] r o = rw o refl
filter-open-last (x ∷ rs) r o = elim (Bool-cases (is_open x)) [
  | inl t ↦ rw (t, filter-open-last rs r o) refl
  | inr f ↦ rw (f, filter-open-last rs r o) refl
]

-- Nothing that ages off has the id of an open receipt that is new to the table.
dropped-fresh :
    (rs : List Receipt) (r : Receipt)
    → None (has_id r.id) rs
    → is_open r ≡ true
    → None (has_id r.id) (dropped (rs ++ r ∷ []))
unfolding dropped
dropped-fresh rs r f o =
    All-take (λ x. has_id r.id x ≡ false) (length (rs ++ r ∷ []) - ledger_cap)
      (oldest_first (filter (λ x. not (is_open x)) (rs ++ r ∷ [])))
      (All-oldest_first (λ x. has_id r.id x ≡ false) (filter (λ x. not (is_open x)) (rs ++ r ∷ []))
        (rw (filter-open-last rs r o) (None-filter (has_id r.id) (λ x. not (is_open x)) rs f)))

pub has_id_self : (r : Receipt) → has_id r.id r ≡ true
unfolding has_id
has_id_self r = ground arith

pub has_id_sym : (x r : Receipt) → has_id r.id x ≡ false → has_id x.id r ≡ false
unfolding has_id
has_id_sym x r f = ground arith

pub has_id_eq : (id : String) (r : Receipt) → has_id id r ≡ true → r.id ≡ id
unfolding has_id
has_id_eq id r t = ground arith

kept-fresh :
    (rs : List Receipt) (r : Receipt)
    → None (has_id r.id) rs
    → is_open r ≡ true
    → kept (rs ++ r ∷ []) ≡ filter (λ x. not (is_dropped (dropped (rs ++ r ∷ [])) x)) rs ++ r ∷ []
unfolding kept is_dropped
kept-fresh rs r f o =
    filter-last (λ x. not (is_dropped (dropped (rs ++ r ∷ [])) x)) rs r
      (rw (None-any (has_id r.id) (dropped (rs ++ r ∷ [])) (dropped-fresh rs r f o)) refl)

-- The last hundred of a list that ends with a new entry still end with it.
find?-take_last :
    (p : Receipt → Bool) (rs : List Receipt) (r : Receipt)
    → None p rs
    → p r ≡ true
    → find? p (take_last ledger_cap (rs ++ r ∷ [])) ≡ some r
find?-take_last p rs r f t =
    rw
      (drop-last (length (rs ++ r ∷ []) - ledger_cap) rs r
        (omega (arith, length-append rs (r ∷ []))))
      (find?-last p (drop (length (rs ++ r ∷ []) - ledger_cap) rs) r
        (None-drop p (length (rs ++ r ∷ []) - ledger_cap) rs f) t)

find?-bounded :
    (rs : List Receipt) (r : Receipt)
    → None (has_id r.id) rs
    → is_open r ≡ true
    → find? (has_id r.id) (bounded (rs ++ r ∷ [])) ≡ some r
unfolding bounded
find?-bounded rs r f o = elim (Bool-cases (leb (length (rs ++ r ∷ [])) ledger_cap)) [
  | inl e ↦ rw e (find?-last (has_id r.id) rs r f (has_id_self r))
  | inr e ↦
      rw (e, kept-fresh rs r f o)
        (find?-take_last (has_id r.id)
          (filter (λ x. not (is_dropped (dropped (rs ++ r ∷ [])) x)) rs) r
          (None-filter (has_id r.id) (λ x. not (is_dropped (dropped (rs ++ r ∷ [])) x)) rs f)
          (has_id_self r))
]

-- A parked receipt is served, however full the table is: an open receipt whose id is new to the
-- table is what `get` then returns for its id, and the table is within its cap of 100.
pub get-park_receipt :
    (state : ReceiptLedgerState) (r : Receipt)
    → any (has_id r.id) state.receipts ≡ false
    → is_open r ≡ true
    → (get (park_receipt state r) r.id ≡ some r) × (length (park_receipt state r).receipts ≤ 100)
unfolding get park_receipt
get-park_receipt state r f o = rw f (
  find?-bounded state.receipts r (any-None (has_id r.id) state.receipts f) o,
  length-bounded (state.receipts ++ r ∷ []),
)

find?-with_status :
    (rs : List Receipt) (id : String) (status : ReceiptStatus) {r : Receipt}
    → find? (has_id id) rs ≡ some r
    → find? (has_id id) (map (with_status id status) rs) ≡ some (record r { status = status })
unfolding find? with_status has_id
find?-with_status [] id status e = cc
find?-with_status (x ∷ rs) id status {r} e = elim (Bool-cases (has_id id x)) [
  | inl t ↦ ground arith
  | inr f ↦ ground (arith, find?-with_status rs id status {r = r})
]

pub receipts-set_status :
    (state : ReceiptLedgerState) (id : String) (status : ReceiptStatus)
    → (set_status state id status).receipts ≡ map (with_status id status) state.receipts
unfolding set_status
receipts-set_status state id status = ground arith

-- The saved status is what a later run reads: where the table holds the receipt, `get` then
-- returns it with its new status.
pub get-set_status :
    (state : ReceiptLedgerState) (id : String) (status : ReceiptStatus) {r : Receipt}
    → get state id ≡ some r
    → get (set_status state id status) id ≡ some (record r { status = status })
unfolding get
get-set_status state id status e =
    rw (receipts-set_status state id status) (find?-with_status state.receipts id status e)
