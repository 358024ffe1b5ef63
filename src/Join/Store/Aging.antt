-- ===== src/Join/Store/Aging.antt =====
-- Settled receipts age off first: an open one stays in the table while there is room for it.
use ynab_agent.Common.{
  ℕ, zero, suc, ◌+◌, ◌-◌, ◌≤◌, ◌<◌, ◌≡◌, refl, String, Bool, true, false, not, some, List, [], ◌∷◌,
  ◌++◌, filter, find?, any, count, take, drop, length, length-append, leb, All, Bool-cases, inl,
  inr, arith, None, any-None, None-any, find?_test, All-imp, All-mem, All-filter, any_of_mem, Memᴰ,
  None-append, None-filter,
}
use mathlib.Core.Path.{subst}
use ynab_agent.Domain.Signal.{Receipt}
use ynab_agent.Join.Store.{
  ReceiptLedgerState, ledger_cap, is_open, has_id, insert_oldest, oldest_first, is_dropped, dropped,
  kept, bounded, park_receipt, get,
}
use ynab_agent.Join.Store.Table.{
  All-oldest_first, All-take, has_id_sym, has_id_eq, has_id_self, length-bounded,
}

abbrev is_settled : Receipt → Bool
is_settled r = not (is_open r)

length-insert_oldest :
    (r : Receipt) (xs : List Receipt) → length (insert_oldest r xs) ≡ suc (length xs)
unfolding insert_oldest
length-insert_oldest r [] = refl
length-insert_oldest r (x ∷ xs) = ground (arith, length-insert_oldest r xs)

length-oldest_first : (xs : List Receipt) → length (oldest_first xs) ≡ length xs
unfolding oldest_first
length-oldest_first [] = refl
length-oldest_first (x ∷ xs) =
    omega (arith, length-insert_oldest x (oldest_first xs), length-oldest_first xs)

length-settled : (xs : List Receipt) → length (filter is_settled xs) + count is_open xs ≡ length xs
unfolding filter count
length-settled [] = refl
length-settled (x ∷ xs) = ground (arith, length-settled xs)

module _ {ℓ} {A : Type ℓ} (p q : A → Bool) where
  find?-append : (xs ys : List A) {x : A} → find? p xs ≡ some x → find? p (xs ++ ys) ≡ some x
  unfolding find?
  find?-append [] ys e = cc
  find?-append (y ∷ xs) ys {x} e = elim (Bool-cases (p y)) [
    | inl t ↦ ground arith
    | inr f ↦ ground (arith, find?-append xs ys {x = x})
  ]

  find?-filter :
      (xs : List A) {x : A} → find? p xs ≡ some x → q x ≡ true → find? p (filter q xs) ≡ some x
  unfolding find? filter
  find?-filter [] e t = cc
  find?-filter (y ∷ xs) {x} e t = elim (Bool-cases (p y)) [
    | inl f ↦ ground arith
    | inr f ↦ ground (arith, find?-filter xs {x = x})
  ]

  length-filter_le : (xs : List A) → length (filter q xs) ≤ length xs
  unfolding filter
  length-filter_le [] = omega arith
  length-filter_le (x ∷ xs) = ground (arith, length-filter_le xs)

  -- A filter that takes something out is shorter.
  length-filter_lt :
      (xs : List A) → any (λ x. not (q x)) xs ≡ true → length (filter q xs) < length xs
  unfolding any filter
  length-filter_lt [] e = ground arith
  length-filter_lt (x ∷ xs) e = elim (Bool-cases (q x)) [
    | inl t ↦ rw t (omega (arith, length-filter_lt xs (rw t at e)))
    | inr f ↦ rw f (omega (arith, length-filter_le xs))
  ]

  any_mono : ((x : A) → p x ≡ true → q x ≡ true) → (xs : List A) → any p xs ≡ true → any q xs ≡ true
  unfolding any
  any_mono h [] e = e
  any_mono h (x ∷ xs) e = ground (arith, h x, any_mono h xs)

-- The ids of a table differ.
abbrev pub Distinct : List Receipt → Type 0
Distinct [] = Unit
Distinct (x ∷ xs) = None (has_id x.id) xs × Distinct xs

-- The tables that the workflow can carry.
pub record IsTable (table : List Receipt) : Type 0 where
  pub within : length table ≤ 100
  pub distinct : Distinct table

Distinct-last :
    (xs : List Receipt) (r : Receipt)
    → Distinct xs
    → None (has_id r.id) xs
    → Distinct (xs ++ r ∷ [])
unfolding has_id
Distinct-last [] r d f = (tt, tt)
Distinct-last (x ∷ xs) r d f =
    (None-append (has_id x.id) xs (r ∷ []) d.0 (has_id_sym x r f.0, tt), Distinct-last xs r d.1 f.1)

Distinct-filter : (q : Receipt → Bool) (xs : List Receipt) → Distinct xs → Distinct (filter q xs)
unfolding filter
Distinct-filter q [] d = tt
Distinct-filter q (x ∷ xs) d = elim (Bool-cases (q x)) [
  | inl t ↦ rw t (None-filter (has_id x.id) q xs d.0, Distinct-filter q xs d.1)
  | inr f ↦ rw f (Distinct-filter q xs d.1)
]

Distinct-drop : (n : ℕ) (xs : List Receipt) → Distinct xs → Distinct (drop n xs)
Distinct-drop zero xs d = d
Distinct-drop (suc n) [] d = tt
Distinct-drop (suc n) (x ∷ xs) d = Distinct-drop n xs d.1

Distinct-bounded : (table : List Receipt) → Distinct table → Distinct (bounded table)
unfolding bounded kept
Distinct-bounded table d = elim (Bool-cases (leb (length table) ledger_cap)) [
  | inl e ↦ rw e d
  | inr e ↦ rw e (
      Distinct-drop _ (kept table)
        (Distinct-filter (λ r. not (is_dropped (dropped table) r)) table d))
]

-- `park` keeps the ids apart and the table within its cap, whatever it is given.
pub park_receipt-IsTable :
    (state : ReceiptLedgerState) (r : Receipt)
    → IsTable state.receipts
    → IsTable (park_receipt state r).receipts
unfolding park_receipt
park_receipt-IsTable state r v = elim (Bool-cases (any (has_id r.id) state.receipts)) [
  | inl known ↦ rw known v
  | inr new ↦ rw new (record {
    within = length-bounded (state.receipts ++ r ∷ []);
    distinct =
        Distinct-bounded (state.receipts ++ r ∷ [])
          (Distinct-last state.receipts r v.distinct (any-None (has_id r.id) state.receipts new));
  })
]

-- Where ids differ, no settled receipt has the id of an open one.
settled-others :
    (id : String) (xs : List Receipt) {x : Receipt}
    → Distinct xs
    → find? (has_id id) xs ≡ some x
    → is_open x ≡ true
    → None (has_id id) (filter is_settled xs)
unfolding find? filter
settled-others id [] d e o = tt
settled-others id (y ∷ xs) {x} d e o = elim (Bool-cases (has_id id y)) [
  | inl t ↦
      let same : x ≡ y = ground arith in
      let open_y : is_open y ≡ true = subst (λ z. is_open z ≡ true) same o in
      rw open_y (
        None-filter (has_id id) is_settled xs
          (subst (λ i. None (has_id i) xs) (has_id_eq id y t) d.0))
  | inr f ↦
      let rest : None (has_id id) (filter is_settled xs) = settled-others id xs d.1 (rw f at e) o in
      elim (Bool-cases (is_settled y)) [ inl s ↦ rw s (f, rest) | inr s ↦ rw s rest ]
]

own_id : (table : List Receipt) → All (λ y. any (λ x. has_id x.id y) table ≡ true) table
own_id table =
    All-imp (λ y. Memᴰ y table) (λ y. any (λ x. has_id x.id y) table ≡ true)
      (λ y m. any_of_mem (λ x. has_id x.id y) table (has_id_self y) m) table (All-mem table)

-- The first of a list whose elements all have their ids in the table is dropped from it.
first-dropped :
    (table gone : List Receipt) (n : ℕ)
    → 0 < n
    → 0 < length gone
    → All (λ y. any (λ x. has_id x.id y) table ≡ true) gone
    → any (is_dropped (take n gone)) table ≡ true
unfolding is_dropped any
first-dropped table gone zero k g a = elim k [ ]
first-dropped table [] (suc n) k g a = elim g [ ]
first-dropped table (t ∷ gone) (suc n) k g a =
    any_mono (λ x. has_id x.id t) (is_dropped (t ∷ take n gone)) (λ x h. rw h refl) table a.0

-- Something ages off when an open receipt arrives at a full table that has a settled one.
ages_off :
    (table : List Receipt)
    → length table ≡ 101
    → count is_open table ≤ 100
    → any (is_dropped (dropped table)) table ≡ true
unfolding dropped
ages_off table full o =
    let settled = filter is_settled table in
    first-dropped table (oldest_first settled) (length table - ledger_cap) (omega arith)
      (omega (arith, length-oldest_first settled, length-settled table))
      (All-oldest_first (λ y. any (λ x. has_id x.id y) table ≡ true) settled
        (All-filter (λ y. any (λ x. has_id x.id y) table ≡ true) is_settled table (own_id table)))

-- What is served is not dropped.
survives :
    (table : List Receipt) (id : String) {x : Receipt}
    → Distinct table
    → find? (has_id id) table ≡ some x
    → is_open x ≡ true
    → not (is_dropped (dropped table) x) ≡ true
unfolding dropped is_dropped
survives table id {x} d e o = rw (has_id_eq id x (find?_test (has_id id) table e)) (
    rw (
      None-any (has_id id) (dropped table) (
        All-take (λ y. has_id id y ≡ false) (length table - ledger_cap)
          (oldest_first (filter is_settled table))
          (All-oldest_first (λ y. has_id id y ≡ false) (filter is_settled table)
            (settled-others id table d e o)))))

-- A table that is one over its cap loses just what ages off.
bounded-full :
    (table : List Receipt)
    → length table ≡ 101
    → count is_open table ≤ 100
    → bounded table ≡ kept table
unfolding bounded kept
bounded-full table full o =
    let over : leb (length table) ledger_cap ≡ false = ground arith in
    let all_fit : length (kept table) - 100 ≡ 0 = omega (
      arith,
      length-filter_lt (is_dropped (dropped table)) (λ r. not (is_dropped (dropped table) r)) table
          (any_mono (is_dropped (dropped table)) (λ x. not (not (is_dropped (dropped table) x)))
            (λ x h. rw h refl) table (ages_off table full o)),
    ) in
    rw (over, all_fit) refl

bounded-small :
    (table : List Receipt) → leb (length table) ledger_cap ≡ true → bounded table ≡ table
unfolding bounded
bounded-small table e = rw e refl

leb-false : (a b : ℕ) → leb a b ≡ false → b < a
leb-false a b e = ground arith

-- An open receipt does not age off while the open ones are within the cap: parking another leaves
-- it as it was.
pub get-park_receipt_other :
    (state : ReceiptLedgerState) (r : Receipt) (id : String) {x : Receipt}
    → IsTable state.receipts
    → count is_open (state.receipts ++ r ∷ []) ≤ 100
    → get state id ≡ some x
    → is_open x ≡ true
    → get (park_receipt state r) id ≡ some x
unfolding get park_receipt kept
get-park_receipt_other state r id {x} v o e open_x =
    let rs = state.receipts in
    let table = rs ++ r ∷ [] in
    let found = find?-append (has_id id) is_open rs (r ∷ []) e in
    elim (Bool-cases (any (has_id r.id) rs)) [
      | inl known ↦ rw known e
      | inr new ↦ rw new (elim (Bool-cases (leb (length table) ledger_cap)) [
        | inl fits ↦ rw (bounded-small table fits) found
        | inr over ↦
            let full : length table ≡ 101 =
              omega
                (arith, length-append rs (r ∷ []), v.within, leb-false (length table) 100 over) in
            let distinct : Distinct table =
              Distinct-last rs r v.distinct (any-None (has_id r.id) rs new) in
            rw (bounded-full table full o) (
              find?-filter (has_id id) (λ y. not (is_dropped (dropped table) y)) table found
                (survives table id distinct found open_x))
      ])
    ]
