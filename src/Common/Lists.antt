-- ===== src/Common/Lists.antt =====
-- Lists measured by native numbers, tests by Booleans, and predicates by recursion.
use Prim.Native.Nat.{ℕ, zero, suc, ◌+◌, ◌-◌, ◌≤◌}
use mathlib.Core.Path.{◌≡◌, refl, subst, sym, ap, ◌∙◌}
use mathlib.Core.Bool.{Bool, true, false, ◌&&◌}
use mathlib.Core.Logic.{inl, inr}
use mathlib.Core.Option.{Option, none, some}
use mathlib.Core.List.{List, [], ◌∷◌, ◌++◌, map, Memᴰ}
use native.Mathlib.Omega.{arith}
use ynab_agent.Common.Tests.{if◌then◌else◌, Bool-cases}

module _ {ℓ} {A : Type ℓ} where
  abbrev pub length : List A → ℕ
  length [] = 0
  length (x ∷ xs) = suc (length xs)

  abbrev pub drop : ℕ → List A → List A
  drop zero xs = xs
  drop (suc n) [] = []
  drop (suc n) (x ∷ xs) = drop n xs

  -- `xs[:n]`
  abbrev pub take : ℕ → List A → List A
  take zero xs = []
  take (suc n) [] = []
  take (suc n) (x ∷ xs) = x ∷ take n xs

  -- `tuple(x for x in xs if p(x))`
  unfoldable pub filter : (A → Bool) → List A → List A
  filter p [] = []
  filter p (x ∷ xs) = let rest = filter p xs in if p x then x ∷ rest else rest

  -- `next((x for x in xs if p(x)), None)`
  unfoldable pub find? : (A → Bool) → List A → Option A
  find? p [] = none
  find? p (x ∷ xs) = let rest = find? p xs in if p x then some x else rest

  -- `sum(1 for x in xs if p(x))`
  unfoldable pub count : (A → Bool) → List A → ℕ
  count p [] = 0
  count p (x ∷ xs) = let rest = count p xs in if p x then suc rest else rest

  -- `any(p(x) for x in xs)`
  unfoldable pub any : (A → Bool) → List A → Bool
  any p [] = false
  any p (x ∷ xs) = let rest = any p xs in if p x then true else rest

  -- `xs[-1]`, where there is one.
  abbrev pub get_last? : List A → Option A
  get_last? [] = none
  get_last? (x ∷ xs) = elim (get_last? xs) [ none ↦ some x | some y ↦ some y ]

  -- `not xs`
  abbrev pub is_empty : List A → Bool
  is_empty [] = true
  is_empty (_ ∷ _) = false

  -- `xs[-n:]` for a positive n.
  abbrev pub take_last : ℕ → List A → List A
  take_last n xs = drop (length xs - n) xs

  pub length-append : (xs ys : List A) → length (xs ++ ys) ≡ length xs + length ys
  length-append [] ys = omega arith
  length-append (x ∷ xs) ys = omega (arith, length-append xs ys)

  pub length-drop : (n : ℕ) (xs : List A) → length (drop n xs) ≡ length xs - n
  length-drop zero xs = omega arith
  length-drop (suc n) [] = omega arith
  length-drop (suc n) (x ∷ xs) = omega (arith, length-drop n xs)

  pub length-take_last : (n : ℕ) (xs : List A) → length (take_last n xs) ≤ n
  length-take_last n xs = omega (arith, length-drop (length xs - n) xs)

  pub length-filter : (p : A → Bool) (xs : List A) → length (filter p xs) ≡ count p xs
  unfolding filter count
  length-filter p [] = refl
  length-filter p (x ∷ xs) = ground (arith, length-filter p xs)

  pub count-append : (p : A → Bool) (xs ys : List A) → count p (xs ++ ys) ≡ count p xs + count p ys
  unfolding count
  count-append p [] ys = omega arith
  count-append p (x ∷ xs) ys = ground (arith, count-append p xs ys)

-- What one more element at the end adds.
abbrev pub one_if : Bool → ℕ
one_if true = 1
one_if false = 0

pub count-append_one {ℓ} :
    {A : Type ℓ} (p : A → Bool) (xs : List A) (x : A)
    → count p (xs ++ x ∷ []) ≡ count p xs + one_if (p x)
unfolding count
count-append_one p [] x = ground arith
count-append_one p (y ∷ ys) x = ground (arith, count-append_one p ys x)

none_ne_some {ℓ} : {A : Type ℓ} {a : A} → ◌≡◌ {A = Option A} none (some a) → ⊥
none_ne_some e = cc

-- A predicate at every element, as a tuple.
abbrev pub All {ℓ κ} : {A : Type ℓ} → (A → Type κ) → List A → Type κ
All P [] = Unit
All P (x ∷ xs) = P x × All P xs

module _ {ℓ κ} {A : Type ℓ} (P : A → Type κ) where
  pub All-append : (xs ys : List A) → All P xs → All P ys → All P (xs ++ ys)
  All-append [] ys hx hy = hy
  All-append (x ∷ xs) ys hx hy = (hx.0, All-append xs ys hx.1 hy)

unfoldable pub sum : List ℕ → ℕ
sum [] = 0
sum (x ∷ xs) = x + sum xs

module _ {ℓ} {A : Type ℓ} (p q : A → Bool) where
  pub count-filter : (xs : List A) → count p (filter q xs) ≡ count (λ x. q x && p x) xs
  unfolding count filter
  count-filter [] = refl
  count-filter (x ∷ xs) = ground (arith, count-filter xs)

  -- A weaker test counts no fewer.
  pub count_mono : ((x : A) → p x ≡ true → q x ≡ true) → (xs : List A) → count p xs ≤ count q xs
  unfolding count
  count_mono h [] = omega arith
  count_mono h (x ∷ xs) = ground (arith, h x, count_mono h xs)

  pub count_cong : ((x : A) → p x ≡ q x) → (xs : List A) → count p xs ≡ count q xs
  unfolding count
  count_cong h [] = refl
  count_cong h (x ∷ xs) = ground (arith, h x, count_cong h xs)

  pub count_none : ((x : A) → (q x && p x) ≡ false) → (xs : List A) → count p (filter q xs) ≡ 0
  unfolding count filter
  count_none h [] = refl
  count_none h (x ∷ xs) = ground (arith, h x, count_none h xs)

  pub count-filter_le : (xs : List A) → count p (filter q xs) ≤ count p xs
  unfolding count filter
  count-filter_le [] = omega arith
  count-filter_le (x ∷ xs) = ground (arith, count-filter_le xs)

  -- Filtering by a test that holds wherever the counted one does loses nothing.
  pub count-filter_eq :
      ((x : A) → p x ≡ true → q x ≡ true) → (xs : List A) → count p (filter q xs) ≡ count p xs
  unfolding count filter
  count-filter_eq h [] = refl
  count-filter_eq h (x ∷ xs) = ground (arith, h x, count-filter_eq h xs)

module _ {ℓ κ} {A : Type ℓ} (P Q : A → Type κ) where
  pub All-map :
      (f : A → A) → ((x : A) → P x → Q (f x)) → (xs : List A) → All P xs → All Q (map f xs)
  All-map f h [] a = tt
  All-map f h (x ∷ xs) a = (h x a.0, All-map f h xs a.1)

  pub All-imp : ((x : A) → P x → Q x) → (xs : List A) → All P xs → All Q xs
  All-imp h [] a = tt
  All-imp h (x ∷ xs) a = (h x a.0, All-imp h xs a.1)

module _ {ℓ κ} {A : Type ℓ} (P : A → Type κ) where
  pub All-find? : (p : A → Bool) (xs : List A) {x : A} → All P xs → find? p xs ≡ some x → P x
  unfolding find?
  All-find? p [] a e = absurd (none_ne_some e)
  All-find? p (y ∷ ys) {x} a e = elim (Bool-cases (p y)) [
    | inl t ↦ subst P (ground arith) a.0
    | inr f ↦ All-find? p ys a.1 (ground arith)
  ]

  pub All-of : ((x : A) → P x) → (xs : List A) → All P xs
  All-of h [] = tt
  All-of h (x ∷ xs) = (h x, All-of h xs)

  pub All-filter : (p : A → Bool) (xs : List A) → All P xs → All P (filter p xs)
  unfolding filter
  All-filter p [] a = tt
  All-filter p (x ∷ xs) a = elim (Bool-cases (p x)) [
    | inl t ↦ rw t (a.0, All-filter p xs a.1)
    | inr f ↦ rw f (All-filter p xs a.1)
  ]

-- The tests that a filter's elements pass.
pub All-filter_test {ℓ} :
    {A : Type ℓ} (p : A → Bool) (xs : List A) → All (λ x. p x ≡ true) (filter p xs)
unfolding filter
All-filter_test p [] = tt
All-filter_test p (x ∷ xs) = elim (Bool-cases (p x)) [
  | inl t ↦ rw t (t, All-filter_test p xs)
  | inr f ↦ rw f (All-filter_test p xs)
]

-- A filter that no element passes is empty.
pub filter_nil {ℓ} :
    {A : Type ℓ} (p : A → Bool) (xs : List A) → All (λ x. p x ≡ false) xs → filter p xs ≡ []
unfolding filter
filter_nil p [] a = refl
filter_nil p (x ∷ xs) a = rw a.0 (filter_nil p xs a.1)

-- What `next` finds passes the test.
pub find?_test {ℓ} :
    {A : Type ℓ} (p : A → Bool) (xs : List A) {x : A} → find? p xs ≡ some x → p x ≡ true
unfolding find?
find?_test p [] e = cc
find?_test p (y ∷ ys) {x} e = elim (Bool-cases (p y)) [
  | inl t ↦ subst (λ z. p z ≡ true) (ground arith) t
  | inr f ↦ find?_test p ys (ground arith)
]

module _ {ℓ} {A : Type ℓ} where
  pub All-mem : (xs : List A) → All (λ x. Memᴰ x xs) xs
  All-mem [] = tt
  All-mem (x ∷ xs) = (
    Memᴰ.head refl,
    All-imp (λ y. Memᴰ y xs) (λ y. Memᴰ y (x ∷ xs)) (λ y m. Memᴰ.tail m) xs (All-mem xs),
  )

  pub mem-filterᴰ :
      (p : A → Bool) (xs : List A) {x : A} → p x ≡ true → Memᴰ x xs → Memᴰ x (filter p xs)
  unfolding filter
  mem-filterᴰ p [] t m = elim m [ ]
  mem-filterᴰ p (y ∷ ys) {x} t (Memᴰ.head e) = rw (ap p (sym e) ∙ t) (Memᴰ.head e)
  mem-filterᴰ p (y ∷ ys) t (Memᴰ.tail m) = elim (Bool-cases (p y)) [
    | inl kept ↦ rw kept (Memᴰ.tail (mem-filterᴰ p ys t m))
    | inr out ↦ rw out (mem-filterᴰ p ys t m)
  ]

  pub any_of_mem : (p : A → Bool) (xs : List A) {x : A} → p x ≡ true → Memᴰ x xs → any p xs ≡ true
  unfolding any
  any_of_mem p [] t m = elim m [ ]
  any_of_mem p (y ∷ ys) t (Memᴰ.head e) = rw (ap p (sym e) ∙ t)
  any_of_mem p (y ∷ ys) t (Memᴰ.tail m) = ground (arith, any_of_mem p ys t m)

pub All-both {ℓ κ} :
    {A : Type ℓ} (P Q R : A → Type κ)
    → ((x : A) → P x → Q x → R x)
    → (xs : List A) → All P xs
    → All Q xs
    → All R xs
All-both P Q R h [] a b = tt
All-both P Q R h (x ∷ xs) a b = (h x a.0 b.0, All-both P Q R h xs a.1 b.1)
