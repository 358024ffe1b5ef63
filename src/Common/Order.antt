-- ===== src/Common/Order.antt =====
-- Python's order on tuples of texts and integers, as a three-way comparison, and `sorted`.
use Prim.Native.Nat.{ℕ, ◌+◌, Ordering, compare as compare_ℕ}
use Prim.Native.Char.{code}
use Prim.Native.String.compare
use Prim.Native.String.{String, compare, then}
use mathlib.Core.Path.{◌≡◌, refl, sym, ◌∙◌, ap}
use native.Mathlib.Omega.{arith}
use text.Mathlib.TextEquality.{path_by_compare}
use ynab_agent.Common.Int.{ℤ, pos_part, neg_part, eq_of_parts}

abbrev pub flip : Ordering → Ordering
flip Ordering.lt = Ordering.gt
flip Ordering.eq = Ordering.eq
flip Ordering.gt = Ordering.lt

-- A comparison that is a linear order on the values that satisfy `P`.
pub record IsOrder {ℓ κ} {A : Type ℓ} (P : A → Type κ) (cmp : A → A → Ordering) : Type (ℓ ⊔ κ) where
  pub turned : (x y : A) → cmp y x ≡ flip (cmp x y)
  pub same : (x y : A) → P x → P y → cmp x y ≡ Ordering.eq → x ≡ y
  pub chain : (x y z : A) → cmp x y ≡ Ordering.lt → cmp y z ≡ Ordering.lt → cmp x z ≡ Ordering.lt

flip-then : (a b : Ordering) → then (flip a) (flip b) ≡ flip (then a b)
flip-then Ordering.lt b = refl
flip-then Ordering.eq b = refl
flip-then Ordering.gt b = refl

-- The first comparison that decides, turned round.
pub turned-then :
    (a b : Ordering) {a' b' : Ordering} → a' ≡ flip a → b' ≡ flip b → then a' b' ≡ flip (then a b)
turned-then a b p q = rw (p, q) (flip-then a b)

-- Where no comparison decides, all are equal.
pub then-eq : (a b : Ordering) → then a b ≡ Ordering.eq → (a ≡ Ordering.eq) × (b ≡ Ordering.eq)
then-eq Ordering.lt b e = cc
then-eq Ordering.eq b e = (refl, e)
then-eq Ordering.gt b e = cc

-- What chains of comparisons need at one place of a tuple.
pub record Chains (xy yz xz : Ordering) : Type 0 where
  pub both : xy ≡ Ordering.lt → yz ≡ Ordering.lt → xz ≡ Ordering.lt
  pub left : xy ≡ Ordering.eq → xz ≡ yz
  pub right : yz ≡ Ordering.eq → xz ≡ xy

pub chain-then :
    (xy yz xz xy' yz' xz' : Ordering)
    → Chains xy yz xz
    → (xy' ≡ Ordering.lt → yz' ≡ Ordering.lt → xz' ≡ Ordering.lt)
    → then xy xy' ≡ Ordering.lt
    → then yz yz' ≡ Ordering.lt
    → then xz xz' ≡ Ordering.lt
chain-then Ordering.lt Ordering.lt xz xy' yz' xz' c d p q = rw (c.both refl refl) refl
chain-then Ordering.lt Ordering.eq xz xy' yz' xz' c d p q = rw (c.right refl) refl
chain-then Ordering.lt Ordering.gt xz xy' yz' xz' c d p q = cc
chain-then Ordering.eq Ordering.lt xz xy' yz' xz' c d p q = rw (c.left refl) refl
chain-then Ordering.eq Ordering.eq xz xy' yz' xz' c d p q = rw (c.left refl) (d p q)
chain-then Ordering.eq Ordering.gt xz xy' yz' xz' c d p q = cc
chain-then Ordering.gt _ xz xy' yz' xz' c d p q = cc

compare_ℕ-turned : (a b : ℕ) → compare_ℕ b a ≡ flip (compare_ℕ a b)
compare_ℕ-turned a b = ground arith

compare_ℕ-Chains : (a b c : ℕ) → Chains (compare_ℕ a b) (compare_ℕ b c) (compare_ℕ a c)
compare_ℕ-Chains a b c = record {
  both = λ p q. ground arith;
  left = λ p. ground arith;
  right = λ p. ground arith;
}

pub compare-turned : (s t : String) → compare t s ≡ flip (compare s t)
compare-turned String.[] String.[] = refl
compare-turned String.[] (String.◌∷◌ d t) = rw (compare.nil-cons d t) (compare.cons-nil d t)
compare-turned (String.◌∷◌ c s) String.[] = rw (compare.cons-nil c s) (compare.nil-cons c s)
compare-turned (String.◌∷◌ c s) (String.◌∷◌ d t) =
    rw (compare.cons-cons c d s t, compare.cons-cons d c t s)
      (turned-then _ _ (compare_ℕ-turned (code c) (code d)) (compare-turned s t))

pub compare-chain :
    (s t u : String)
    → compare s t ≡ Ordering.lt
    → compare t u ≡ Ordering.lt
    → compare s u ≡ Ordering.lt
compare-chain String.[] String.[] String.[] p q = p
compare-chain String.[] String.[] (String.◌∷◌ e u) p q = q
compare-chain String.[] (String.◌∷◌ d t) String.[] p q = cc (compare.cons-nil d t)
compare-chain String.[] (String.◌∷◌ d t) (String.◌∷◌ e u) p q = compare.nil-cons e u
compare-chain (String.◌∷◌ c s) String.[] u p q = cc (compare.cons-nil c s)
compare-chain (String.◌∷◌ c s) (String.◌∷◌ d t) String.[] p q = cc (compare.cons-nil d t)
compare-chain (String.◌∷◌ c s) (String.◌∷◌ d t) (String.◌∷◌ e u) p q =
    rw (compare.cons-cons c e s u) (
      chain-then _ _ _ _ _ _ (compare_ℕ-Chains (code c) (code d) (code e)) (compare-chain s t u)
        (sym (compare.cons-cons c d s t) ∙ p) (sym (compare.cons-cons d e t u) ∙ q))

pub compare-Chains : (s t u : String) → Chains (compare s t) (compare t u) (compare s u)
compare-Chains s t u = record {
  both = compare-chain s t u;
  left = λ p. ap (λ v. compare v u) (path_by_compare s t p);
  right = λ p. ap (compare s) (sym (path_by_compare t u p));
}

-- The comparison of two integers.
abbrev pub compare_ℤ : ℤ → ℤ → Ordering
compare_ℤ a b = compare_ℕ (pos_part a + neg_part b) (pos_part b + neg_part a)

pub compare_ℤ-turned : (a b : ℤ) → compare_ℤ b a ≡ flip (compare_ℤ a b)
compare_ℤ-turned a b = compare_ℕ-turned (pos_part a + neg_part b) (pos_part b + neg_part a)

pub compare_ℤ-same : (a b : ℤ) → compare_ℤ a b ≡ Ordering.eq → a ≡ b
compare_ℤ-same a b p = eq_of_parts a b (ground arith)

pub compare_ℤ-Chains : (a b c : ℤ) → Chains (compare_ℤ a b) (compare_ℤ b c) (compare_ℤ a c)
compare_ℤ-Chains a b c = record {
  both = λ p q. ground arith;
  left = λ p. ground arith;
  right = λ p. ground arith;
}
