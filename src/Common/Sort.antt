-- ===== src/Common/Sort.antt =====
-- Python's `sorted`, which is stable: an entry goes before the first that is not less.
use Prim.Native.Nat.{Ordering}
use mathlib.Core.Path.{◌≡◌, refl, sym, ◌∙◌, ap, ap₂, subst}
use mathlib.Core.Bool.{Bool, true, false}
use mathlib.Core.Logic.{◌⊎◌, inl, inr}
use mathlib.Core.List.{List, [], ◌∷◌, Permᴰ, Perm}
use mathlib.Core.List.Perm
use native.Mathlib.Omega.{arith}
use ynab_agent.Common.Tests.{if◌then◌else◌, Bool-cases}
use ynab_agent.Common.Lists.{All}
use ynab_agent.Common.Order.{IsOrder, flip}

abbrev pub is_lt : Ordering → Bool
is_lt Ordering.lt = true
is_lt _ = false

module _ {ℓ} {A : Type ℓ} (cmp : A → A → Ordering) where
  unfoldable pub insert_by : A → List A → List A
  insert_by r [] = r ∷ []
  insert_by r (x ∷ xs) =
      let rest = insert_by r xs in if is_lt (cmp x r) then x ∷ rest else r ∷ x ∷ xs

  unfoldable pub sorted_by : List A → List A
  unfolding insert_by
  sorted_by [] = []
  sorted_by (x ∷ xs) = insert_by x (sorted_by xs)

  perm-branch :
      (b : Bool) (r x : A) (xs rest : List A)
      → Perm rest (r ∷ xs)
      → Perm (if b then x ∷ rest else r ∷ x ∷ xs) (r ∷ x ∷ xs)
  perm-branch true r x xs rest p = Perm.trans (Perm.cons x p) (Perm.swap r x xs)
  perm-branch false r x xs rest p = Perm.refl (r ∷ x ∷ xs)

  insert_by-perm : (r : A) (xs : List A) → Perm (insert_by r xs) (r ∷ xs)
  unfolding insert_by
  insert_by-perm r [] = Perm.refl (r ∷ [])
  insert_by-perm r (x ∷ xs) =
      perm-branch (is_lt (cmp x r)) r x xs (insert_by r xs) (insert_by-perm r xs)

  -- Sorting neither loses nor adds an entry.
  pub sorted_by-perm : (xs : List A) → Perm (sorted_by xs) xs
  unfolding sorted_by
  sorted_by-perm [] = Perm.refl []
  sorted_by-perm (x ∷ xs) =
      Perm.trans (insert_by-perm x (sorted_by xs)) (Perm.cons x (sorted_by-perm xs))

module _ {ℓ κ} {A : Type ℓ} (P : A → Type κ) (cmp : A → A → Ordering) where
  All-insert_by : (r : A) (xs : List A) → All P (insert_by cmp r xs) → P r × All P xs
  unfolding insert_by
  All-insert_by r [] a = a
  All-insert_by r (x ∷ xs) a = elim (Bool-cases (is_lt (cmp x r))) [
    | inl less ↦ let b = rw less at a in let (p, ps) = All-insert_by r xs b.1 in (p, (b.0, ps))
    | inr first ↦ rw first at a
  ]

  -- What holds of a sorted list's entries holds of the list's.
  pub All-sorted_by : (xs : List A) → All P (sorted_by cmp xs) → All P xs
  unfolding sorted_by
  All-sorted_by [] a = tt
  All-sorted_by (x ∷ xs) a =
      let (p, ps) = All-insert_by x (sorted_by cmp xs) a in (p, All-sorted_by xs ps)

Ordering-cases : (o : Ordering) → (o ≡ Ordering.lt) ⊎ (o ≡ Ordering.eq) ⊎ (o ≡ Ordering.gt)
Ordering-cases Ordering.lt = inl refl
Ordering-cases Ordering.eq = inr (inl refl)
Ordering-cases Ordering.gt = inr (inr refl)

module _ {ℓ κ} {A : Type ℓ} {P : A → Type κ} {cmp : A → A → Ordering} (o : IsOrder P cmp) where
  -- The lesser of two entries may be inserted first or last.
  insert_lesser :
      (a b : A) (zs : List A)
      → cmp a b ≡ Ordering.lt
      → insert_by cmp a (insert_by cmp b zs) ≡ insert_by cmp b (insert_by cmp a zs)
  unfolding insert_by
  insert_lesser a b [] h = ground (arith, o.turned a b)
  insert_lesser a b (z ∷ zs) h = ground (arith, o.turned a b, o.chain z a b, insert_lesser a b zs h)

  insert_any :
      (a b : A) (zs : List A)
      → P a
      → P b
      → insert_by cmp a (insert_by cmp b zs) ≡ insert_by cmp b (insert_by cmp a zs)
  insert_any a b zs pa pb = elim (Ordering-cases (cmp a b)) [
    | inl less ↦ insert_lesser a b zs less
    | inr (inl equal) ↦
        let e = o.same a b pa pb equal in
        ap (λ c. insert_by cmp c (insert_by cmp b zs)) e
        ∙ ap (λ c. insert_by cmp b (insert_by cmp c zs)) (sym e)
    | inr (inr more) ↦ sym (insert_lesser b a zs (o.turned a b ∙ ap flip more))
  ]

  All-permᴰ : {xs ys : List A} → Permᴰ xs ys → All P xs → All P ys
  All-permᴰ Permᴰ.nil a = a
  All-permᴰ (Permᴰ.cons e p) a = (subst P e a.0, All-permᴰ p a.1)
  All-permᴰ (Permᴰ.swap e f) a = (subst P f a.1.0, (subst P e a.0, a.1.1))
  All-permᴰ (Permᴰ.trans p q) a = All-permᴰ q (All-permᴰ p a)

  -- The sorted list does not depend on the order that the entries came in.
  pub sorted_by_unique :
      {xs ys : List A} → Permᴰ xs ys → All P xs → sorted_by cmp xs ≡ sorted_by cmp ys
  unfolding sorted_by
  sorted_by_unique Permᴰ.nil a = refl
  sorted_by_unique (Permᴰ.cons e p) a = ap₂ (insert_by cmp) e (sorted_by_unique p a.1)
  sorted_by_unique (Permᴰ.swap {a = a} {b = b} {l = l} e f) h =
      insert_any a b (sorted_by cmp l) h.0 h.1.0
      ∙ ap₂ (λ c d. insert_by cmp c (insert_by cmp d (sorted_by cmp l))) f e
  sorted_by_unique (Permᴰ.trans p q) a = sorted_by_unique p a ∙ sorted_by_unique q (All-permᴰ p a)
