-- ===== src/Common/Search.antt =====
-- Searches of a list to which an entry was appended, and lists without a match.
use Prim.Native.Nat.{ℕ, zero, suc, ◌≤◌}
use mathlib.Core.Path.{◌≡◌, refl}
use mathlib.Core.Bool.{Bool, true, false}
use mathlib.Core.Logic.{inl, inr}
use mathlib.Core.Option.{some}
use mathlib.Core.List.{List, [], ◌∷◌, ◌++◌}
use native.Mathlib.Omega.{arith}
use ynab_agent.Common.Tests.{Bool-cases}
use ynab_agent.Common.Lists.{All, filter, find?, any, drop, length}

module _ {ℓ} {A : Type ℓ} (p : A → Bool) where
  abbrev pub None : List A → Type 0
  None xs = All (λ x. p x ≡ false) xs

  pub any-None : (xs : List A) → any p xs ≡ false → None xs
  unfolding any
  any-None [] e = tt
  any-None (x ∷ xs) e = elim (Bool-cases (p x)) [
    | inl t ↦ ground arith
    | inr f ↦ (f, any-None xs (ground arith))
  ]

  pub None-any : (xs : List A) → None xs → any p xs ≡ false
  unfolding any
  None-any [] a = refl
  None-any (x ∷ xs) a = rw a.0 (None-any xs a.1)

  pub find?-last : (xs : List A) (x : A) → None xs → p x ≡ true → find? p (xs ++ x ∷ []) ≡ some x
  unfolding find?
  find?-last [] x a t = rw t refl
  find?-last (y ∷ ys) x a t = rw a.0 (find?-last ys x a.1 t)

  pub None-filter : (q : A → Bool) (xs : List A) → None xs → None (filter q xs)
  unfolding filter
  None-filter q [] a = tt
  None-filter q (x ∷ xs) a = elim (Bool-cases (q x)) [
    | inl t ↦ rw t (a.0, None-filter q xs a.1)
    | inr f ↦ rw f (None-filter q xs a.1)
  ]

  pub None-drop : (n : ℕ) (xs : List A) → None xs → None (drop n xs)
  None-drop zero xs a = a
  None-drop (suc n) [] a = tt
  None-drop (suc n) (x ∷ xs) a = None-drop n xs a.1

  pub None-append : (xs ys : List A) → None xs → None ys → None (xs ++ ys)
  None-append [] ys a b = b
  None-append (x ∷ xs) ys a b = (a.0, None-append xs ys a.1 b)

  pub filter-last :
      (xs : List A) (x : A) → p x ≡ true → filter p (xs ++ x ∷ []) ≡ filter p xs ++ x ∷ []
  unfolding filter
  filter-last [] x t = rw t refl
  filter-last (y ∷ ys) x t = elim (Bool-cases (p y)) [
    | inl e ↦ rw (e, filter-last ys x t) refl
    | inr e ↦ rw (e, filter-last ys x t) refl
  ]

pub drop-last {ℓ} :
    {A : Type ℓ} (n : ℕ) (xs : List A) (x : A)
    → n ≤ length xs
    → drop n (xs ++ x ∷ []) ≡ drop n xs ++ x ∷ []
drop-last zero xs x h = refl
drop-last (suc n) [] x h = ground arith
drop-last (suc n) (y ∷ ys) x h = drop-last n ys x (omega arith)
