-- ===== src/Ynab/Stored.antt =====
-- How YNAB stores a patch, and that plain lines come back as they were written.
use ynab_agent.Common.{
  suc, ◌≤◌, ◌≡◌, ◌≢◌, refl, sym, ap, ◌∙◌, String, false, Option, none, some, List, [], ◌∷◌, map,
  length, All, arith, test, String-discrete,
}
use mathlib.Core.List.{Permᴰ}
use mathlib.Core.List.Permᴰ
use Prim.Native.Nat.{Ordering}
use text.Mathlib.TextEquality.{path_by_compare}
use ynab_agent.Common.Order.{
  IsOrder, turned-then, then-eq, chain-then, compare-turned, compare-Chains, compare-chain,
  compare_ℤ-turned, compare_ℤ-same, compare_ℤ-Chains,
}
use ynab_agent.Domain.Allocation.{ResolvedSplitLine, ResolvedAllocation, category, split}
use ynab_agent.Policy.Converge.{compare_lines, memo_key}
use ynab_agent.Ynab.{
  PatchLine, TransactionPatch, patch_line, WireSubtransaction, WireTransaction, present,
  to_split_line, to_split_lines, add_line,
}

-- A line as YNAB stores it, from one of a patch.
abbrev pub stored_line : PatchLine → WireSubtransaction
stored_line line = record {
  amount = line.amount;
  category_id = some line.category_id;
  memo = line.memo;
  deleted = false;
}

abbrev pub LinesStored : Option (List PatchLine) → List WireSubtransaction → Type 0
LinesStored none subs = subs ≡ []
LinesStored (some lines) subs = Permᴰ (map stored_line lines) subs

-- A field that is asked for is stored; of one that is not, nothing is said.
abbrev pub FieldStored : Option String → Option String → Type 0
FieldStored none stored = Unit
FieldStored (some asked) stored = stored ≡ some asked

-- What YNAB's API documents of a patch on a transaction that was no split: the fields that it
-- sets are set, and a split's lines are stored in any order. Nothing is asked of a memo that it
-- leaves out, nor of the category of a split.
pub record Applied (patch : TransactionPatch) (after : WireTransaction) : Type 0 where
  pub approved : after.approved ≡ patch.approved
  pub memo : FieldStored patch.memo after.memo
  pub category : FieldStored patch.category_id after.category_id
  pub lines : LinesStored patch.subtransactions after.subtransactions

-- A line that YNAB can store as it is: it has a category, no empty memo, and no person tag.
pub record IsPlain (line : ResolvedSplitLine) : Type 0 where
  pub category : line.category ≢ ""
  pub memo : line.memo ≢ some ""
  pub untagged : line.person_tag ≡ none

abbrev pub IsPlainAllocation : ResolvedAllocation → Type 0
IsPlainAllocation (category c) = (c.category ≢ "") × (c.person_tag ≡ none)
IsPlainAllocation (split s) = (2 ≤ length s.lines) × All IsPlain s.lines

memo_key-same : (a b : Option String) → a ≢ some "" → b ≢ some "" → memo_key a ≡ memo_key b → a ≡ b
memo_key-same none none p q e = refl
memo_key-same none (some b) p q e = absurd (q (ap some (sym e)))
memo_key-same (some a) none p q e = absurd (p (ap some e))
memo_key-same (some a) (some b) p q e = ap some e

compare_lines-same :
    (x y : ResolvedSplitLine) → IsPlain x → IsPlain y → compare_lines x y ≡ Ordering.eq → x ≡ y
unfolding compare_lines
compare_lines-same x y p q e =
    let (names, rest) = then-eq _ _ e in
    let (amounts, memos) = then-eq _ _ rest in
    let c = path_by_compare x.category y.category names in
    let a = compare_ℤ-same x.amount.milliunits y.amount.milliunits amounts in
    let m =
      memo_key-same x.memo y.memo p.memo q.memo
        (path_by_compare (memo_key x.memo) (memo_key y.memo) memos) in
    let t : x.person_tag ≡ y.person_tag = p.untagged ∙ sym q.untagged in
    λ i. record {
      category = c i;
      amount = record { milliunits = a i };
      memo = m i;
      person_tag = t i;
    }

pub compare_lines-IsOrder : IsOrder IsPlain compare_lines
unfolding compare_lines
compare_lines-IsOrder = record {
  turned = λ x y. turned-then _ _ (compare-turned x.category y.category) (
      turned-then _ _ (compare_ℤ-turned x.amount.milliunits y.amount.milliunits)
        (compare-turned (memo_key x.memo) (memo_key y.memo)));
  same = compare_lines-same;
  chain = λ x y z. chain-then _ _ _ _ _ _ (compare-Chains x.category y.category z.category) (
      chain-then _ _ _ _ _ _
        (compare_ℤ-Chains x.amount.milliunits y.amount.milliunits z.amount.milliunits)
        (compare-chain (memo_key x.memo) (memo_key y.memo) (memo_key z.memo)));
}

test-ne : (a b : String) → a ≢ b → test (String-discrete a b) ≡ false
test-ne a b p = ground arith

pub present_ne : (t : String) → t ≢ "" → present (some t) ≡ some t
unfolding present
present_ne t p = rw (test-ne t "" p)

-- A plain line comes back as it was written.
stored-IsPlain :
    (line : ResolvedSplitLine)
    → IsPlain line
    → to_split_line (stored_line (patch_line line)) ≡ some line
unfolding to_split_line present
stored-IsPlain line p =
    rw (test-ne line.category "" p.category)
      (λ i. some (record line { person_tag = sym p.untagged i }))

pub stored-All :
    (lines : List ResolvedSplitLine)
    → All IsPlain lines
    → to_split_lines (map stored_line (map patch_line lines)) ≡ lines
unfolding to_split_lines
stored-All [] p = refl
stored-All (line ∷ lines) p =
    rw (stored-IsPlain line p.0) (ap (λ rest. line ∷ rest) (stored-All lines p.1))

add_line-permᴰ :
    (a b : Option ResolvedSplitLine) (lines : List ResolvedSplitLine)
    → Permᴰ (add_line a (add_line b lines)) (add_line b (add_line a lines))
add_line-permᴰ none b lines = Permᴰ.refl (add_line b lines)
add_line-permᴰ (some a) none lines = Permᴰ.refl (a ∷ lines)
add_line-permᴰ (some a) (some b) lines = Permᴰ.swap refl refl

add_line-cong :
    (a : Option ResolvedSplitLine) {xs ys : List ResolvedSplitLine}
    → Permᴰ xs ys
    → Permᴰ (add_line a xs) (add_line a ys)
add_line-cong none p = p
add_line-cong (some a) p = Permᴰ.cons refl p

pub to_split_lines-permᴰ :
    {xs ys : List WireSubtransaction} → Permᴰ xs ys → Permᴰ (to_split_lines xs) (to_split_lines ys)
unfolding to_split_lines
to_split_lines-permᴰ Permᴰ.nil = Permᴰ.nil
to_split_lines-permᴰ (Permᴰ.cons {a = a} e p) =
    rw (sym e) (add_line-cong (to_split_line a) (to_split_lines-permᴰ p))
to_split_lines-permᴰ (Permᴰ.swap {a = a} {b = b} {l = l} e f) =
    rw (sym e, sym f) (add_line-permᴰ (to_split_line a) (to_split_line b) (to_split_lines l))
to_split_lines-permᴰ (Permᴰ.trans p q) =
    Permᴰ.trans (to_split_lines-permᴰ p) (to_split_lines-permᴰ q)

pub length-permᴰ {ℓ} : {A : Type ℓ} {xs ys : List A} → Permᴰ xs ys → length xs ≡ length ys
length-permᴰ Permᴰ.nil = refl
length-permᴰ (Permᴰ.cons e p) = ap suc (length-permᴰ p)
length-permᴰ (Permᴰ.swap e f) = refl
length-permᴰ (Permᴰ.trans p q) = length-permᴰ p ∙ length-permᴰ q
