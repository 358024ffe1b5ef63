-- ===== src/Ynab/RoundTrip.antt =====
-- What a commit writes is what the verification of its read-back confirms.
use ynab_agent.Common.{
  ◌≡◌, refl, sym, ap, ◌∙◌, String, Bool, true, Option, none, some, [], map, length, Result, ok,
  returned_before, ltb, arith,
}
use mathlib.Core.List.{Permᴰ}
use mathlib.Core.Path.{subst, subst₂}
use ynab_agent.Common.Sort.{sorted_by_unique}
use ynab_agent.Domain.Ids.{Date}
use ynab_agent.Domain.Allocation.{ResolvedAllocation, category, split}
use ynab_agent.Domain.Event.{match}
use ynab_agent.Domain.Proposal.{Decision}
use ynab_agent.Domain.Transaction.{YnabSnapshot}
use ynab_agent.Policy.Converge.{
  TargetState, target_of, ordered, canonical, content_hash, hashes_agree, without_memo,
  classify_verify,
}
use ynab_agent.Ynab.Stored.{
  stored_line, LinesStored, FieldStored, Applied, IsPlainAllocation, compare_lines-IsOrder,
  present_ne, length-permᴰ, stored-All, to_split_lines-permᴰ,
}
use ynab_agent.Ynab.{
  to_patch, patch_line, patch_lines, patch_category, WireTransaction, present, to_split_lines,
  optional_flag, cleared_of, snapshot_of, to_snapshot, to_target,
}

stored_memo :
    (asked : Option String) {memo found : Option String}
    → FieldStored asked memo
    → found ≡ memo
    → FieldStored asked found
stored_memo none m e = tt
stored_memo (some asked) m e = e ∙ m

canonical_of :
    (read : TargetState) (allocation : ResolvedAllocation) (memo : Option String) (approved : Bool)
    → ordered read.allocation ≡ ordered allocation
    → FieldStored memo read.memo
    → read.approved ≡ approved
    → canonical (without_memo read memo)
      ≡ canonical (record { allocation = allocation; memo = memo; approved = approved })
unfolding canonical
canonical_of read allocation none approved l m a =
    λ i. record { allocation = l i; memo = none; approved = a i }
canonical_of read allocation (some memo) approved l m a =
    λ i. record { allocation = l i; memo = m i; approved = a i }

-- What the snapshot of a wire transaction says of the end-state.
record Reads (after : WireTransaction) (snapshot : YnabSnapshot) : Type 0 where
  memo : snapshot.memo ≡ after.memo
  approved : snapshot.approved ≡ after.approved
  category : snapshot.category_id ≡ present after.category_id
  lines : snapshot.subtransactions ≡ to_split_lines after.subtransactions

to_snapshot-Reads :
    (parse_date : String → Result Date) (after : WireTransaction) {snapshot : YnabSnapshot}
    → to_snapshot parse_date after ≡ ok snapshot
    → Reads after snapshot
unfolding to_snapshot
to_snapshot-Reads parse_date after {snapshot} e =
    let (txn_date, dated, _) = returned_before _ (parse_date after.date) e in
    let (flag, flagged, _) = returned_before _ (optional_flag (present after.flag_color)) dated in
    let (state, whole, _) = returned_before _ (cleared_of after.cleared) flagged in
    let same : snapshot_of after txn_date flag state ≡ snapshot = cc in
    subst (Reads after) same
      (record { memo = refl; approved = refl; category = refl; lines = refl })

-- The end-state that is read of what was written.
record ReadsAs (snapshot : YnabSnapshot) (allocation : ResolvedAllocation) : Type 0 where
  read : TargetState
  found : to_target snapshot ≡ some read
  lines : ordered read.allocation ≡ ordered allocation
  memo : read.memo ≡ snapshot.memo
  approved : read.approved ≡ snapshot.approved

to_target-ReadsAs :
    (allocation : ResolvedAllocation) (after : WireTransaction) (snapshot : YnabSnapshot)
    → Reads after snapshot
    → FieldStored (patch_category allocation) after.category_id
    → LinesStored (patch_lines allocation) after.subtransactions
    → IsPlainAllocation allocation
    → ReadsAs snapshot allocation
unfolding to_target ordered to_split_lines
to_target-ReadsAs (category c) after snapshot r named stored plain =
    let no_lines : snapshot.subtransactions ≡ [] = r.lines ∙ ap to_split_lines stored in
    let id : snapshot.category_id ≡ some c.category =
      r.category ∙ ap present named ∙ present_ne c.category plain.0 in
    record {
      read = record {
        allocation = category (record { category = c.category; person_tag = none });
        memo = snapshot.memo;
        approved = snapshot.approved;
      };
      found = rw (no_lines, id) refl;
      lines = λ i. category (record c { person_tag = sym plain.1 i });
      memo = refl;
      approved = refl;
    }
to_target-ReadsAs (split s) after snapshot r named stored plain =
    let back : Permᴰ (to_split_lines (map stored_line (map patch_line s.lines)))
        (to_split_lines after.subtransactions) =
      to_split_lines-permᴰ stored in
    let lines : Permᴰ s.lines snapshot.subtransactions =
      subst₂ Permᴰ (stored-All s.lines plain.1) (sym r.lines) back in
    let many : ltb 1 (length snapshot.subtransactions) ≡ true =
      ground (arith, length-permᴰ lines, plain.0) in
    record {
      read = record {
        allocation = split (record { lines = snapshot.subtransactions });
        memo = snapshot.memo;
        approved = snapshot.approved;
      };
      found = rw many refl;
      lines =
          ap (λ l. split (record { lines = l }))
            (sym (sorted_by_unique compare_lines-IsOrder lines plain.1));
      memo = refl;
      approved = refl;
    }

module _ {ℓ} {Digest : Type ℓ} (same : Discrete Digest) (digest : TargetState → Digest) where
  agree_of_canonical :
      (a b : TargetState) → canonical a ≡ canonical b → hashes_agree same digest a b ≡ true
  unfolding hashes_agree content_hash
  agree_of_canonical a b e = ground arith

  -- A read-back whose lines are a permutation of the target's plain lines agrees with it.
  match_of_lines :
      (read target : TargetState)
      → ordered read.allocation ≡ ordered target.allocation
      → FieldStored target.memo read.memo
      → read.approved ≡ target.approved
      → classify_verify same digest (some read) target ≡ match
  unfolding classify_verify
  match_of_lines read target lines memo approved = rw (
      agree_of_canonical (without_memo read target.memo) target
        (canonical_of read target.allocation target.memo target.approved lines memo approved))

  -- A committed decision verifies: where YNAB applied its patch as documented, and each of its
  -- lines can be stored as it is, the read-back is classified as a match, whatever the order in
  -- which YNAB stored the lines.
  pub commit_verifies :
      (parse_date : String → Result Date) (decision : Decision) (after : WireTransaction)
      {snapshot : YnabSnapshot}
      → Applied (to_patch decision) after
      → IsPlainAllocation decision.allocation
      → to_snapshot parse_date after ≡ ok snapshot
      → classify_verify same digest (to_target snapshot) (target_of decision) ≡ match
  unfolding target_of to_patch
  commit_verifies parse_date decision after {snapshot} applied plain e =
      let r = to_snapshot-Reads parse_date after e in
      let a =
        to_target-ReadsAs decision.allocation after snapshot r applied.category applied.lines
          plain in
      rw a.found (
        match_of_lines a.read (target_of decision) a.lines
          (stored_memo decision.memo applied.memo (a.memo ∙ r.memo))
          (a.approved ∙ r.approved ∙ applied.approved))
