-- ===== src/Alert/Spacing.antt =====
-- How far apart alerts are, whatever fails.
use ynab_agent.Common.{
  ℕ, ◌+◌, ◌≤◌, ◌<◌, ◌≡◌, refl, ap, ◌∙◌, String, true, false, List, [], ◌∷◌, filter, count, All,
  count_mono, count-filter_eq, count-append_one, one_if, any_of_mem, mem-filterᴰ, Memᴰ, ◌⊎◌, inl,
  inr, Bool-cases, arith,
}
use mathlib.Core.List.Memᴰ
use ynab_agent.Common.Int.{◌-ℤ◌, ◌≤ℤ◌, -ℤ_parts}
use ynab_agent.Domain.Ids.{Datetime, Timedelta}
use ynab_agent.Alert.{
  AlertEntry, AlertLedgerState, is_within, is_cooling, should_notify, record_notified, notified,
}

-- Failures in the order of time, from a time on.
abbrev pub InOrder : Datetime → List AlertEntry → Type 0
InOrder now [] = Unit
InOrder now (failure ∷ failures) = (now ≤ℤ failure.at) × InOrder failure.at failures

-- The later alert has another key, or comes a cooldown later at least.
abbrev pub Apart : Timedelta → AlertEntry → AlertEntry → Type 0
Apart cooldown earlier later = earlier.key ≡ later.key → cooldown ≤ℤ later.at -ℤ earlier.at

abbrev pub Spaced : Timedelta → List AlertEntry → Type 0
Spaced cooldown [] = Unit
Spaced cooldown (entry ∷ entries) = All (Apart cooldown entry) entries × Spaced cooldown entries

-- The ledger remembers an alert, or it is a cooldown old.
abbrev Remembered : Timedelta → AlertLedgerState → Datetime → AlertEntry → Type 0
Remembered cooldown state now entry = Memᴰ entry state.entries ⊎ (cooldown ≤ℤ now -ℤ entry.at)

module _ (cooldown rate_window : Timedelta) (rate_cap : ℕ) where
  later_old :
      (now later : Datetime) (entry : AlertEntry)
      → now ≤ℤ later
      → cooldown ≤ℤ now -ℤ entry.at
      → cooldown ≤ℤ later -ℤ entry.at
  later_old now later entry o h =
      omega (arith, -ℤ_parts now entry.at, -ℤ_parts later entry.at, o, h)

  old_apart :
      (now : Datetime) (entry : AlertEntry)
      → is_within now cooldown entry ≡ false
      → cooldown ≤ℤ now -ℤ entry.at
  unfolding is_within
  old_apart now entry e = ground arith

  -- What is let through is apart from every alert that the ledger remembers.
  sent-Apart :
      (state : AlertLedgerState) (entry failure : AlertEntry)
      → Memᴰ entry state.entries
      → should_notify state failure.key failure.at cooldown rate_window rate_cap ≡ true
      → Apart cooldown entry failure
  unfolding should_notify is_cooling
  sent-Apart state entry failure m s same =
      elim (Bool-cases (is_within failure.at cooldown entry)) [
        | inl near ↦
            let cooling : is_cooling failure.key failure.at cooldown entry ≡ true = ground arith in
            let quiet =
              any_of_mem (is_cooling failure.key failure.at cooldown) state.entries cooling m in
            absurd (ground arith)
        | inr far ↦ old_apart failure.at entry far
      ]

  Remembered-record_notified :
      (state : AlertLedgerState) (key : String) (now later : Datetime) (entry : AlertEntry)
      → now ≤ℤ later
      → Remembered cooldown state now entry
      → Remembered cooldown (record_notified state key later cooldown) later entry
  unfolding record_notified
  Remembered-record_notified state key now later entry o (inl m) =
      elim (Bool-cases (is_within later cooldown entry)) [
        | inl near ↦
            inl (Memᴰ.append_left _ (mem-filterᴰ (is_within later cooldown) state.entries near m))
        | inr far ↦ inr (old_apart later entry far)
      ]
  Remembered-record_notified state key now later entry o (inr old) =
      inr (later_old now later entry o old)

  Remembered-sent :
      (state : AlertLedgerState) (failure : AlertEntry)
      → Remembered cooldown
          (record_notified state failure.key failure.at cooldown)
          failure.at
          failure
  unfolding record_notified
  Remembered-sent state failure =
      inl
        (Memᴰ.append_right (filter (is_within failure.at cooldown) state.entries) (Memᴰ.head refl))

  Remembered-later :
      (state : AlertLedgerState) (now later : Datetime) (entry : AlertEntry)
      → now ≤ℤ later
      → Remembered cooldown state now entry
      → Remembered cooldown state later entry
  Remembered-later state now later entry o (inl m) = inl m
  Remembered-later state now later entry o (inr old) = inr (later_old now later entry o old)

  Remembered-Apart :
      (state : AlertLedgerState) (now : Datetime) (entry failure : AlertEntry)
      → now ≤ℤ failure.at
      → Remembered cooldown state now entry
      → should_notify state failure.key failure.at cooldown rate_window rate_cap ≡ true
      → Apart cooldown entry failure
  Remembered-Apart state now entry failure o (inl m) s same =
      sent-Apart state entry failure m s same
  Remembered-Apart state now entry failure o (inr old) s same = later_old now failure.at entry o old

  notified-Apart :
      (failures : List AlertEntry) (state : AlertLedgerState) (now : Datetime) (entry : AlertEntry)
      → InOrder now failures
      → Remembered cooldown state now entry
      → All (Apart cooldown entry) (notified cooldown rate_window rate_cap state failures)
  unfolding notified
  notified-Apart [] state now entry o r = tt
  notified-Apart (failure ∷ failures) state now entry o r =
      elim (Bool-cases (should_notify state failure.key failure.at cooldown rate_window rate_cap)) [
        | inl sent ↦ rw sent (
          Remembered-Apart state now entry failure o.0 r sent,
          notified-Apart failures _ failure.at entry o.1
              (Remembered-record_notified state failure.key now failure.at entry o.0 r),
        )
        | inr silent ↦ rw silent (
            notified-Apart failures state failure.at entry o.1
              (Remembered-later state now failure.at entry o.0 r))
      ]

  notified-Spaced :
      (failures : List AlertEntry) (state : AlertLedgerState) (now : Datetime)
      → InOrder now failures
      → Spaced cooldown (notified cooldown rate_window rate_cap state failures)
  unfolding notified
  notified-Spaced [] state now o = tt
  notified-Spaced (failure ∷ failures) state now o =
      elim (Bool-cases (should_notify state failure.key failure.at cooldown rate_window rate_cap)) [
        | inl sent ↦ rw sent (
          notified-Apart failures _ failure.at failure o.1 (Remembered-sent state failure),
          notified-Spaced failures _ failure.at o.1,
        )
        | inr silent ↦ rw silent (notified-Spaced failures state failure.at o.1)
      ]

  -- What the ledger counts, as the time goes on.
  within_mono :
      (state : AlertLedgerState) (now later : Datetime)
      → now ≤ℤ later
      → count (is_within later rate_window) state.entries
        ≤ count (is_within now rate_window) state.entries
  unfolding is_within
  within_mono state now later o =
      count_mono (is_within later rate_window) (is_within now rate_window)
        (λ e h. ground (arith, -ℤ_parts now e.at, -ℤ_parts later e.at)) state.entries

  sent_room :
      (state : AlertLedgerState) (key : String) (now : Datetime)
      → should_notify state key now cooldown rate_window rate_cap ≡ true
      → count (is_within now rate_window) state.entries < rate_cap
  unfolding should_notify
  sent_room state key now s = ground arith

  module _ (w : rate_window ≤ℤ cooldown) where
    count-record_notified :
        (state : AlertLedgerState) (key : String) (now later : Datetime)
        → now ≤ℤ later
        → count (is_within later rate_window) (record_notified state key now cooldown).entries
          ≡ count (is_within later rate_window) state.entries
            + one_if (is_within later rate_window (record { key = key; at = now }))
    unfolding record_notified is_within
    count-record_notified state key now later o =
        count-append_one (is_within later rate_window)
          (filter (is_within now cooldown) state.entries) (record { key = key; at = now })
        ∙ ap (λ t. t + one_if (is_within later rate_window (record { key = key; at = now })))
            (count-filter_eq (is_within later rate_window) (is_within now cooldown)
              (λ e h. ground (arith, -ℤ_parts now e.at, -ℤ_parts later e.at)) state.entries)

    notified_capped :
        (failures : List AlertEntry) (state : AlertLedgerState) (now later : Datetime)
        → InOrder now failures
        → now ≤ℤ later
        → All (λ failure. failure.at ≤ℤ later) failures
        → count (is_within now rate_window) state.entries ≤ rate_cap
        → count
              (is_within later rate_window)
              (notified cooldown rate_window rate_cap state failures)
            + count (is_within later rate_window) state.entries
          ≤ rate_cap
    unfolding notified count
    notified_capped [] state now later o l a c = omega (arith, within_mono state now later l)
    notified_capped (failure ∷ failures) state now later o l a c =
        elim (Bool-cases
          (should_notify state failure.key failure.at cooldown rate_window rate_cap)) [
            | inl sent ↦
                let state' = record_notified state failure.key failure.at cooldown in
                let rest = notified_capped failures state' failure.at later o.1 a.0 a.1 (
                  ground (
                    arith,
                    count-record_notified state failure.key failure.at failure.at (omega arith),
                    sent_room state failure.key failure.at sent,
                  )) in
                rw sent (
                  ground
                    (arith, rest, count-record_notified state failure.key failure.at later a.0))
            | inr silent ↦ rw silent (
                notified_capped failures state failure.at later o.1 a.0 a.1
                  (omega (arith, within_mono state now failure.at o.0, c)))
          ]

abbrev pub no_alerts : AlertLedgerState
no_alerts = record { entries = [] }

-- Alerts neither repeat nor flood: from an empty ledger, where failures come in the order of time
-- and the rate window is within the cooldown, two alerts for one key are a cooldown apart at
-- least, and at any time from the last failure on, the alerts of the last rate window are within
-- the rate cap.
pub notified-Spaced_capped :
    (cooldown rate_window : Timedelta) (rate_cap : ℕ) (start later : Datetime)
    (failures : List AlertEntry)
    → rate_window ≤ℤ cooldown
    → InOrder start failures
    → start ≤ℤ later
    → All (λ failure. failure.at ≤ℤ later) failures
    → let alerts = notified cooldown rate_window rate_cap no_alerts failures in
      Spaced cooldown alerts × (count (is_within later rate_window) alerts ≤ rate_cap)
unfolding count
notified-Spaced_capped cooldown rate_window rate_cap start later failures w o l a = (
  notified-Spaced cooldown rate_window rate_cap failures no_alerts start o,
  omega (
    arith,
    notified_capped cooldown rate_window rate_cap w failures no_alerts start later o l a
        (omega arith),
  ),
)
