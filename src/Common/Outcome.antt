-- ===== src/Common/Outcome.antt =====
-- A call that may raise: it returns a value, or an exception. `value_error` is pydantic's rejection
-- of a model that a validator refuses, `index_error` that of an empty sequence's last element, and
-- `key_error` that of a key which a dictionary does not have, and `activity_error` the failure of a
-- Temporal activity.
use mathlib.Core.Path.{◌≡◌, refl}

pub data Exception : Type 0 where
  value_error index_error key_error activity_error : Exception

pub data Result {ℓ} (A : Type ℓ) : Type ℓ where
  raise : Exception → Result A
  ok : A → Result A

infixl 5 ◌>>=◌ ◌>>◌
abbrev pub ◌>>=◌ {κ ℓ} : {A : Type κ} {B : Type ℓ} → Result A → (A → Result B) → Result B
raise error >>= rest = raise error
ok value >>= rest = rest value

abbrev pub ◌>>◌ {κ ℓ} : {A : Type κ} {B : Type ℓ} → Result A → Result B → Result B
first >> second = first >>= λ _. second

-- Where a call that goes on returns, it first returned itself.
pub returned_before {κ ℓ} :
    {A : Type κ} {B : Type ℓ} {value : B} (rest : A → Result B) (first : Result A)
    → (first >>= rest) ≡ ok value
    → (a : A) × (rest a ≡ ok value) × (first ≡ ok a)
returned_before rest (raise error) e = cc
returned_before rest (ok a) e = (a, e, refl)
