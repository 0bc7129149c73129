-- ===== src/Prelude/Results.antt =====
-- pj_status_t, and a status with the value that a call hands out when it succeeds.
use Prim.Native.Nat.{ℕ}
use mathlib.Core.Path.{◌≡◌, refl}
use mathlib.Core.Logic.{◌⊎◌, inl, inr}
use mathlib.Core.Bool.{Bool, true, false}

-- The codes that the program names; `os e` is PJ_STATUS_FROM_OS(e), `other` any further code.
pub data Error : Type 0 where
  einval eexists einvalidop enotfound eeof epending etoobig etimedout enomem : Error
  enametoolong evid_invdev evid_invcap : Error
  os other : ℕ → Error

pub data Status : Type 0 where
  success : Status
  failure : Error → Status

abbrev pub is_success : Status → Bool
is_success success = true
is_success (failure e) = false

pub data Result {ℓ} (A : Type ℓ) : Type ℓ where
  ok : A → Result A
  err : Error → Result A

abbrev pub is_ok {ℓ} : {A : Type ℓ} → Result A → Bool
is_ok (ok a) = true
is_ok (err e) = false

pub Result-cases {ℓ} :
    {A : Type ℓ} (r : Result A) → ((a : A) × (r ≡ ok a)) ⊎ ((e : Error) × (r ≡ err e))
Result-cases (ok a) = inl (a, refl)
Result-cases (err e) = inr (e, refl)

pub Status-cases : (s : Status) → (s ≡ success) ⊎ ((e : Error) × (s ≡ failure e))
Status-cases success = inl refl
Status-cases (failure e) = inr (e, refl)
