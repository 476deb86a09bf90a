-- ===== src/Base/Errors.antt =====
-- The kernel's error codes that the modelled code returns, and results that carry them.
use mathlib.Core.Path.{◌≡◌, refl}
use mathlib.Core.Logic.{◌⊎◌, inl, inr}

pub data Errno : Type 0 where
  eperm enoent eintr eio enomem ebusy eexist enodev einval enospc erange enotty efault : Errno
  eopnotsupp ecanceled erestartsys emsgsize e2big : Errno

-- `ok` is a result that is no negative number.
pub data Result {ℓ} (A : Type ℓ) : Type ℓ where
  ok : A → Result A
  err : Errno → Result A

-- A function that returns 0 or a negative error code.
abbrev pub Status : Type 0
Status = Result (Unit {0})

abbrev pub success : Status
success = ok tt

pub Result-cases {ℓ} :
    {A : Type ℓ} (r : Result A) → ((e : Errno) × (r ≡ err e)) ⊎ ((a : A) × (r ≡ ok a))
Result-cases (ok a) = inr (a, refl)
Result-cases (err e) = inl (e, refl)
