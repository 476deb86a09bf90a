-- ===== src/Dpll/Refs.antt =====
-- The reference tables of dpll/dpll_core.c: a device's table of pins, a pin's table of devices and
-- its table of parent pins. An xarray is the list of its entries by rising index. A pointer is a
-- number, with 0 for NULL. What the allocator answers is an argument of each call.
pub mod Laws
pub mod Repeat
mod Examples
use netdevsim_dkms.Base.{
  ℕ, ◌+◌, ◌-◌, Bool, true, false, not, ◌&&◌, Option, none, some, List, [], ◌∷◌, ◌++◌, Errno, enomem,
  ebusy, einval, ok, err, Status, success, ◌==◌, ltb, if◌then◌else◌,
}

-- `struct dpll_pin_registration`
pub record Registration : Type 0 where
  pub ops : ℕ
  pub priv : ℕ
  pub cookie : ℕ

-- `struct dpll_pin_ref`; `target` is its `dpll` or `pin`.
pub record Ref : Type 0 where
  pub target : ℕ
  pub registrations : List Registration
  pub refcount : ℕ

abbrev pub Refs : Type 0
Refs = List (ℕ × Ref)

-- Which allocations of a call succeed: the reference, its slot in the xarray, the registration.
pub record Memory : Type 0 where
  pub ref : Bool
  pub slot : Bool
  pub registration : Bool

abbrev pub same_registration : Registration → Registration → Bool
same_registration a b = (a.ops == b.ops) && (a.priv == b.priv) && (a.cookie == b.cookie)

unfoldable pub registration_find : List Registration → Registration → Bool
registration_find [] r = false
registration_find (x ∷ xs) r = if same_registration x r then true else registration_find xs r

-- `list_del` of the registration that the search found
unfoldable pub registration_del : List Registration → Registration → List Registration
registration_del [] r = []
registration_del (x ∷ xs) r = if same_registration x r then xs else x ∷ registration_del xs r

-- `xa_insert`; `none` where the index is taken.
unfoldable pub xa_insert : ℕ → Ref → Refs → Option Refs
xa_insert i v [] = some ((i, v) ∷ [])
xa_insert i v ((k, w) ∷ m) =
    if ltb i k
    then some ((i, v) ∷ (k, w) ∷ m)
    else if i == k
    then none
    else elim (xa_insert i v m) [ none ↦ none | some m' ↦ some ((k, w) ∷ m') ]

unfoldable pub xa_erase : ℕ → Refs → Refs
xa_erase i [] = []
xa_erase i ((k, w) ∷ m) = if i == k then m else (k, w) ∷ xa_erase i m

-- The loop over the table: the first reference to a target, with its index.
unfoldable pub find_ref : ℕ → Refs → Option (ℕ × Ref)
find_ref t [] = none
find_ref t ((k, r) ∷ m) = if r.target == t then some (k, r) else find_ref t m

-- A write to the reference that the loop found.
unfoldable pub set_ref : ℕ → List Registration → ℕ → Refs → Refs
set_ref t regs n [] = []
set_ref t regs n ((k, r) ∷ m) =
    if r.target == t
    then (k, record r { registrations = regs; refcount = n }) ∷ m
    else (k, r) ∷ set_ref t regs n m

-- A new reference, and its registration.
unfoldable pub add_new : Memory → Refs → ℕ → ℕ → Registration → Status × Refs
add_new mem refs t i reg =
    if not mem.ref
    then (err enomem, refs)
    else elim (xa_insert i (record { target = t; registrations = []; refcount = 1 }) refs) [
      | none ↦ (err ebusy, refs)
      | some refs' ↦
          if not mem.slot
          then (err enomem, refs)
          else if not mem.registration
          then (err enomem, xa_erase i refs')
          else (success, set_ref t (reg ∷ []) 1 refs')
    ]

-- `dpll_xa_ref_pin_add` and `dpll_xa_ref_dpll_add`, which differ in the index: `pin->pin_idx` in the
-- one, `dpll->id` in the other.
unfoldable pub ref_add : Memory → Refs → ℕ → ℕ → Registration → Status × Refs
unfolding add_new
ref_add mem refs t i reg = elim (find_ref t refs) [
  | none ↦ add_new mem refs t i reg
  | some (k, r) ↦
      if registration_find r.registrations reg
      then (success, set_ref t r.registrations (r.refcount + 1) refs)
      else if not mem.registration
      then (err enomem, refs)
      else (success, set_ref t (r.registrations ++ reg ∷ []) (r.refcount + 1) refs)
]

-- `dpll_xa_ref_pin_del` and `dpll_xa_ref_dpll_del`; the second returns nothing.
unfoldable pub ref_del : Refs → ℕ → Registration → Status × Refs
ref_del refs t reg = elim (find_ref t refs) [
  | none ↦ (err einval, refs)
  | some (k, r) ↦
      if not (registration_find r.registrations reg)
      then (err einval, refs)
      else if r.refcount == 1
      then (success, xa_erase k refs)
      else (success, set_ref t (registration_del r.registrations reg) (r.refcount - 1) refs)
]
