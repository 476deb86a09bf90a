-- ===== src/Dpll/Refs/Laws.antt =====
-- Adding a reference and deleting it again, and what a failed call leaves.
use netdevsim_dkms.Base.{
  ℕ, ◌+◌, ◌<◌, ◌≡◌, refl, ◌⊎◌, inl, inr, true, false, none, some, List, [], ◌∷◌, ◌++◌, arith, Errno,
  err, success, Option-cases, All,
}
use netdevsim_dkms.Dpll.Refs.{
  Registration, Ref, Refs, Memory, same_registration, registration_find, registration_del,
  xa_insert, xa_erase, find_ref, set_ref, add_new, ref_add, ref_del,
}

pub same_registration_refl : (r : Registration) → same_registration r r ≡ true
same_registration_refl r = ground arith

pub find-append :
    (xs : List Registration) (r : Registration) → registration_find (xs ++ r ∷ []) r ≡ true
unfolding registration_find
find-append [] r = ground arith
find-append (x ∷ xs) r = ground (arith, find-append xs r)

pub del-append :
    (xs : List Registration) (r : Registration)
    → registration_find xs r ≡ false
    → registration_del (xs ++ r ∷ []) r ≡ xs
unfolding registration_find registration_del
del-append [] r h = ground arith
del-append (x ∷ xs) r h = ground (arith, del-append xs r)

pub erase-insert :
    (i : ℕ) (v : Ref) (m : Refs) {m' : Refs} → xa_insert i v m ≡ some m' → xa_erase i m' ≡ m
unfolding xa_insert xa_erase
erase-insert i v [] h = ground arith
erase-insert i v ((k, w) ∷ m) h = elim (Option-cases (xa_insert i v m)) [
  | inl e ↦ ground (arith, e)
  | inr (m'', e) ↦ ground (arith, e, erase-insert i v m e)
]

pub find_ref-insert :
    (i t : ℕ) (v : Ref) (m : Refs) {m' : Refs}
    → xa_insert i v m ≡ some m'
    → find_ref t m ≡ none
    → v.target ≡ t
    → find_ref t m' ≡ some (i, v)
unfolding xa_insert find_ref
find_ref-insert i t v [] h n e = ground arith
find_ref-insert i t v ((k, w) ∷ m) h n e = elim (Option-cases (xa_insert i v m)) [
  | inl f ↦ ground (arith, f)
  | inr (m'', f) ↦ ground (arith, f, find_ref-insert i t v m f)
]

-- A write to a reference is read back, at its index.
pub find_ref-set_ref :
    (t : ℕ) (regs : List Registration) (n k : ℕ) (r : Ref) (m : Refs)
    → find_ref t m ≡ some (k, r)
    → find_ref t (set_ref t regs n m) ≡ some (k, record r { registrations = regs; refcount = n })
unfolding find_ref set_ref
find_ref-set_ref t regs n k r [] h = ground arith
find_ref-set_ref t regs n k r ((j, s) ∷ m) h = ground (arith, find_ref-set_ref t regs n k r m)

pub erase-set_ref-insert :
    (i t : ℕ) (v : Ref) (regs : List Registration) (n : ℕ) (m : Refs) {m' : Refs}
    → xa_insert i v m ≡ some m'
    → find_ref t m ≡ none
    → v.target ≡ t
    → xa_erase i (set_ref t regs n m') ≡ m
unfolding xa_insert find_ref set_ref xa_erase
erase-set_ref-insert i t v regs n [] h f e = ground arith
erase-set_ref-insert i t v regs n ((k, w) ∷ m) h f e = elim (Option-cases (xa_insert i v m)) [
  | inl g ↦ ground (arith, g)
  | inr (m'', g) ↦ ground (arith, g, erase-set_ref-insert i t v regs n m g)
]

pub set_ref-set_ref :
    (t : ℕ) (regs : List Registration) (n k : ℕ) (r : Ref) (m : Refs)
    → find_ref t m ≡ some (k, r)
    → set_ref t r.registrations r.refcount (set_ref t regs n m) ≡ m
unfolding find_ref set_ref
set_ref-set_ref t regs n k r [] h = refl
set_ref-set_ref t regs n k r ((j, s) ∷ m) h = ground (arith, set_ref-set_ref t regs n k r m)

-- Every reference that is held has been taken at least once.
abbrev pub IsHeld : Refs → Type 0
IsHeld = All (λ e. 0 < e.1.refcount)

pub find_ref-IsHeld :
    (t k : ℕ) (r : Ref) (m : Refs) → IsHeld m → find_ref t m ≡ some (k, r) → 0 < r.refcount
unfolding find_ref
find_ref-IsHeld t k r [] h e = ground arith
find_ref-IsHeld t k r ((j, s) ∷ m) h e = ground (arith, find_ref-IsHeld t k r m h.1)

-- The registration is not in the table yet.
abbrev pub IsFresh : Refs → ℕ → Registration → Type 0
IsFresh m t reg =
    (find_ref t m ≡ none)
    ⊎ ((k : ℕ) × (r : Ref) × (find_ref t m ≡ some (k, r))
        × (registration_find r.registrations reg ≡ false))

add_new-err :
    (mem : Memory) (m : Refs) (t i : ℕ) (reg : Registration) (e : Errno)
    → (add_new mem m t i reg).0 ≡ err e
    → (add_new mem m t i reg).1 ≡ m
unfolding add_new
add_new-err mem m t i reg e h =
    let v : Ref = record { target = t; registrations = []; refcount = 1 } in
    elim (Option-cases (xa_insert i v m)) [
      | inl f ↦ ground (arith, f)
      | inr (m', f) ↦ ground (arith, f, erase-insert i v m f)
    ]

pub add_new-success :
    (mem : Memory) (m : Refs) (t i : ℕ) (reg : Registration)
    → (add_new mem m t i reg).0 ≡ success
    → (m' : Refs) × (xa_insert i (record { target = t; registrations = []; refcount = 1 }) m
        ≡ some m')
      × (add_new mem m t i reg ≡ (success, set_ref t (reg ∷ []) 1 m'))
unfolding add_new
add_new-success mem m t i reg h =
    elim (Option-cases (xa_insert i (record { target = t; registrations = []; refcount = 1 }) m)) [
      | inl f ↦ absurd (ground (arith, f))
      | inr (m', f) ↦ (m', f, ground (arith, f))
    ]

-- A failed addition leaves the table as it was, whichever allocation failed.
pub ref_add-err :
    (mem : Memory) (m : Refs) (t i : ℕ) (reg : Registration) (e : Errno)
    → (ref_add mem m t i reg).0 ≡ err e
    → (ref_add mem m t i reg).1 ≡ m
unfolding ref_add
ref_add-err mem m t i reg e h = elim (Option-cases (find_ref t m)) [
  | inl f ↦ rw (f, ref_add) (add_new-err mem m t i reg e (rw (f, ref_add) at h))
  | inr ((k, r), f) ↦ ground (arith, f)
]

-- Deleting a registration that was just added, and was not there before, restores the table.
pub ref_del-ref_add :
    (mem : Memory) (m : Refs) (t i : ℕ) (reg : Registration)
    → IsHeld m
    → IsFresh m t reg
    → (ref_add mem m t i reg).0 ≡ success
    → ref_del (ref_add mem m t i reg).1 t reg ≡ (success, m)
unfolding ref_add ref_del
ref_del-ref_add mem m t i reg held (inl f) h =
    let (m', ins, added) = add_new-success mem m t i reg (rw (f, ref_add) at h) in
    let g =
      find_ref-insert i t (record { target = t; registrations = []; refcount = 1 }) m ins f refl in
    ground (
      arith,
      f,
      added,
      find_ref-set_ref t (reg ∷ []) 1 i (record { target = t; registrations = []; refcount = 1 }) m'
          g,
      find-append [] reg,
      erase-set_ref-insert i t (record { target = t; registrations = []; refcount = 1 }) (reg ∷ [])
          1 m ins f,
    )
ref_del-ref_add mem m t i reg held (inr (k, r, f, new)) h = ground (
  arith,
  f,
  new,
  find_ref-IsHeld t k r m held f,
  find_ref-set_ref t (r.registrations ++ reg ∷ []) (r.refcount + 1) k r m f,
  find-append r.registrations reg,
  del-append r.registrations reg new,
  set_ref-set_ref t (r.registrations ++ reg ∷ []) (r.refcount + 1) k r m f,
)
