-- ===== src/Dpll/Refs/Repeat.antt =====
-- A registration that is made twice. The second time only the counter goes up, and the deletions
-- that follow do not get rid of the reference.
use netdevsim_dkms.Base.{ℕ, ◌+◌, ◌≡◌, refl, none, some, List, [], ◌∷◌, arith, einval, err, success}
use netdevsim_dkms.Dpll.Refs.{
  Registration, Ref, Refs, Memory, registration_find, registration_del, find_ref, ref_add, ref_del,
}
use netdevsim_dkms.Dpll.Refs.Laws.{
  same_registration_refl, find_ref-insert, find_ref-set_ref, add_new-success,
}

-- The reference to `t` at index `i` with the given registrations and counter.
abbrev pub ref_to : ℕ → List Registration → ℕ → Ref
ref_to t regs n = record { target = t; registrations = regs; refcount = n }

-- What a first addition leaves.
pub added_new :
    (mem : Memory) (m : Refs) (t i : ℕ) (reg : Registration)
    → find_ref t m ≡ none
    → (ref_add mem m t i reg).0 ≡ success
    → find_ref t (ref_add mem m t i reg).1 ≡ some (i, ref_to t (reg ∷ []) 1)
unfolding ref_add
added_new mem m t i reg f h =
    let (m', ins, added) = add_new-success mem m t i reg (rw (f, ref_add) at h) in
    let g = find_ref-insert i t (ref_to t [] 1) m ins f refl in
    ground (arith, f, added, find_ref-set_ref t (reg ∷ []) 1 i (ref_to t [] 1) m' g)

-- Adding what is there already succeeds and counts.
added_again :
    (mem : Memory) (m : Refs) (t i n : ℕ) (reg : Registration)
    → find_ref t m ≡ some (i, ref_to t (reg ∷ []) n)
    → ((ref_add mem m t i reg).0 ≡ success)
      × (find_ref t (ref_add mem m t i reg).1 ≡ some (i, ref_to t (reg ∷ []) (n + 1)))
unfolding ref_add registration_find
added_again mem m t i n reg f = ground (
  arith,
  f,
  same_registration_refl reg,
  find_ref-set_ref t (reg ∷ []) (n + 1) i (ref_to t (reg ∷ []) n) m f,
)

-- The first of two deletions takes the registration away and leaves the reference.
deleted_once :
    (m : Refs) (t i : ℕ) (reg : Registration)
    → find_ref t m ≡ some (i, ref_to t (reg ∷ []) 2)
    → ((ref_del m t reg).0 ≡ success) × (find_ref t (ref_del m t reg).1 ≡ some (i, ref_to t [] 1))
unfolding ref_del registration_find registration_del
deleted_once m t i reg f =
    ground
      (arith, f, same_registration_refl reg, find_ref-set_ref t [] 1 i (ref_to t (reg ∷ []) 2) m f)

-- The bug: a registration that is made twice cannot be taken back twice. Where the table has no
-- reference to the target, and the first addition succeeds, the second one and the first deletion
-- succeed too; but the second deletion fails with EINVAL and changes nothing, and the reference
-- stays, with no registration and the counter at 1.
pub repeated_add_leaks :
    (mem mem' : Memory) (m : Refs) (t i : ℕ) (reg : Registration)
    → find_ref t m ≡ none
    → (ref_add mem m t i reg).0 ≡ success
    → let m1 = (ref_add mem m t i reg).1 in
      let m2 = (ref_add mem' m1 t i reg).1 in
      let m3 = (ref_del m2 t reg).1 in
      ((ref_add mem' m1 t i reg).0 ≡ success)
      × ((ref_del m2 t reg).0 ≡ success)
      × (ref_del m3 t reg ≡ (err einval, m3))
      × (find_ref t m3 ≡ some (i, ref_to t [] 1))
unfolding ref_del registration_find
repeated_add_leaks mem mem' m t i reg f h =
    let a1 = added_new mem m t i reg f h in
    let a2 = added_again mem' (ref_add mem m t i reg).1 t i 1 reg a1 in
    let m2 : Refs = (ref_add mem' (ref_add mem m t i reg).1 t i reg).1 in
    let a3 = deleted_once m2 t i reg a2.1 in
    (a2.0, a3.0, not_deleted (ref_del m2 t reg).1 t i reg a3.1, a3.1)
  where
    not_deleted :
        (m : Refs) (t i : ℕ) (reg : Registration)
        → find_ref t m ≡ some (i, ref_to t [] 1)
        → ref_del m t reg ≡ (err einval, m)
    not_deleted m t i reg f = ground (arith, f)
