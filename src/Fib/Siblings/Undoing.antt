-- ===== src/Fib/Siblings/Undoing.antt =====
-- The counter of a route's nexthops, and what is left of an addition that fails.
use netdevsim_dkms.Base.{
  ℕ, suc, ◌+◌, ◌≡◌, Bool, true, false, List, [], ◌∷◌, ◌++◌, arith, Errno, err, length,
  length-append, inl, inr, Bool-cases, Result-cases,
}
use netdevsim_dkms.Fib.Siblings.{
  Siblings, nh_find, nh_unlink, nh_add, nh_del, nh_add_all, nh_del_all,
}

-- None of the nexthops is in the list, nor twice among themselves.
abbrev pub AreNew : List ℕ → List ℕ → Type 0
AreNew [] l = Unit
AreNew (x ∷ xs) l = (nh_find x l ≡ false) × AreNew xs (l ++ x ∷ [])

pub nh_unlink-append :
    (x : ℕ) (l : List ℕ)
    → nh_find x l ≡ false
    → (nh_find x (l ++ x ∷ []) ≡ true) × (nh_unlink x (l ++ x ∷ []) ≡ l)
nh_unlink-append x [] h = ground arith
nh_unlink-append x (y ∷ l) h = ground (arith, nh_unlink-append x l)

nh_del-nh_add :
    (x : ℕ) (r : Siblings) → nh_find x r.nh_list ≡ false → nh_del x (nh_add true x r).1 ≡ r
unfolding nh_del nh_add
nh_del-nh_add x r h = ground (arith, nh_unlink-append x r.nh_list h)

-- Adding nexthops that the route does not have yet, if it fails, leaves the route as it was, however
-- many of them had been added.
pub nh_add_all-err :
    (mem : ℕ → Bool) (i : ℕ) (xs : List ℕ) (r : Siblings) (e : Errno)
    → AreNew xs r.nh_list
    → (nh_add_all mem i xs r).0 ≡ err e
    → nh_add_all mem i xs r ≡ (err e, r)
unfolding nh_add_all nh_add
nh_add_all-err mem i [] r e new h = ground arith
nh_add_all-err mem i (x ∷ xs) r e new h =
    let r1 : Siblings = record { nh_list = r.nh_list ++ x ∷ []; nhs = r.nhs + 1 } in
    elim (Bool-cases (mem i)) [
      | inr none_left ↦ ground (arith, none_left)
      | inl m ↦ elim (Result-cases (nh_add_all mem (suc i) xs r1).0) [
        | inl (e', f) ↦
            ground
              (arith, m, f, nh_add_all-err mem (suc i) xs r1 e' new.1 f, nh_del-nh_add x r new.0)
        | inr (u, f) ↦ absurd (ground (arith, m, f))
      ]
    ]

-- The counter is the length of the list.
pub record IsSized (r : Siblings) : Type 0 where
  pub sized : r.nhs ≡ length r.nh_list

length-nh_unlink :
    (x : ℕ) (l : List ℕ) → nh_find x l ≡ true → length l ≡ suc (length (nh_unlink x l))
length-nh_unlink x [] h = ground arith
length-nh_unlink x (y ∷ l) h = ground (arith, length-nh_unlink x l)

pub nh_add-IsSized : (mem : Bool) (x : ℕ) (r : Siblings) → IsSized r → IsSized (nh_add mem x r).1
unfolding nh_add
nh_add-IsSized mem x r v = ground (arith, v, length-append r.nh_list (x ∷ []))

pub nh_del-IsSized : (x : ℕ) (r : Siblings) → IsSized r → IsSized (nh_del x r)
unfolding nh_del
nh_del-IsSized x r v = ground (arith, v, length-nh_unlink x r.nh_list)

pub nh_add_all-IsSized :
    (mem : ℕ → Bool) (i : ℕ) (xs : List ℕ) (r : Siblings)
    → IsSized r
    → IsSized (nh_add_all mem i xs r).1
unfolding nh_add_all
nh_add_all-IsSized mem i [] r v = v
nh_add_all-IsSized mem i (x ∷ xs) r v =
    let r1 : Siblings = (nh_add (mem i) x r).1 in
    let v1 = nh_add-IsSized (mem i) x r v in
    let r2 : Siblings = (nh_add_all mem (suc i) xs r1).1 in
    let v2 = nh_add_all-IsSized mem (suc i) xs r1 v1 in
    ground (arith, v1, v2, nh_del-IsSized x r2 v2)

pub nh_del_all-IsSized : (xs : List ℕ) (r : Siblings) → IsSized r → IsSized (nh_del_all xs r)
unfolding nh_del_all
nh_del_all-IsSized [] r v = v
nh_del_all-IsSized (x ∷ xs) r v = nh_del_all-IsSized xs (nh_del x r) (nh_del-IsSized x r v)
