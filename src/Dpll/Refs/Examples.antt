-- ===== src/Dpll/Refs/Examples.antt =====
-- The theorems about reference tables at concrete ones.
use netdevsim_dkms.Base.{◌≡◌, refl, inr, true, false, [], ◌∷◌, arith, enomem, success}
use netdevsim_dkms.Dpll.Refs.{
  Registration, Refs, Memory, registration_find, xa_insert, find_ref, add_new, ref_add, ref_del,
}
use netdevsim_dkms.Dpll.Refs.Laws.{ref_add-err, ref_del-ref_add}
use netdevsim_dkms.Dpll.Refs.Repeat.{ref_to}

abbrev plenty : Memory
plenty = record { ref = true; slot = true; registration = true }

abbrev no_registration : Memory
no_registration = record { ref = true; slot = true; registration = false }

abbrev mine : Registration
mine = record { ops = 1; priv = 2; cookie = 0 }

-- A table with one reference, to pin 5 at index 3, made by another owner.
abbrev others : Refs
others = (3, ref_to 5 (record { ops = 7; priv = 8; cookie = 0 } ∷ []) 1) ∷ []

ref_add-err_example : (ref_add no_registration others 6 1 mine).1 ≡ others
unfolding ref_add find_ref add_new xa_insert
ref_add-err_example = ref_add-err no_registration others 6 1 mine enomem refl

ref_del-ref_add_example : ref_del (ref_add plenty others 5 3 mine).1 5 mine ≡ (success, others)
unfolding ref_add find_ref registration_find
ref_del-ref_add_example =
    ref_del-ref_add plenty others 5 3 mine (omega arith, tt)
      (inr (3, ref_to 5 (record { ops = 7; priv = 8; cookie = 0 } ∷ []) 1, refl, refl)) refl
