-- ===== src/Dev/Stages.antt =====
-- A set-up in stages with its way out, as the functions of netdevsim that acquire one thing after another
-- and, where one fails, jump to the label that releases what is held: what is held is a list, which is
-- `none` once something was released that was not held.
use netdevsim_dkms.Base.{
  ◌≡◌, refl, Bool, true, false, Option, none, some, List, [], ◌∷◌, arith, Errno, ok, err, Status,
  success, if◌then◌else◌, Result-cases, inl, inr,
}

module _ {A : Type 0} (same : A → A → Bool) where
  abbrev pub is_held : A → List A → Bool
  is_held s [] = false
  is_held s (x ∷ xs) = if same s x then true else is_held s xs

  abbrev pub taken_out : A → List A → List A
  taken_out s [] = []
  taken_out s (x ∷ xs) = if same s x then xs else x ∷ taken_out s xs

  abbrev pub release : A → Option (List A) → Option (List A)
  release s none = none
  release s (some xs) = if is_held s xs then some (taken_out s xs) else none

module _ {A : Type 0} where
  -- A set-up, stage by stage, each with the way out where it cannot be acquired: it is acquired, and the
  -- set-up goes on, or the way out is taken.
  abbrev pub set_up :
      List (A × (Option (List A) → Option (List A)))
      → (A → Status)
      → List A
      → Status × Option (List A)
  set_up [] a held = (success, some held)
  set_up ((s, way_out) ∷ stages) a held = elim (a s) [
    | err e ↦ (err e, way_out (some held))
    | ok u ↦ set_up stages a (s ∷ held)
  ]

  abbrev pub all_held : List (A × (Option (List A) → Option (List A))) → List A → List A
  all_held [] held = held
  all_held ((s, way_out) ∷ stages) held = all_held stages (s ∷ held)

  -- Every way out leaves the same.
  unfoldable pub BacksOut :
      List (A × (Option (List A) → Option (List A))) → List A → List A → Type 0
  BacksOut [] held left = Unit
  BacksOut ((s, way_out) ∷ stages) held left =
      (way_out (some held) ≡ some left) × BacksOut stages (s ∷ held) left

  pub set_up-err :
      (stages : List (A × (Option (List A) → Option (List A)))) (a : A → Status)
      (held left : List A) (e : Errno)
      → BacksOut stages held left
      → (set_up stages a held).0 ≡ err e
      → (set_up stages a held).1 ≡ some left
  unfolding BacksOut
  set_up-err [] a held left e out h = ground (arith, h)
  set_up-err ((s, way_out) ∷ stages) a held left e (here, out) h = elim (Result-cases (a s)) [
    | inl (x, q) ↦ ground (arith, h, q, here)
    | inr (u, q) ↦ ground (arith, h, q, set_up-err stages a (s ∷ held) left e out)
  ]

  pub set_up-ok :
      (stages : List (A × (Option (List A) → Option (List A)))) (a : A → Status) (held : List A)
      → (set_up stages a held).0 ≡ success
      → (set_up stages a held).1 ≡ some (all_held stages held)
  set_up-ok [] a held h = refl
  set_up-ok ((s, way_out) ∷ stages) a held h = elim (Result-cases (a s)) [
    | inl (x, q) ↦ ground (arith, h, q)
    | inr (u, q) ↦ ground (arith, h, q, set_up-ok stages a (s ∷ held))
  ]
