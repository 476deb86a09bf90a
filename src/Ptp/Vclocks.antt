-- ===== src/Ptp/Vclocks.antt =====
-- The files n_vclocks and max_vclocks of ptp/ptp_sysfs.c. The number that user space writes has been
-- read; a virtual clock is known by its index. Messages are left out.
pub mod Changing
mod Examples
use netdevsim_dkms.Base.{
  ℕ, zero, suc, ◌+◌, ◌-◌, Bool, true, false, not, Option, none, some, List, [], ◌∷◌, ◌++◌, einval,
  enomem, erestartsys, err, Status, success, ◌==◌, ltb, ◌||◌, if◌then◌else◌, length, get_or, set,
  replicate,
}

-- The virtual clocks' part of `struct ptp_clock`: the clocks that are registered, in order, and the
-- array of their indices, where none is -1.
pub record Vclocks : Type 0 where
  pub clocks : List ℕ
  pub vclock_index : List (Option ℕ)
  pub n_vclocks : ℕ
  pub max_vclocks : ℕ

-- The loop of `n_vclocks_store` that creates `k` clocks from the `i`-th on. Each answer is that of
-- ptp_vclock_register.
unfoldable pub create : ℕ → ℕ → List (Option ℕ) → Vclocks → Bool × Vclocks
create zero i answers s = (true, s)
create (suc k) i [] s = (false, s)
create (suc k) i (none ∷ answers) s = (false, s)
create (suc k) i (some c ∷ answers) s = create k (suc i) answers (record s {
  clocks = s.clocks ++ c ∷ [];
  vclock_index = set s.vclock_index (s.n_vclocks + i) (some c);
})

-- `device_for_each_child_reverse` with `unregister_vclock`, which stops after `k` clocks.
abbrev pub take : ℕ → List ℕ → List ℕ
take zero xs = []
take (suc n) [] = []
take (suc n) (x ∷ xs) = x ∷ take n xs

abbrev pub unregister_last : ℕ → List ℕ → List ℕ
unregister_last k cs = take (length cs - k) cs

-- The loop that clears the last `k` of `n` entries, the last one first.
unfoldable pub clear_last : ℕ → ℕ → List (Option ℕ) → List (Option ℕ)
clear_last zero n xs = xs
clear_last (suc k) n xs = clear_last k (n - 1) (set xs (n - 1) none)

unfoldable pub n_vclocks_store : Bool → ℕ → List (Option ℕ) → Vclocks → Status × Vclocks
n_vclocks_store interrupted num answers s =
    let (created, s') = create (num - s.n_vclocks) 0 answers s in
    if interrupted
    then (err erestartsys, s)
    else if ltb s.max_vclocks num
    then (err einval, s)
    else if ltb s.n_vclocks num
    then (if created then (success, record s' { n_vclocks = num }) else (err einval, s'))
    else if ltb num s.n_vclocks
    then (let k = s.n_vclocks - num in
        (
          success,
          record s {
            clocks = unregister_last k s.clocks;
            vclock_index = clear_last k s.n_vclocks s.vclock_index;
            n_vclocks = num;
          },
        ))
    else (success, s)

-- The first entries of an array, as `memcpy` moves them into one that is cleared.
abbrev pub copy_into : ℕ → List (Option ℕ) → List (Option ℕ) → List (Option ℕ)
copy_into zero from to = to
copy_into (suc n) [] to = to
copy_into (suc n) (x ∷ from) [] = []
copy_into (suc n) (x ∷ from) (y ∷ to) = x ∷ copy_into n from to

unfoldable pub max_vclocks_store : Bool → Bool → ℕ → Vclocks → Status × Vclocks
max_vclocks_store interrupted mem max s =
    if max == 0
    then (err einval, s)
    else if max == s.max_vclocks
    then (success, s)
    else if interrupted
    then (err erestartsys, s)
    else if ltb max s.n_vclocks
    then (err einval, s)
    else if not mem
    then (err enomem, s)
    else (
      success,
      record s {
        vclock_index = copy_into s.n_vclocks s.vclock_index (replicate max (some 0));
        max_vclocks = max;
      },
    )
