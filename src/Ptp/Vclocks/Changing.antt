-- ===== src/Ptp/Vclocks/Changing.antt =====
-- What a change of the number of virtual clocks in ptp/ptp_sysfs.c does.
use netdevsim_dkms.Base.{
  ℕ, zero, suc, ◌+◌, ◌-◌, ◌≡◌, ◌≤◌, ◌<◌, refl, ap, ◌∙◌, Bool, true, false, Option, none, some, List,
  [], ◌∷◌, ◌++◌, arith, einval, err, success, length, length-append, set,
}
use netdevsim_dkms.Ptp.Vclocks.{Vclocks, create, take, n_vclocks_store}

-- The answers of registrations that succeed.
abbrev pub all_made : List ℕ → List (Option ℕ)
all_made [] = []
all_made (c ∷ cs) = some c ∷ all_made cs

append_assoc : (xs : List ℕ) (y : ℕ) (zs : List ℕ) → (xs ++ y ∷ []) ++ zs ≡ xs ++ y ∷ zs
append_assoc [] y zs = refl
append_assoc (x ∷ xs) y zs = ap (λ t. x ∷ t) (append_assoc xs y zs)

-- What the creation of clocks leaves.
record IsGrown (made : Bool) (cs : List ℕ) (r : Bool × Vclocks) (s : Vclocks) : Type 0 where
  answer : r.0 ≡ made
  clocks : r.1.clocks ≡ s.clocks ++ cs
  count : r.1.n_vclocks ≡ s.n_vclocks
  max : r.1.max_vclocks ≡ s.max_vclocks

append_none : (xs : List ℕ) → xs ++ [] ≡ xs
append_none [] = refl
append_none (x ∷ xs) = ap (λ t. x ∷ t) (append_none xs)

create-failed :
    (k i : ℕ) (cs : List ℕ) (rest : List (Option ℕ)) (s : Vclocks)
    → length cs < k
    → IsGrown false cs (create k i (all_made cs ++ none ∷ rest) s) s
unfolding create
create-failed zero i cs rest s few = absurd (omega (arith, few))
create-failed (suc k) i [] rest s few = ground (arith, append_none s.clocks)
create-failed (suc k) i (c ∷ cs) rest s few =
    let s1 : Vclocks = record s {
      clocks = s.clocks ++ c ∷ [];
      vclock_index = set s.vclock_index (s.n_vclocks + i) (some c);
    } in
    let g = create-failed k (suc i) cs rest s1 (omega (arith, few)) in
    record {
      answer = g.answer;
      clocks = g.clocks ∙ append_assoc s.clocks c cs;
      count = g.count;
      max = g.max;
    }

create-made :
    (i : ℕ) (cs : List ℕ) (rest : List (Option ℕ)) (s : Vclocks)
    → IsGrown true cs (create (length cs) i (all_made cs ++ rest) s) s
unfolding create
create-made i [] rest s = ground (arith, append_none s.clocks)
create-made i (c ∷ cs) rest s =
    let s1 : Vclocks = record s {
      clocks = s.clocks ++ c ∷ [];
      vclock_index = set s.vclock_index (s.n_vclocks + i) (some c);
    } in
    let g = create-made (suc i) cs rest s1 in
    record {
      answer = g.answer;
      clocks = g.clocks ∙ append_assoc s.clocks c cs;
      count = g.count;
      max = g.max;
    }

-- When some of the new virtual clocks are made and then one cannot be, the write fails with EINVAL, the
-- number of clocks stays what it was, and the clocks that were made are left.
pub n_vclocks_store-failed :
    (num : ℕ) (cs : List ℕ) (rest : List (Option ℕ)) (s : Vclocks)
    → num ≤ s.max_vclocks
    → s.n_vclocks + length cs < num
    → let (answer, s') = n_vclocks_store false num (all_made cs ++ none ∷ rest) s in
      (answer ≡ err einval) × (s'.n_vclocks ≡ s.n_vclocks) × (s'.clocks ≡ s.clocks ++ cs)
unfolding n_vclocks_store
n_vclocks_store-failed num cs rest s fits few =
    let g = create-failed (num - s.n_vclocks) 0 cs rest s (omega (arith, few)) in
    ground (arith, fits, few, g)

take-append : (xs ys : List ℕ) → take (length xs) (xs ++ ys) ≡ xs
take-append [] [] = refl
take-append [] (y ∷ ys) = refl
take-append (x ∷ xs) ys = ap (λ t. x ∷ t) (take-append xs ys)

raised :
    (cs : List ℕ) (rest : List (Option ℕ)) (s : Vclocks)
    → 0 < length cs
    → s.n_vclocks + length cs ≤ s.max_vclocks
    → let (up, s1) = n_vclocks_store false (s.n_vclocks + length cs) (all_made cs ++ rest) s in
      (up ≡ success)
      × (s1.clocks ≡ s.clocks ++ cs)
      × (s1.n_vclocks ≡ s.n_vclocks + length cs)
      × (s1.max_vclocks ≡ s.max_vclocks)
unfolding n_vclocks_store
raised cs rest s some_more fits =
    let exact : s.n_vclocks + length cs - s.n_vclocks ≡ length cs = omega arith in
    let g = create-made 0 cs rest s in ground (arith, some_more, fits, exact, g)

lowered :
    (n : ℕ) (cs base : List ℕ) (more : List (Option ℕ)) (s : Vclocks)
    → 0 < length cs
    → s.n_vclocks ≡ n + length cs
    → s.clocks ≡ base ++ cs
    → s.n_vclocks ≤ s.max_vclocks
    → let (down, s2) = n_vclocks_store false n more s in
      (down ≡ success) × (s2.clocks ≡ base) × (s2.n_vclocks ≡ n)
unfolding n_vclocks_store
lowered n cs base more s some_more count clocks fits =
    let size = ap length clocks ∙ length-append base cs in
    let left : length s.clocks - (s.n_vclocks - n) ≡ length base = omega (arith, size, count) in
    let kept =
      ap (λ k. take k s.clocks) left
      ∙ ap (λ l. take (length base) l) clocks
      ∙ take-append base cs in
    ground (arith, some_more, count, fits, kept)

-- Raising the number of virtual clocks and lowering it again takes away the clocks that were made and
-- no others.
pub n_vclocks_store-back :
    (cs : List ℕ) (rest more : List (Option ℕ)) (s : Vclocks)
    → 0 < length cs
    → s.n_vclocks + length cs ≤ s.max_vclocks
    → let n = s.n_vclocks in
      let (up, s1) = n_vclocks_store false (n + length cs) (all_made cs ++ rest) s in
      let (down, s2) = n_vclocks_store false n more s1 in
      (up ≡ success)
      × (s1.clocks ≡ s.clocks ++ cs)
      × (s1.n_vclocks ≡ n + length cs)
      × (down ≡ success)
      × (s2.clocks ≡ s.clocks)
      × (s2.n_vclocks ≡ n)
n_vclocks_store-back cs rest more s some_more fits =
    let s1 : Vclocks =
      (n_vclocks_store false (s.n_vclocks + length cs) (all_made cs ++ rest) s).1 in
    let (up, clocks, count, max) = raised cs rest s some_more fits in
    let (down, same, back) =
      lowered s.n_vclocks cs s.clocks more s1 some_more count clocks
        (omega (arith, count, max, fits)) in
    (up, clocks, count, down, same, back)
