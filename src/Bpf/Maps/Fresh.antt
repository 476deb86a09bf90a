-- ===== src/Bpf/Maps/Fresh.antt =====
-- The offloaded maps that `nsim_bpf_map_alloc` of netdevsim/bpf.c gives, and what a history does to them.
use netdevsim_dkms.Base.{
  ℕ, ◌≡◌, refl, ap, ◌∙◌, Bool, true, false, Option, none, some, List, [], ◌∷◌, arith, ok, ◌==◌,
  if◌then◌else◌, Result-cases, inl, inr,
}
use netdevsim_dkms.Bpf.Maps.{
  MapType, array, hash, other, BoundMap, map_alloc, alloc_array, alloc_elem,
}
use netdevsim_dkms.Bpf.Maps.Contents.{contents, are_distinct}
use netdevsim_dkms.Bpf.Maps.Refinement.{Table, table_of, Op, run, table_run, run_refines}

-- What a new map of a type holds.
unfoldable pub fresh_table : MapType → Table
fresh_table array = record {
  at = λ k. if 0 == k then some 0 else if 1 == k then some 0 else none;
  room = 0;
  fixed = true;
}
fresh_table hash = record { at = λ k. none; room = 2; fixed = false }
fresh_table other = record { at = λ k. none; room = 0; fixed = false }

-- The map that `map_alloc` gives.
abbrev fresh_map : MapType → BoundMap
fresh_map array = record { map_type = array; entry = some (0, 0) ∷ some (1, 0) ∷ [] }
fresh_map hash = record { map_type = hash; entry = none ∷ none ∷ [] }
fresh_map other = record { map_type = other; entry = [] }

alloc_array-ok :
    (mem : ℕ → Bool × Bool) (es : List (Option (ℕ × ℕ)))
    → alloc_array mem 0 2 ≡ ok es
    → es ≡ some (0, 0) ∷ some (1, 0) ∷ []
unfolding alloc_array alloc_elem
alloc_array-ok mem es h = ground (arith, h)

map_alloc-fresh :
    (nmap_mem : Bool) (mem : ℕ → Bool × Bool) (t : MapType) (max_entries map_flags : ℕ)
    (m : BoundMap)
    → map_alloc nmap_mem mem t max_entries map_flags ≡ ok m
    → m ≡ fresh_map t
unfolding map_alloc
map_alloc-fresh nmap_mem mem array max_entries map_flags m h =
    elim (Result-cases (alloc_array mem 0 2)) [
      | inl (e, failed) ↦ ground (arith, h, failed)
      | inr (es, done) ↦ ground (arith, h, done, alloc_array-ok mem es done)
    ]
map_alloc-fresh nmap_mem mem hash max_entries map_flags m h = ground (arith, h)
map_alloc-fresh nmap_mem mem other max_entries map_flags m h = ground (arith, h)

fresh-table :
    (t : MapType)
    → (are_distinct (fresh_map t).entry ≡ true) × (table_of (fresh_map t) ≡ fresh_table t)
unfolding table_of fresh_table are_distinct contents
fresh-table array = (refl, refl)
fresh-table hash = (refl, refl)
fresh-table other = (refl, refl)

-- Whatever memory there is, a map that is allocated, an array or a hash table, answers any history of
-- lookups, updates and deletions as a finite map of limited room does. An array starts with the value 0
-- at the keys 0 and 1, takes no further key and gives none up; a hash table starts empty and takes two
-- keys, whatever the number of entries asked for. An update fails with EEXIST or ENOENT as its flags
-- ask, with E2BIG where there is no room for a new key and with ENOMEM where memory is short; a deletion
-- fails with EINVAL on an array and with ENOENT where the key is not there.
pub map_alloc-run :
    (nmap_mem : Bool) (mem : ℕ → Bool × Bool) (t : MapType) (max_entries map_flags : ℕ)
    (m : BoundMap) (ops : List Op)
    → map_alloc nmap_mem mem t max_entries map_flags ≡ ok m
    → run ops m ≡ table_run ops (fresh_table t)
map_alloc-run nmap_mem mem t max_entries map_flags m ops h =
    let new = map_alloc-fresh nmap_mem mem t max_entries map_flags m h in
    let (distinct, fresh) = fresh-table t in
    ap (run ops) new ∙ run_refines ops (fresh_map t) distinct ∙ ap (table_run ops) fresh
