-- ===== src/Bpf/Maps/Examples.antt =====
-- Runs of the offloaded maps of netdevsim/bpf.c on concrete inputs.
use netdevsim_dkms.Base.{
  ℕ, ◌≡◌, refl, Bool, true, none, some, List, [], ◌∷◌, eexist, enoent, e2big, ok, err, arith,
}
use netdevsim_dkms.Bpf.Maps.{
  BoundMap, update_elem, delete_elem, lookup_elem, key_find, hash, any, no_exist, alloc_elem,
  map_alloc,
}
use netdevsim_dkms.Bpf.Maps.Contents.{contents, are_distinct}
use netdevsim_dkms.Bpf.Maps.Refinement.{
  step, Op, lookup, update, delete, looked_up, written, run, table_run,
}
use netdevsim_dkms.Bpf.Maps.Fresh.{fresh_table, map_alloc-run}
use netdevsim_dkms.Bpf.Maps.Walking.{walk, keys, walk-keys}

abbrev memory : ℕ → Bool × Bool
memory i = (true, true)

abbrev small_hash : BoundMap
small_hash = record { map_type = hash; entry = none ∷ none ∷ [] }

abbrev history : List Op
history =
    update true true 7 70 any
    ∷ update true true 7 71 no_exist
    ∷ update true true 8 80 any
    ∷ update true true 9 90 any
    ∷ delete 7
    ∷ lookup 7
    ∷ lookup 8
    ∷ []

allocated : map_alloc true memory hash 1 0 ≡ ok small_hash
unfolding map_alloc
allocated = refl

map_alloc-run_example : run history small_hash ≡ table_run history (fresh_table hash)
map_alloc-run_example = map_alloc-run true memory hash 1 0 small_hash history allocated

history_answers :
    run history small_hash
    ≡ written (ok tt)
      ∷ written (err eexist)
      ∷ written (ok tt)
      ∷ written (err e2big)
      ∷ written (ok tt)
      ∷ looked_up (err enoent)
      ∷ looked_up (ok 80)
      ∷ []
unfolding run step update_elem delete_elem lookup_elem key_find alloc_elem
history_answers = refl

abbrev half_full : BoundMap
half_full = record { map_type = hash; entry = none ∷ some (8, 80) ∷ some (3, 4) ∷ [] }

distinct_half_full : are_distinct half_full.entry ≡ true
unfolding are_distinct contents
distinct_half_full = refl

walk-keys_example : walk 9 none half_full ≡ keys half_full.entry
walk-keys_example = walk-keys 9 half_full distinct_half_full (omega arith)

keys_half_full : keys half_full.entry ≡ 8 ∷ 3 ∷ []
unfolding keys
keys_half_full = refl
