-- ===== src/Bpf/Maps.antt =====
-- The offloaded BPF maps of netdevsim/bpf.c. A key and a value, which are bytes of the map's sizes, are
-- numbers; an entry without a key is `none`. What the allocators answer is an argument.
pub mod Contents
pub mod Refinement
pub mod Fresh
pub mod Walking
mod Examples
use netdevsim_dkms.Base.{
  ℕ, zero, suc, ◌+◌, Bool, true, false, not, ◌&&◌, Option, none, some, List, [], ◌∷◌, enoent,
  enomem, eexist, e2big, einval, Result, ok, err, Status, success, ◌==◌, ltb, if◌then◌else◌, get_or,
  set, find_index,
}

pub data MapType : Type 0 where
  array hash other : MapType

-- `struct nsim_bpf_bound_map`, with the type of its map.
pub record BoundMap : Type 0 where
  pub map_type : MapType
  pub entry : List (Option (ℕ × ℕ))

abbrev pub key_match : Option (ℕ × ℕ) → ℕ → Bool
key_match none k = false
key_match (some (key, v)) k = key == k

unfoldable pub key_find : ℕ → BoundMap → Option ℕ
key_find k m = find_index (λ e. key_match e k) m.entry

-- The first entry from the `i`-th on that has a key.
unfoldable pub first_key : ℕ → List (Option (ℕ × ℕ)) → Option ℕ
first_key i [] = none
first_key (suc i) (e ∷ es) = first_key i es
first_key zero (none ∷ es) = first_key zero es
first_key zero (some (key, v) ∷ es) = some key

-- Where the search for the next key starts.
abbrev pub start_of : Option ℕ → BoundMap → ℕ
start_of none m = 0
start_of (some k) m = elim (key_find k m) [ none ↦ 0 | some i ↦ suc i ]

unfoldable pub get_next_key : Option ℕ → BoundMap → Result ℕ
get_next_key key m = elim (first_key (start_of key m) m.entry) [
  | none ↦ err enoent
  | some next_key ↦ ok next_key
]

abbrev pub value_of : Option (ℕ × ℕ) → ℕ
value_of none = 0
value_of (some (k, v)) = v

unfoldable pub lookup_elem : ℕ → BoundMap → Result ℕ
lookup_elem k m = elim (key_find k m) [
  | none ↦ err enoent
  | some i ↦ ok (value_of (get_or m.entry i none))
]

abbrev pub is_free : Option (ℕ × ℕ) → Bool
is_free none = true
is_free (some e) = false

-- `nsim_map_alloc_elem`, where the two flags say whether the key and the value are allocated.
unfoldable pub alloc_elem : Bool → Bool → Status
alloc_elem key_mem value_mem =
    if not key_mem then err enomem else if not value_mem then err enomem else success

-- BPF_ANY, BPF_NOEXIST, BPF_EXIST, or another number.
pub data Flags : Type 0 where
  any no_exist exist other_flags : Flags

abbrev pub is_exist : Flags → Bool
is_exist exist = true
is_exist any = false
is_exist no_exist = false
is_exist other_flags = false

abbrev pub is_no_exist : Flags → Bool
is_no_exist no_exist = true
is_no_exist any = false
is_no_exist exist = false
is_no_exist other_flags = false

unfoldable pub update_elem : Bool → Bool → ℕ → ℕ → Flags → BoundMap → Status × BoundMap
update_elem key_mem value_mem k v flags m = elim (key_find k m) [
  | some i ↦
      if is_no_exist flags
      then (err eexist, m)
      else (success, record m { entry = set m.entry i (some (k, v)) })
  | none ↦ if is_exist flags then (err enoent, m) else elim (find_index is_free m.entry) [
    | none ↦ (err e2big, m)
    | some i ↦ elim (alloc_elem key_mem value_mem) [
      | err e ↦ (err e, m)
      | ok u ↦ (success, record m { entry = set m.entry i (some (k, v)) })
    ]
  ]
]

abbrev pub is_array : MapType → Bool
is_array array = true
is_array hash = false
is_array other = false

unfoldable pub delete_elem : ℕ → BoundMap → Status × BoundMap
delete_elem k m = if is_array m.map_type then (err einval, m) else elim (key_find k m) [
  | none ↦ (err enoent, m)
  | some i ↦ (success, record m { entry = set m.entry i none })
]

-- The loop of `nsim_bpf_map_alloc` over the `n` entries of an array that are left; `mem` says whether
-- the key and the value of an entry are allocated.
unfoldable pub alloc_array : (ℕ → Bool × Bool) → ℕ → ℕ → Result (List (Option (ℕ × ℕ)))
alloc_array mem i zero = ok []
alloc_array mem i (suc n) =
    let rest = alloc_array mem (suc i) n in
    elim (alloc_elem (mem i).0 (mem i).1) [
      | err e ↦ err e
      | ok u ↦ elim rest [ err e ↦ err e | ok es ↦ ok (some (i, 0) ∷ es) ]
    ]

unfoldable pub map_alloc : Bool → (ℕ → Bool × Bool) → MapType → ℕ → ℕ → Result BoundMap
map_alloc nmap_mem mem other max_entries map_flags = err einval
map_alloc nmap_mem mem array max_entries map_flags =
    if ltb 2 max_entries
    then err enomem
    else if not (map_flags == 0)
    then err einval
    else if not nmap_mem
    then err enomem
    else elim (alloc_array mem 0 2) [
      | err e ↦ err e
      | ok es ↦ ok (record { map_type = array; entry = es })
    ]
map_alloc nmap_mem mem hash max_entries map_flags =
    if ltb 2 max_entries
    then err enomem
    else if not (map_flags == 0)
    then err einval
    else if not nmap_mem
    then err enomem
    else ok (record { map_type = hash; entry = none ∷ none ∷ [] })
