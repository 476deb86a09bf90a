-- ===== src/Bpf/Maps/Refinement.antt =====
-- The offloaded maps of netdevsim/bpf.c as tables of limited room: what each operation does to the table.
use netdevsim_dkms.Base.{
  ℕ, ◌+◌, ◌-◌, ◌≡◌, ◌<◌, refl, ap, ◌∙◌, fun_ext, Bool, true, false, not, ◌&&◌, Option, none, some,
  List, [], ◌∷◌, arith, enoent, enomem, eexist, e2big, einval, Result, ok, err, Status, success,
  ◌==◌, if◌then◌else◌, get_or, set, find_index, find_index-passes, count, count-set, count-none,
  count-pos, Option-cases, inl, inr,
}
use netdevsim_dkms.Bpf.Maps.{
  is_array, BoundMap, key_match, key_find, lookup_elem, is_free, alloc_elem, Flags, is_exist,
  is_no_exist, update_elem, delete_elem,
}
use netdevsim_dkms.Bpf.Maps.Contents.{
  contents, are_distinct, changed, key_find-none, key_find-some, distinct-found, free-IsAdded,
  found-IsCleared,
}

-- A finite map, how many keys it has room for, and whether its keys cannot be deleted.
pub record Table : Type 0 where
  pub at : ℕ → Option ℕ
  pub room : ℕ
  pub fixed : Bool

unfoldable pub table_of : BoundMap → Table
table_of m = record {
  at = contents m.entry;
  room = count is_free m.entry;
  fixed = is_array m.map_type;
}

pub data Op : Type 0 where
  lookup : ℕ → Op
  update : Bool → Bool → ℕ → ℕ → Flags → Op
  delete : ℕ → Op

pub data Answer : Type 0 where
  looked_up : Result ℕ → Answer
  written : Status → Answer

unfoldable pub step : Op → BoundMap → Answer × BoundMap
step (lookup k) m = (looked_up (lookup_elem k m), m)
step (update key_mem value_mem k v flags) m =
    let (r, m') = update_elem key_mem value_mem k v flags m in (written r, m')
step (delete k) m = let (r, m') = delete_elem k m in (written r, m')

abbrev pub update_table : Bool → Bool → ℕ → ℕ → Flags → Table → Status × Table
update_table key_mem value_mem k v flags t = elim (t.at k) [
  | some w ↦
      if is_no_exist flags
      then (err eexist, t)
      else (success, record t { at = changed t.at k (some v) })
  | none ↦
      if is_exist flags
      then (err enoent, t)
      else if t.room == 0
      then (err e2big, t)
      else if not (key_mem && value_mem)
      then (err enomem, t)
      else (success, record t { at = changed t.at k (some v); room = t.room - 1 })
]

abbrev pub delete_table : ℕ → Table → Status × Table
delete_table k t = if t.fixed then (err einval, t) else elim (t.at k) [
  | none ↦ (err enoent, t)
  | some w ↦ (success, record t { at = changed t.at k none; room = t.room + 1 })
]

unfoldable pub table_step : Op → Table → Answer × Table
table_step (lookup k) t = (looked_up (elim (t.at k) [ none ↦ err enoent | some v ↦ ok v ]), t)
table_step (update key_mem value_mem k v flags) t =
    let (r, t') = update_table key_mem value_mem k v flags t in (written r, t')
table_step (delete k) t = let (r, t') = delete_table k t in (written r, t')

same_table :
    (f g : ℕ → Option ℕ) (n o : ℕ) (b : Bool)
    → f ≡ g
    → n ≡ o
    → ◌≡◌ {A = Table}
        (record { at = f; room = n; fixed = b })
        (record { at = g; room = o; fixed = b })
same_table f g n o b e h =
    ap (λ x. record { at = x; room = n; fixed = b }) e
    ∙ ap (λ x. record { at = g; room = x; fixed = b }) h

key_match-is_free : (e : Option (ℕ × ℕ)) (k : ℕ) → key_match e k ≡ true → is_free e ≡ false
key_match-is_free none k h = ground (arith, h)
key_match-is_free (some (key, v)) k h = refl

-- What a write to the entry of a key, to a free entry, and the removal of a key do to the room.
found-room :
    (j k : ℕ) (v : Option (ℕ × ℕ)) (es : List (Option (ℕ × ℕ)))
    → find_index (λ e. key_match e k) es ≡ some j
    → (count is_free (set es j v) ≡ count is_free es + count is_free (v ∷ []))
found-room j k v es h =
    let (lt, key) = find_index-passes (λ e. key_match e k) none es j h in
    let full = key_match-is_free (get_or es j none) k key in
    ground (arith, full, count-set is_free none es j v lt)

free-room :
    (j k v : ℕ) (es : List (Option (ℕ × ℕ)))
    → find_index is_free es ≡ some j
    → (count is_free (set es j (some (k, v))) ≡ count is_free es - 1) × (0 < count is_free es)
free-room j k v es h =
    let (lt, free) = find_index-passes is_free none es j h in
    (
      ground (arith, free, count-set is_free none es j (some (k, v)) lt),
      count-pos is_free none es j lt free,
    )

pub IsRefined : Answer × BoundMap → Answer × Table → Type 0
IsRefined r t = (are_distinct r.1.entry ≡ true) × (r.0 ≡ t.0) × (table_of r.1 ≡ t.1)

lookup-IsRefined :
    (k : ℕ) (m : BoundMap)
    → are_distinct m.entry ≡ true
    → IsRefined (step (lookup k) m) (table_step (lookup k) (table_of m))
unfolding IsRefined step table_step table_of lookup_elem key_find
lookup-IsRefined k m d = elim (Option-cases (find_index (λ e. key_match e k) m.entry)) [
  | inl e ↦ (d, ground (arith, e, key_find-none k m.entry e), refl)
  | inr (j, e) ↦ let f = key_find-some j k m.entry e in (d, ground (arith, e, f.value), refl)
]

update-IsRefined :
    (key_mem value_mem : Bool) (k v : ℕ) (flags : Flags) (m : BoundMap)
    → are_distinct m.entry ≡ true
    → IsRefined
        (step (update key_mem value_mem k v flags) m)
        (table_step (update key_mem value_mem k v flags) (table_of m))
unfolding IsRefined step table_step table_of update_elem key_find alloc_elem
update-IsRefined key_mem value_mem k v flags m d =
    let es : List (Option (ℕ × ℕ)) = m.entry in
    let b : Bool = is_array m.map_type in
    elim (Option-cases (find_index (λ e. key_match e k) es)) [
      | inr (j, e) ↦
          let f = key_find-some j k es e in
          let es' : List (Option (ℕ × ℕ)) = set es j (some (k, v)) in
          let same = distinct-found j k v es e in
          let room = found-room j k (some (k, v)) es e in
          let eq =
            same_table (contents es') (changed (contents es) k (some v)) (count is_free es')
              (count is_free es) b (fun_ext (f.written v)) (omega (arith, room)) in
          ground (arith, e, f.value, d, same, eq)
      | inl e ↦
          let absent = key_find-none k es e in
          elim (Option-cases (find_index is_free es)) [
            | inl full ↦ ground (arith, e, absent, full, d, count-none is_free es full)
            | inr (j, free) ↦
                let a = free-IsAdded j k v es free absent in
                let es' : List (Option (ℕ × ℕ)) = set es j (some (k, v)) in
                let (less, some_room) = free-room j k v es free in
                let eq =
                  same_table (contents es') (changed (contents es) k (some v)) (count is_free es')
                    (count is_free es - 1) b (fun_ext a.written) less in
                ground (arith, e, absent, free, d, a.distinct, eq, some_room)
          ]
    ]

delete-IsRefined :
    (k : ℕ) (m : BoundMap)
    → are_distinct m.entry ≡ true
    → IsRefined (step (delete k) m) (table_step (delete k) (table_of m))
unfolding IsRefined step table_step table_of delete_elem key_find
delete-IsRefined k m d =
    let es : List (Option (ℕ × ℕ)) = m.entry in
    let b : Bool = is_array m.map_type in
    elim (Option-cases (find_index (λ e. key_match e k) es)) [
      | inl e ↦ ground (arith, e, d, key_find-none k es e)
      | inr (j, e) ↦
          let f = key_find-some j k es e in
          let c = found-IsCleared j k es e d in
          let es' : List (Option (ℕ × ℕ)) = set es j none in
          let room = found-room j k none es e in
          let eq =
            same_table (contents es') (changed (contents es) k none) (count is_free es')
              (count is_free es + 1) b (fun_ext c.written) (omega (arith, room)) in
          ground (arith, e, f.value, d, c.distinct, eq)
    ]

step-IsRefined :
    (op : Op) (m : BoundMap)
    → are_distinct m.entry ≡ true
    → IsRefined (step op m) (table_step op (table_of m))
step-IsRefined (lookup k) m d = lookup-IsRefined k m d
step-IsRefined (update key_mem value_mem k v flags) m d =
    update-IsRefined key_mem value_mem k v flags m d
step-IsRefined (delete k) m d = delete-IsRefined k m d

-- The answers to a history of operations.
unfoldable pub run : List Op → BoundMap → List Answer
run [] m = []
run (op ∷ ops) m = let (answer, m') = step op m in answer ∷ run ops m'

unfoldable pub table_run : List Op → Table → List Answer
table_run [] t = []
table_run (op ∷ ops) t = let (answer, t') = table_step op t in answer ∷ table_run ops t'

-- A map of distinct keys answers a history as its table does.
pub run_refines :
    (ops : List Op) (m : BoundMap)
    → are_distinct m.entry ≡ true
    → run ops m ≡ table_run ops (table_of m)
unfolding run table_run IsRefined
run_refines [] m d = refl
run_refines (op ∷ ops) m d =
    let (d', answer, eq) = step-IsRefined op m d in
    let rest = run_refines ops (step op m).1 d' in
    ap (λ a. a ∷ run ops (step op m).1) answer
    ∙ ap (λ more. (table_step op (table_of m)).0 ∷ more) (rest ∙ ap (table_run ops) eq)
