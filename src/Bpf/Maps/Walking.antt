-- ===== src/Bpf/Maps/Walking.antt =====
-- The walk over the keys of an offloaded map of netdevsim/bpf.c, from no key to the last one.
use netdevsim_dkms.Base.{
  ℕ, zero, suc, ◌≡◌, ◌≤◌, ◌<◌, refl, sym, ap, ◌∙◌, true, Option, none, some, List, [], ◌∷◌, ◌++◌,
  arith, ok, err, length, length-append, find_index,
}
use netdevsim_dkms.Bpf.Maps.{BoundMap, key_match, key_find, first_key, start_of, get_next_key}
use netdevsim_dkms.Bpf.Maps.Contents.{contents, are_distinct, is_some}

-- The keys that the calls of a client give, each with the one before it, until one fails; `fuel` bounds
-- the number of calls.
unfoldable pub walk : ℕ → Option ℕ → BoundMap → List ℕ
walk zero key m = []
walk (suc fuel) key m = elim (get_next_key key m) [
  | err e ↦ []
  | ok next_key ↦ next_key ∷ walk fuel (some next_key) m
]

unfoldable pub keys : List (Option (ℕ × ℕ)) → List ℕ
keys [] = []
keys (none ∷ es) = keys es
keys (some (k, v) ∷ es) = k ∷ keys es

first_key-append :
    (before es : List (Option (ℕ × ℕ))) → first_key (length before) (before ++ es) ≡ first_key 0 es
unfolding first_key
first_key-append [] es = refl
first_key-append (x ∷ before) es = first_key-append before es

contents-append :
    (before es : List (Option (ℕ × ℕ))) (k v : ℕ)
    → is_some (contents (before ++ some (k, v) ∷ es) k) ≡ true
unfolding contents
contents-append [] es k v = ground arith
contents-append (none ∷ before) es k v = contents-append before es k v
contents-append (some (key, w) ∷ before) es k v = ground (arith, contents-append before es k v)

find_index-append :
    (before es : List (Option (ℕ × ℕ))) (k v : ℕ)
    → are_distinct (before ++ some (k, v) ∷ es) ≡ true
    → find_index (λ e. key_match e k) (before ++ some (k, v) ∷ es) ≡ some (length before)
unfolding are_distinct
find_index-append [] es k v d = ground arith
find_index-append (none ∷ before) es k v d = ground (arith, find_index-append before es k v d)
find_index-append (some (key, w) ∷ before) es k v d =
    let there = contents-append before es k v in
    ground (
      arith,
      d,
      there,
      find_index-append before es k v,
      ap (λ q. contents (before ++ some (k, v) ∷ es) q),
    )

append_assoc :
    (before es : List (Option (ℕ × ℕ))) (x : Option (ℕ × ℕ))
    → (before ++ x ∷ []) ++ es ≡ before ++ x ∷ es
append_assoc [] es x = refl
append_assoc (y ∷ before) es x = ap (λ l. y ∷ l) (append_assoc before es x)

start-found :
    (k i : ℕ) (m : BoundMap)
    → find_index (λ e. key_match e k) m.entry ≡ some i
    → start_of (some k) m ≡ suc i
unfolding key_find
start-found k i m found = ground (arith, found)

suc-length :
    (before : List (Option (ℕ × ℕ))) (x : Option (ℕ × ℕ))
    → suc (length before) ≡ length (before ++ x ∷ [])
suc-length before x = sym (length-append before (x ∷ []) ∙ omega arith)

-- The walk from a key whose search ends at the entries `before` the rest.
walk-rest :
    (fuel : ℕ) (key : Option ℕ) (before es : List (Option (ℕ × ℕ))) (m : BoundMap)
    → m.entry ≡ before ++ es
    → are_distinct m.entry ≡ true
    → first_key (start_of key m) m.entry ≡ first_key 0 es
    → suc (length es) ≤ fuel
    → walk fuel key m ≡ keys es
unfolding walk keys get_next_key first_key key_find
walk-rest zero key before es m at d start enough = absurd (omega (arith, enough))
walk-rest (suc fuel) key before [] m at d start enough = ground (arith, start)
walk-rest (suc fuel) key before (none ∷ es) m at d start enough =
    let before' : List (Option (ℕ × ℕ)) = before ++ none ∷ [] in
    let at' = at ∙ sym (append_assoc before es none) in
    walk-rest (suc fuel) key before' es m at' d start (omega (arith, enough))
walk-rest (suc fuel) key before (some (k, v) ∷ es) m at d start enough =
    let before' : List (Option (ℕ × ℕ)) = before ++ some (k, v) ∷ [] in
    let at' = at ∙ sym (append_assoc before es (some (k, v))) in
    let found =
      ap (find_index (λ e. key_match e k)) at
      ∙ find_index-append before es k v (sym (ap are_distinct at) ∙ d) in
    let from =
      ap (λ i. first_key i m.entry) (start-found k (length before) m found)
      ∙ ap (λ i. first_key i m.entry) (suc-length before (some (k, v)))
      ∙ ap (first_key (length before')) at'
      ∙ first_key-append before' es in
    let rest = walk-rest fuel (some k) before' es m at' d from (omega (arith, enough)) in
    ground (arith, start, rest)

-- A walk from no key over a map of distinct keys, with more calls allowed than the map has entries,
-- gives each key once, in the order of the entries, and stops: what more is allowed is not used.
pub walk-keys :
    (fuel : ℕ) (m : BoundMap)
    → are_distinct m.entry ≡ true
    → length m.entry < fuel
    → walk fuel none m ≡ keys m.entry
walk-keys fuel m d enough = walk-rest fuel none [] m.entry m refl d refl (omega (arith, enough))
