-- ===== src/Bpf/Maps/Contents.antt =====
-- An offloaded map as a function from keys to values.
use netdevsim_dkms.Base.{
  ℕ, zero, suc, ◌≡◌, refl, ap, Bool, true, false, not, ◌&&◌, Option, none, some, List, [], ◌∷◌,
  arith, ◌==◌, if◌then◌else◌, get_or, set, find_index,
}
use netdevsim_dkms.Bpf.Maps.{key_match, is_free, value_of}

-- The value of the first entry with a key, and whether no key stands twice.
unfoldable pub contents : List (Option (ℕ × ℕ)) → ℕ → Option ℕ
contents [] k = none
contents (none ∷ es) k = contents es k
contents (some (key, v) ∷ es) k = if key == k then some v else contents es k

abbrev pub is_some : Option ℕ → Bool
is_some none = false
is_some (some v) = true

unfoldable pub are_distinct : List (Option (ℕ × ℕ)) → Bool
are_distinct [] = true
are_distinct (none ∷ es) = are_distinct es
are_distinct (some (key, v) ∷ es) = not (is_some (contents es key)) && are_distinct es

-- A function, changed at one key.
abbrev pub changed : (ℕ → Option ℕ) → ℕ → Option ℕ → ℕ → Option ℕ
changed f k v q = if k == q then v else f q

pub key_find-none :
    (k : ℕ) (es : List (Option (ℕ × ℕ)))
    → find_index (λ e. key_match e k) es ≡ none
    → contents es k ≡ none
unfolding contents
key_find-none k [] h = refl
key_find-none k (none ∷ es) h = ground (arith, h, key_find-none k es)
key_find-none k (some (key, v) ∷ es) h = ground (arith, h, key_find-none k es)

-- What is found lies in the list, and a write there changes one key.
pub record IsFound (j k : ℕ) (es : List (Option (ℕ × ℕ))) : Type 0 where
  pub value : contents es k ≡ some (value_of (get_or es j none))
  pub written : (v q : ℕ) → contents (set es j (some (k, v))) q ≡ changed (contents es) k (some v) q

pub key_find-some :
    (j k : ℕ) (es : List (Option (ℕ × ℕ)))
    → find_index (λ e. key_match e k) es ≡ some j
    → IsFound j k es
unfolding contents
key_find-some j k [] h = ground (arith, h)
key_find-some zero k (none ∷ es) h = ground (arith, h)
key_find-some (suc j) k (none ∷ es) h =
    let f = key_find-some j k es (ground (arith, h)) in
    record { value = f.value; written = f.written }
key_find-some zero k (some (key, w) ∷ es) h = record {
  value = ground (arith, h);
  written = λ v q. ground (arith, h);
}
key_find-some (suc j) k (some (key, w) ∷ es) h =
    let f = key_find-some j k es (ground (arith, h)) in
    record { value = ground (arith, h, f.value); written = λ v q. ground (arith, h, f.written v q) }

pub distinct-found :
    (j k v : ℕ) (es : List (Option (ℕ × ℕ)))
    → find_index (λ e. key_match e k) es ≡ some j
    → are_distinct (set es j (some (k, v))) ≡ are_distinct es
unfolding are_distinct contents
distinct-found j k v [] h = ground (arith, h)
distinct-found zero k v (none ∷ es) h = ground (arith, h)
distinct-found (suc j) k v (none ∷ es) h = distinct-found j k v es (ground (arith, h))
distinct-found zero k v (some (key, w) ∷ es) h = ground (arith, h)
distinct-found (suc j) k v (some (key, w) ∷ es) h =
    let e : find_index (λ x. key_match x k) es ≡ some j = ground (arith, h) in
    let f = key_find-some j k es e in
    ground (arith, h, f.written v key, f.value, distinct-found j k v es e)

-- A key that is not there is written to a free entry.
pub record IsAdded (j k v : ℕ) (es : List (Option (ℕ × ℕ))) : Type 0 where
  pub written : (q : ℕ) → contents (set es j (some (k, v))) q ≡ changed (contents es) k (some v) q
  pub distinct : are_distinct (set es j (some (k, v))) ≡ are_distinct es

pub free-IsAdded :
    (j k v : ℕ) (es : List (Option (ℕ × ℕ)))
    → find_index is_free es ≡ some j
    → contents es k ≡ none
    → IsAdded j k v es
unfolding contents are_distinct
free-IsAdded j k v [] h absent = ground (arith, h)
free-IsAdded zero k v (none ∷ es) h absent = record {
  written = λ q. refl;
  distinct = ground (arith, absent);
}
free-IsAdded (suc j) k v (none ∷ es) h absent = ground (arith, h)
free-IsAdded zero k v (some (key, w) ∷ es) h absent = ground (arith, h)
free-IsAdded (suc j) k v (some (key, w) ∷ es) h absent =
    let e : find_index is_free es ≡ some j = ground (arith, h) in
    let a = free-IsAdded j k v es e (ground (arith, absent)) in
    record {
      written = λ q. ground (arith, absent, a.written q);
      distinct = ground (arith, absent, a.written key, a.distinct);
    }

-- The entry of a key is cleared.
pub record IsCleared (j k : ℕ) (es : List (Option (ℕ × ℕ))) : Type 0 where
  pub written : (q : ℕ) → contents (set es j none) q ≡ changed (contents es) k none q
  pub distinct : are_distinct (set es j none) ≡ true

pub found-IsCleared :
    (j k : ℕ) (es : List (Option (ℕ × ℕ)))
    → find_index (λ e. key_match e k) es ≡ some j
    → are_distinct es ≡ true
    → IsCleared j k es
unfolding contents are_distinct
found-IsCleared j k [] h d = ground (arith, h)
found-IsCleared zero k (none ∷ es) h d = ground (arith, h)
found-IsCleared (suc j) k (none ∷ es) h d =
    let c = found-IsCleared j k es (ground (arith, h)) d in
    record { written = c.written; distinct = c.distinct }
found-IsCleared zero k (some (key, w) ∷ es) h d = record {
  written = λ q. ground (arith, h, d, ap (contents es));
  distinct = ground (arith, d);
}
found-IsCleared (suc j) k (some (key, w) ∷ es) h d =
    let e : find_index (λ x. key_match x k) es ≡ some j = ground (arith, h) in
    let c = found-IsCleared j k es e (ground (arith, d)) in
    record {
      written = λ q. ground (arith, h, c.written q);
      distinct = ground (arith, h, d, c.written key, c.distinct);
    }
