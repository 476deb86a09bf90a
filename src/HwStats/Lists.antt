-- ===== src/HwStats/Lists.antt =====
-- The list of devices of netdevsim/hwstats.c.
use netdevsim_dkms.Base.{
  ℕ, suc, ◌≡◌, refl, Bool, true, false, not, ◌&&◌, ◌||◌, none, some, List, [], ◌∷◌, ◌++◌, arith,
  ◌==◌, length,
}
use netdevsim_dkms.HwStats.{Stats, Hwsdev, find_hwsdev, update_hwsdev, unlink_hwsdev}

-- Whether a device is in the list, and whether each one is there once.
unfoldable pub has_dev : ℕ → List Hwsdev → Bool
has_dev i [] = false
has_dev i (h ∷ hs) = (h.ifindex == i) || has_dev i hs

unfoldable pub are_distinct : List Hwsdev → Bool
are_distinct [] = true
are_distinct (h ∷ hs) = not (has_dev h.ifindex hs) && are_distinct hs

abbrev pub is_zero : Stats → Bool
is_zero t = (t.rx_packets == 0) && (t.tx_packets == 0) && (t.rx_bytes == 0) && (t.tx_bytes == 0)

-- A device that is not enabled has no traffic.
abbrev pub is_quiet : Hwsdev → Bool
is_quiet h = h.enabled || is_zero h.stats

unfoldable pub are_quiet : List Hwsdev → Bool
are_quiet [] = true
are_quiet (h ∷ hs) = is_quiet h && are_quiet hs

pub find_hwsdev-none : (i : ℕ) (hs : List Hwsdev) → find_hwsdev i hs ≡ none → has_dev i hs ≡ false
unfolding find_hwsdev has_dev
find_hwsdev-none i [] e = refl
find_hwsdev-none i (h ∷ hs) e = ground (arith, e, find_hwsdev-none i hs)

pub find_hwsdev-some :
    (i : ℕ) (v : Hwsdev) (hs : List Hwsdev)
    → find_hwsdev i hs ≡ some v
    → (v.ifindex ≡ i) × (has_dev i hs ≡ true)
unfolding find_hwsdev has_dev
find_hwsdev-some i v [] e = ground (arith, e)
find_hwsdev-some i v (h ∷ hs) e = ground (arith, e, find_hwsdev-some i v hs)

pub find_hwsdev-quiet :
    (i : ℕ) (v : Hwsdev) (hs : List Hwsdev)
    → find_hwsdev i hs ≡ some v
    → are_quiet hs ≡ true
    → is_quiet v ≡ true
unfolding find_hwsdev are_quiet
find_hwsdev-quiet i v [] e q = ground (arith, e)
find_hwsdev-quiet i v (h ∷ hs) e q = ground (arith, e, q, find_hwsdev-quiet i v hs)

-- A write that keeps the index.
module _ (i : ℕ) (v : Hwsdev) (same : v.ifindex ≡ i) where
  has_dev-update_hwsdev :
      (j : ℕ) (hs : List Hwsdev) → has_dev j (update_hwsdev i v hs) ≡ has_dev j hs
  unfolding has_dev update_hwsdev
  has_dev-update_hwsdev j [] = refl
  has_dev-update_hwsdev j (h ∷ hs) = ground (arith, same, has_dev-update_hwsdev j hs)

  pub are_distinct-update_hwsdev :
      (hs : List Hwsdev) → are_distinct (update_hwsdev i v hs) ≡ are_distinct hs
  unfolding are_distinct update_hwsdev
  are_distinct-update_hwsdev [] = refl
  are_distinct-update_hwsdev (h ∷ hs) =
      ground (arith, same, are_distinct-update_hwsdev hs, has_dev-update_hwsdev h.ifindex hs)

  pub are_quiet-update_hwsdev :
      (hs : List Hwsdev)
      → is_quiet v ≡ true
      → are_quiet hs ≡ true
      → are_quiet (update_hwsdev i v hs) ≡ true
  unfolding are_quiet update_hwsdev
  are_quiet-update_hwsdev [] q a = refl
  are_quiet-update_hwsdev (h ∷ hs) q a = ground (arith, q, a, are_quiet-update_hwsdev hs)

pub length-update_hwsdev :
    (i : ℕ) (v : Hwsdev) (hs : List Hwsdev) → length (update_hwsdev i v hs) ≡ length hs
unfolding update_hwsdev
length-update_hwsdev i v [] = refl
length-update_hwsdev i v (h ∷ hs) = ground (arith, length-update_hwsdev i v hs)

has_dev-unlink_hwsdev :
    (i j : ℕ) (hs : List Hwsdev) → has_dev j hs ≡ false → has_dev j (unlink_hwsdev i hs) ≡ false
unfolding has_dev unlink_hwsdev
has_dev-unlink_hwsdev i j [] e = refl
has_dev-unlink_hwsdev i j (h ∷ hs) e = ground (arith, e, has_dev-unlink_hwsdev i j hs)

pub are_distinct-unlink_hwsdev :
    (i : ℕ) (hs : List Hwsdev)
    → are_distinct hs ≡ true
    → (are_distinct (unlink_hwsdev i hs) ≡ true) × (has_dev i (unlink_hwsdev i hs) ≡ false)
unfolding are_distinct unlink_hwsdev has_dev
are_distinct-unlink_hwsdev i [] d = ground arith
are_distinct-unlink_hwsdev i (h ∷ hs) d =
    ground (arith, d, are_distinct-unlink_hwsdev i hs, has_dev-unlink_hwsdev i h.ifindex hs)

pub are_quiet-unlink_hwsdev :
    (i : ℕ) (hs : List Hwsdev) → are_quiet hs ≡ true → are_quiet (unlink_hwsdev i hs) ≡ true
unfolding are_quiet unlink_hwsdev
are_quiet-unlink_hwsdev i [] q = refl
are_quiet-unlink_hwsdev i (h ∷ hs) q = ground (arith, q, are_quiet-unlink_hwsdev i hs)

pub length-unlink_hwsdev :
    (i : ℕ) (hs : List Hwsdev) → has_dev i hs ≡ true → length hs ≡ suc (length (unlink_hwsdev i hs))
unfolding unlink_hwsdev has_dev
length-unlink_hwsdev i [] e = ground (arith, e)
length-unlink_hwsdev i (h ∷ hs) e = ground (arith, e, length-unlink_hwsdev i hs)

has_dev-append :
    (j : ℕ) (v : Hwsdev) (hs : List Hwsdev)
    → has_dev j (hs ++ v ∷ []) ≡ has_dev j hs || (v.ifindex == j)
unfolding has_dev
has_dev-append j v [] = ground arith
has_dev-append j v (h ∷ hs) = ground (arith, has_dev-append j v hs)

pub are_distinct-append :
    (v : Hwsdev) (hs : List Hwsdev)
    → has_dev v.ifindex hs ≡ false
    → are_distinct hs ≡ true
    → are_distinct (hs ++ v ∷ []) ≡ true
unfolding are_distinct has_dev
are_distinct-append v [] e d = ground arith
are_distinct-append v (h ∷ hs) e d =
    ground (arith, e, d, are_distinct-append v hs, has_dev-append h.ifindex v hs)

pub are_quiet-append :
    (v : Hwsdev) (hs : List Hwsdev)
    → is_quiet v ≡ true
    → are_quiet hs ≡ true
    → are_quiet (hs ++ v ∷ []) ≡ true
unfolding are_quiet
are_quiet-append v [] q a = ground (arith, q)
are_quiet-append v (h ∷ hs) q a = ground (arith, q, a, are_quiet-append v hs)
