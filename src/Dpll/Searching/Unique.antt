-- ===== src/Dpll/Searching/Unique.antt =====
-- The searches of dpll/dpll_netlink.c against the list of all matches.
use netdevsim_dkms.Base.{
  ℕ, ◌≡◌, refl, Bool, none, some, List, [], ◌∷◌, ◌++◌, arith, einval, enodev, Result, ok, err,
  if◌then◌else◌, ◌≢◌,
}
use netdevsim_dkms.Dpll.Searching.{
  Attr, clock_id_attr, mod_name_attr, type_attr, board_label_attr, panel_label_attr,
  package_label_attr, other_attr, Query, PinInfo, find_from, parse_pin, no_query,
  pin_find_from_nlattr,
}

unfoldable pub matching : {A : Type 0} → (A → Bool) → List A → List A
matching matches [] = []
matching matches (p ∷ ps) = if matches p then p ∷ matching matches ps else matching matches ps

-- The one element of a list.
unfoldable pub the_only : {A : Type 0} → List A → Result A
the_only [] = err enodev
the_only (p ∷ []) = ok p
the_only (p ∷ q ∷ ps) = err einval

find_from-some :
    {A : Type 0} (matches : A → Bool) (m : A) (ps : List A)
    → find_from matches (some m) ps ≡ the_only (m ∷ matching matches ps)
unfolding find_from matching the_only
find_from-some matches m [] = refl
find_from-some matches m (p ∷ ps) = ground (arith, find_from-some matches m ps)

-- A search of the pins or of the devices gives the one that matches where there is just one, and fails
-- with ENODEV where there is none and with EINVAL where there are more.
pub find_from-matching :
    {A : Type 0} (matches : A → Bool) (ps : List A)
    → find_from matches none ps ≡ the_only (matching matches ps)
unfolding find_from matching the_only
find_from-matching matches [] = refl
find_from-matching matches (p ∷ ps) =
    ground (arith, find_from-some matches p ps, find_from-matching matches ps)

-- A second clock id is refused once there is one that is not 0.
parse_again :
    (between after : List Attr) (m : ℕ) (q : Query)
    → q.clock_id ≢ 0
    → parse_pin (between ++ clock_id_attr m ∷ after) q ≡ err einval
unfolding parse_pin
parse_again [] after m q given = ground (arith, given)
parse_again (clock_id_attr n ∷ between) after m q given = ground (arith, given)
parse_again (mod_name_attr n ∷ between) after m q given =
    ground (arith, parse_again between after m (record q { mod_name = some n }) given)
parse_again (type_attr n ∷ between) after m q given =
    ground (arith, parse_again between after m (record q { type = n }) given)
parse_again (board_label_attr n ∷ between) after m q given =
    ground (arith, parse_again between after m (record q { board_label = some n }) given)
parse_again (panel_label_attr n ∷ between) after m q given =
    ground (arith, parse_again between after m (record q { panel_label = some n }) given)
parse_again (package_label_attr n ∷ between) after m q given =
    ground (arith, parse_again between after m (record q { package_label = some n }) given)
parse_again (other_attr ∷ between) after m q given = parse_again between after m q given

parse_pin-repeated :
    (before between after : List Attr) (n m : ℕ) (q : Query)
    → n ≢ 0
    → parse_pin (before ++ clock_id_attr n ∷ between ++ clock_id_attr m ∷ after) q ≡ err einval
unfolding parse_pin
parse_pin-repeated [] between after n m q given =
    ground (arith, parse_again between after m (record q { clock_id = n }) given)
parse_pin-repeated (clock_id_attr k ∷ before) between after n m q given =
    ground (arith, parse_pin-repeated before between after n m (record q { clock_id = k }) given)
parse_pin-repeated (mod_name_attr k ∷ before) between after n m q given =
    ground
      (arith, parse_pin-repeated before between after n m (record q { mod_name = some k }) given)
parse_pin-repeated (type_attr k ∷ before) between after n m q given =
    ground (arith, parse_pin-repeated before between after n m (record q { type = k }) given)
parse_pin-repeated (board_label_attr k ∷ before) between after n m q given =
    ground
      (arith, parse_pin-repeated before between after n m (record q { board_label = some k }) given)
parse_pin-repeated (panel_label_attr k ∷ before) between after n m q given =
    ground
      (arith, parse_pin-repeated before between after n m (record q { panel_label = some k }) given)
parse_pin-repeated (package_label_attr k ∷ before) between after n m q given =
    ground (
      arith,
      parse_pin-repeated before between after n m (record q { package_label = some k }) given,
    )
parse_pin-repeated (other_attr ∷ before) between after n m q given =
    parse_pin-repeated before between after n m q given

-- A request for a pin with two clock ids, of which the first is not 0, is refused with EINVAL, wherever
-- they stand and whatever pins there are.
pub pin_find_from_nlattr-repeated :
    (before between after : List Attr) (n m : ℕ) (pins : List PinInfo)
    → n ≢ 0
    → pin_find_from_nlattr (before ++ clock_id_attr n ∷ between ++ clock_id_attr m ∷ after) pins
      ≡ err einval
unfolding pin_find_from_nlattr
pin_find_from_nlattr-repeated before between after n m pins given =
    ground (arith, parse_pin-repeated before between after n m no_query given)
