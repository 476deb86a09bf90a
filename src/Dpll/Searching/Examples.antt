-- ===== src/Dpll/Searching/Examples.antt =====
-- Runs of the searches of dpll/dpll_netlink.c on concrete inputs.
use netdevsim_dkms.Base.{◌≡◌, refl, true, none, some, [], ◌∷◌, ◌++◌, arith, einval, ok, err}
use netdevsim_dkms.Dpll.Searching.{
  PinInfo, Query, no_query, pin_matches, find_from, clock_id_attr, type_attr, pin_find_from_nlattr,
  parse_pin, pin_find,
}
use netdevsim_dkms.Dpll.Searching.Unique.{
  matching, the_only, find_from-matching, pin_find_from_nlattr-repeated,
}

-- The GNSS pin and an external pin of one clock.
abbrev gnss : PinInfo
gnss = record {
  index = 0;
  registered = true;
  clock_id = 7;
  module_name = some 1;
  pin_type = 5;
  board_label = some 20;
  panel_label = none;
  package_label = none;
}

abbrev sma : PinInfo
sma = record gnss { index = 1; pin_type = 2; board_label = some 21 }

abbrev query : Query
query = record no_query { clock_id = 7; board_label = some 21 }

find_from-matching_example :
    find_from (pin_matches query) none (gnss ∷ sma ∷ [])
    ≡ the_only (matching (pin_matches query) (gnss ∷ sma ∷ []))
find_from-matching_example = find_from-matching (pin_matches query) (gnss ∷ sma ∷ [])

sma_found : pin_find query (gnss ∷ sma ∷ []) ≡ ok sma
unfolding pin_find find_from pin_matches
sma_found = refl

clock_id_twice :
    pin_find_from_nlattr
      ((type_attr 5 ∷ []) ++ clock_id_attr 7 ∷ [] ++ clock_id_attr 7 ∷ [])
      (gnss ∷ sma ∷ [])
    ≡ err einval
clock_id_twice =
    pin_find_from_nlattr-repeated (type_attr 5 ∷ []) [] [] 7 7 (gnss ∷ sma ∷ []) (ground arith)

-- Two clock ids of 0 are not told apart from none.
zero_twice :
    pin_find_from_nlattr
      (clock_id_attr 0 ∷ clock_id_attr 0 ∷ clock_id_attr 7 ∷ type_attr 5 ∷ [])
      (gnss ∷ sma ∷ [])
    ≡ ok gnss
unfolding pin_find_from_nlattr parse_pin pin_find find_from pin_matches
zero_twice = refl
