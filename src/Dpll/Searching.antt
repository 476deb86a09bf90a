-- ===== src/Dpll/Searching.antt =====
-- The searches of dpll/dpll_netlink.c for the one pin and the one device that the attributes of a request
-- describe. A name or a label is known by a number; an attribute that is absent is `none`, and a clock id
-- or a type that is absent is 0.
pub mod Unique
mod Examples
use netdevsim_dkms.Base.{
  ℕ, Bool, true, false, not, ◌&&◌, ◌||◌, Option, none, some, List, [], ◌∷◌, einval, enodev, Result,
  ok, err, ◌==◌, if◌then◌else◌,
}

-- What the searches read of a pin; `registered` is its mark DPLL_REGISTERED.
pub record PinInfo : Type 0 where
  pub index : ℕ
  pub registered : Bool
  pub clock_id : ℕ
  pub module_name : Option ℕ
  pub pin_type : ℕ
  pub board_label : Option ℕ
  pub panel_label : Option ℕ
  pub package_label : Option ℕ

-- What they read of a device.
pub record DeviceInfo : Type 0 where
  pub index : ℕ
  pub registered : Bool
  pub clock_id : ℕ
  pub module_name : Option ℕ
  pub device_type : ℕ

-- The attributes of a request.
pub record Query : Type 0 where
  pub clock_id : ℕ
  pub mod_name : Option ℕ
  pub type : ℕ
  pub board_label : Option ℕ
  pub panel_label : Option ℕ
  pub package_label : Option ℕ

abbrev pub number_match : ℕ → ℕ → Bool
number_match asked has = if asked == 0 then true else has == asked

-- A pin of a module without a name matches any.
abbrev pub mod_match : Option ℕ → Option ℕ → Bool
mod_match none has = true
mod_match (some asked) none = true
mod_match (some asked) (some has) = asked == has

-- A pin without a label matches no label, and a device of a module without a name matches no name.
abbrev pub label_match : Option ℕ → Option ℕ → Bool
label_match none has = true
label_match (some asked) none = false
label_match (some asked) (some has) = asked == has

unfoldable pub pin_matches : Query → PinInfo → Bool
pin_matches q p =
    p.registered
    && number_match q.clock_id p.clock_id
    && mod_match q.mod_name p.module_name
    && number_match q.type p.pin_type
    && label_match q.board_label p.board_label
    && label_match q.panel_label p.panel_label
    && label_match q.package_label p.package_label

unfoldable pub device_matches : Query → DeviceInfo → Bool
device_matches q d =
    d.registered
    && number_match q.clock_id d.clock_id
    && label_match q.mod_name d.module_name
    && number_match q.type d.device_type

-- The loop over the pins or the devices, with the match so far.
unfoldable pub find_from : {A : Type 0} → (A → Bool) → Option A → List A → Result A
find_from matches none [] = err enodev
find_from matches (some m) [] = ok m
find_from matches none (p ∷ ps) =
    if matches p then find_from matches (some p) ps else find_from matches none ps
find_from matches (some m) (p ∷ ps) =
    if matches p then err einval else find_from matches (some m) ps

unfoldable pub pin_find : Query → List PinInfo → Result PinInfo
pin_find q pins = find_from (pin_matches q) none pins

unfoldable pub device_find : Query → List DeviceInfo → Result DeviceInfo
device_find q devices = find_from (device_matches q) none devices

pub data Attr : Type 0 where
  clock_id_attr mod_name_attr type_attr board_label_attr panel_label_attr package_label_attr :
      ℕ → Attr
  other_attr : Attr

abbrev pub is_given : Option ℕ → Bool
is_given none = false
is_given (some n) = true

-- The loop over the attributes of a request for a pin, with those so far.
unfoldable pub parse_pin : List Attr → Query → Result Query
parse_pin [] q = ok q
parse_pin (clock_id_attr n ∷ attrs) q =
    if not (q.clock_id == 0) then err einval else parse_pin attrs (record q { clock_id = n })
parse_pin (mod_name_attr n ∷ attrs) q =
    if is_given q.mod_name then err einval else parse_pin attrs (record q { mod_name = some n })
parse_pin (type_attr n ∷ attrs) q =
    if not (q.type == 0) then err einval else parse_pin attrs (record q { type = n })
parse_pin (board_label_attr n ∷ attrs) q =
    if is_given q.board_label
    then err einval
    else parse_pin attrs (record q { board_label = some n })
parse_pin (panel_label_attr n ∷ attrs) q =
    if is_given q.panel_label
    then err einval
    else parse_pin attrs (record q { panel_label = some n })
parse_pin (package_label_attr n ∷ attrs) q =
    if is_given q.package_label
    then err einval
    else parse_pin attrs (record q { package_label = some n })
parse_pin (other_attr ∷ attrs) q = parse_pin attrs q

-- The same for a device.
unfoldable pub parse_device : List Attr → Query → Result Query
parse_device [] q = ok q
parse_device (clock_id_attr n ∷ attrs) q =
    if not (q.clock_id == 0) then err einval else parse_device attrs (record q { clock_id = n })
parse_device (mod_name_attr n ∷ attrs) q =
    if is_given q.mod_name then err einval else parse_device attrs (record q { mod_name = some n })
parse_device (type_attr n ∷ attrs) q =
    if not (q.type == 0) then err einval else parse_device attrs (record q { type = n })
parse_device (board_label_attr n ∷ attrs) q = parse_device attrs q
parse_device (panel_label_attr n ∷ attrs) q = parse_device attrs q
parse_device (package_label_attr n ∷ attrs) q = parse_device attrs q
parse_device (other_attr ∷ attrs) q = parse_device attrs q

abbrev pub no_query : Query
no_query = record {
  clock_id = 0;
  mod_name = none;
  type = 0;
  board_label = none;
  panel_label = none;
  package_label = none;
}

-- A type alone does not describe a pin.
abbrev pub describes_pin : Query → Bool
describes_pin q =
    not (q.clock_id == 0)
    || is_given q.mod_name
    || is_given q.board_label
    || is_given q.panel_label
    || is_given q.package_label

unfoldable pub pin_find_from_nlattr : List Attr → List PinInfo → Result PinInfo
pin_find_from_nlattr attrs pins = elim (parse_pin attrs no_query) [
  | err e ↦ err e
  | ok q ↦ if not (describes_pin q) then err einval else pin_find q pins
]

abbrev pub describes_device : Query → Bool
describes_device q = not (q.clock_id == 0) || is_given q.mod_name || not (q.type == 0)

unfoldable pub device_find_from_nlattr : List Attr → List DeviceInfo → Result DeviceInfo
device_find_from_nlattr attrs devices = elim (parse_device attrs no_query) [
  | err e ↦ err e
  | ok q ↦ if not (describes_device q) then err einval else device_find q devices
]
