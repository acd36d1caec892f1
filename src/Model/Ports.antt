-- ===== src/Model/Ports.antt =====
-- Ports, port ranges, networks and GeoIP categories of internal/model/custom_route_validate.go, and
-- `asPort` of custom_outbound_validate.go. Where the code returns an error with a message, the
-- model says whether there is one.
use cpanelde.Prelude.{
  ℕ, zero, suc, ◌+◌, ◌-◌, ◌*◌, ◌^◌, Bool, true, false, ◌||◌, ◌&&◌, List, [], ◌∷◌, all, any,
  if◌then◌else◌, Text, Option, none, some, ◌==◌, nat_eq, text_eq, ltb, leb, codes, trim_space,
  to_lower, is_empty, is_digit, trim_prefix,
}
use cpanelde.Prelude.Int.{ℤ, pos, negsuc}
use cpanelde.Model.Types.{Value}

abbrev pub int_limit : ℕ
int_limit = 2 ^ 63

-- strconv.Atoi: an optional sign and decimal digits, within the range of an int.
unfoldable pub digits_value : ℕ → Text → Option ℕ
digits_value acc [] = some acc
digits_value acc (c ∷ s) =
    let rest = digits_value (acc * 10 + (c - b'0')) s in if is_digit c then rest else none

unfoldable pub unsigned : Text → Option ℕ
unfolding digits_value
unsigned [] = none
unsigned (c ∷ s) = digits_value 0 (c ∷ s)

abbrev pub positive_int : Option ℕ → Option ℤ
positive_int none = none
positive_int (some n) = if ltb n int_limit then some (pos n) else none

abbrev pub negative_int : Option ℕ → Option ℤ
negative_int none = none
negative_int (some zero) = some (pos 0)
negative_int (some (suc n)) = if ltb n int_limit then some (negsuc n) else none

unfoldable pub atoi : Text → Option ℤ
unfolding unsigned
atoi [] = none
atoi (c ∷ s) =
    if c == b'-'
    then negative_int (unsigned s)
    else if c == b'+'
    then positive_int (unsigned s)
    else positive_int (unsigned (c ∷ s))

abbrev pub is_port : ℤ → Bool
is_port (pos n) = leb 1 n && leb n 65535
is_port (negsuc n) = false

-- A text that is a port by itself, with the port.
unfoldable pub parse_port : Text → Option ℕ
parse_port s = elim (atoi s) [
  | none ↦ none
  | some (pos n) ↦ if is_port (pos n) then some n else none
  | some (negsuc n) ↦ none
]

abbrev pub contains_code : ℕ → Text → Bool
contains_code c = any (λ d. d == c)

abbrev pub cons_part : ℕ → List Text → List Text
cons_part c [] = (c ∷ []) ∷ []
cons_part c (p ∷ ps) = (c ∷ p) ∷ ps

-- strings.Split at a single character
unfoldable pub split : ℕ → Text → List Text
split d [] = [] ∷ []
split d (c ∷ s) = let parts = split d s in if c == d then [] ∷ parts else cons_part c parts

abbrev pub valid_range : List Text → Bool
valid_range (a ∷ b ∷ []) = elim (parse_port (trim_space a)) [
  | none ↦ false
  | some start ↦ elim (parse_port (trim_space b)) [ none ↦ false | some end ↦ leb start end ]
]
valid_range _ = false

-- One value of `validatePortSpecs`.
unfoldable pub valid_port_spec : Text → Bool
valid_port_spec raw =
    let value = trim_space raw in
    if is_empty value
    then true
    else if contains_code b'-' value || contains_code b':' value
    then valid_range (split (if contains_code b':' value then b':' else b'-') value)
    else elim (parse_port value) [ none ↦ false | some p ↦ true ]

unfoldable pub validate_port_specs : List Text → Bool
unfolding valid_port_spec
validate_port_specs = all valid_port_spec

unfoldable pub valid_network : Text → Bool
valid_network raw =
    let value = to_lower (trim_space raw) in
    is_empty value || (value == codes "tcp" || value == codes "udp")

unfoldable pub validate_networks : List Text → Bool
unfolding valid_network
validate_networks = all valid_network

abbrev pub is_alnum : ℕ → Bool
is_alnum c = (leb b'a' c && leb c b'z') || (leb b'0' c && leb c b'9')

abbrev pub is_category_char : ℕ → Bool
is_category_char c = is_alnum c || (c == b'.' || (c == b'_' || c == b'-'))

abbrev pub is_category : Text → Bool
is_category [] = true
is_category (c ∷ s) = is_alnum c && all is_category_char s

-- One value of `validateGeoIPCategories`.
unfoldable pub valid_geo_ip : Text → Bool
valid_geo_ip raw =
    is_category (trim_space (trim_prefix (codes "geoip:") (to_lower (trim_space raw))))

unfoldable pub validate_geo_ip_categories : List Text → Bool
unfolding valid_geo_ip
validate_geo_ip_categories = all valid_geo_ip

abbrev pub port_of_int : ℤ → Option ℕ
port_of_int (pos n) = if is_port (pos n) then some n else none
port_of_int (negsuc n) = none

-- `none` is an error.
unfoldable pub as_port : Value → Option ℕ
unfolding atoi
as_port (Value.int n) = port_of_int n
as_port (Value.int32 n) = port_of_int n
as_port (Value.int64 n) = port_of_int n
as_port (Value.float n whole printed) = if whole then port_of_int n else none
as_port (Value.text s) = elim (atoi (trim_space s)) [ none ↦ none | some n ↦ port_of_int n ]
as_port (Value.bool b) = none
as_port (Value.other printed) = none
