-- ===== src/Json.antt =====
-- src/serialization/json_helpers.h over the values of `nlohmann::json`, which stand as a data type.
-- Parsing and printing of JSON text are not modelled: the definitions that need them take them as
-- parameters.
use agent_memory_cpp.Prelude.{
  ℕ, ◌-◌, ◌^◌, ◌≡◌, refl, Bool, true, false, Option, none, some, List, [], ◌∷◌, arith, ltb,
  if◌then◌else◌,
}
use agent_memory_cpp.Prelude.Int.{ℤ, pos, negsuc}
use agent_memory_cpp.Text.{Text, text_eq}
use agent_memory_cpp.Text.Decimal.{stoll}

-- A `float` or `double` that the code only copies, in thousandths.
abbrev pub Float : Type 0
Float = ℕ

mutual
  pub data Json : Type 0 where
    null : Json
    boolean : Bool → Json
    integer : ℤ → Json
    unsigned : ℕ → Json
    number : Float → Json
    string : Text → Json
    array : Items → Json
    object : Members → Json

  pub data Items : Type 0 where
    no_items : Items
    item : Json → Items → Items

  pub data Members : Type 0 where
    no_members : Members
    member : Text → Json → Members → Members

abbrev pub empty_object : Json
empty_object = object no_members

abbrev pub is_object : Json → Bool
is_object (object ms) = true
is_object _ = false

unfoldable pub find_member : Text → Members → Option Json
find_member key no_members = none
find_member key (member k v ms) = if text_eq k key then some v else find_member key ms

-- j.contains(key) ? j[key]; a value that is no object has no members.
abbrev pub get_member : Text → Json → Option Json
get_member key (object ms) = find_member key ms
get_member key _ = none

-- j[key] = value on an object.
unfoldable pub set_member : Text → Json → Members → Members
set_member key v no_members = member key v no_members
set_member key v (member k w ms) =
    if text_eq k key then member k v ms else member k w (set_member key v ms)

abbrev pub with_member : Text → Json → Json → Json
with_member key v (object ms) = object (set_member key v ms)
with_member key v j = j

-- The value of a `long long` that is read from an unsigned 64-bit number.
unfoldable pub to_int64 : ℕ → ℤ
to_int64 n = if ltb n (2 ^ 63) then pos n else negsuc (2 ^ 64 - 1 - n)

unfoldable pub fits_int : ℤ → Bool
fits_int (pos n) = ltb n (2 ^ 31)
fits_int (negsuc n) = ltb n (2 ^ 31)

-- An unsigned number counts as an integer too, so the second test of the code repeats the first
-- on a number that the first has refused.
unfoldable pub int_value : Json → ℤ → ℤ
unfolding to_int64 fits_int
int_value (integer i) fallback = if fits_int i then i else fallback
int_value (unsigned n) fallback =
    if fits_int (to_int64 n) then to_int64 n else if ltb n (2 ^ 31) then pos n else fallback
int_value _ fallback = fallback

unfoldable pub json_int : Json → Text → ℤ → ℤ
unfolding int_value find_member
json_int j key fallback = elim (get_member key j) [
  | none ↦ fallback
  | some v ↦ int_value v fallback
]

abbrev pub string_or : Text → Json → Text
string_or fallback (string s) = s
string_or fallback _ = fallback

unfoldable pub json_string : Json → Text → Text → Text
unfolding find_member
json_string j key fallback = elim (get_member key j) [
  | none ↦ fallback
  | some v ↦ string_or fallback v
]

abbrev boolean_or : Bool → Json → Bool
boolean_or fallback (boolean b) = b
boolean_or fallback _ = fallback

unfoldable pub json_bool : Json → Text → Bool → Bool
unfolding find_member
json_bool j key fallback = elim (get_member key j) [
  | none ↦ fallback
  | some v ↦ boolean_or fallback v
]

unfoldable pub json_object : Json → Json
json_object (object ms) = object ms
json_object _ = empty_object

unfoldable pub strings_of : Items → List Text
strings_of no_items = []
strings_of (item (string s) rest) = s ∷ strings_of rest
strings_of (item _ rest) = strings_of rest

unfoldable pub string_vector : Json → List Text
unfolding strings_of
string_vector (array xs) = strings_of xs
string_vector _ = []

-- nlohmann::json(refs) of a vector of strings.
unfoldable pub items_of : List Text → Items
items_of [] = no_items
items_of (s ∷ ss) = item (string s) (items_of ss)

-- std::stoi: `std::stoll` with the range of an `int`.
unfoldable pub stoi : Text → Option ℤ
unfolding stoll fits_int
stoi s = elim (stoll s) [ none ↦ none | some v ↦ if fits_int v then some v else none ]

abbrev stoi_or : ℤ → Option ℤ → ℤ
stoi_or fallback none = fallback
stoi_or fallback (some v) = v

unfoldable pub number_in_string : Json → ℤ → ℤ
unfolding stoi
number_in_string (string s) fallback = stoi_or fallback (stoi s)
number_in_string _ fallback = fallback

-- `MetadataInt`: a number, or a string that holds one. A number that equals the fallback falls
-- through to the string test, which gives the fallback again.
unfoldable pub metadata_int : Json → Text → ℤ → ℤ
unfolding int_value number_in_string find_member
metadata_int metadata key fallback = elim (get_member key metadata) [
  | none ↦ fallback
  | some (string s) ↦ number_in_string (string s) fallback
  | some v ↦ int_value v fallback
]

-- What a vector of strings is turned into reads back as that vector.
pub strings_of-items_of : (ss : List Text) → strings_of (items_of ss) ≡ ss
unfolding strings_of items_of
strings_of-items_of [] = refl
strings_of-items_of (s ∷ ss) = ground (arith, strings_of-items_of ss)
