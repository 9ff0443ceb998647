-- ===== src/Dictionary.antt =====
-- class Dictionary of src/Dictionary.h: the specs of message parts and the types of fields, and
-- the reading of tags of src/Dictionary.cpp.
pub mod State
pub mod Groups
pub mod Accept
pub mod Parse
pub mod RoundTrip
pub mod Digits
pub mod Ends
pub mod Noted
pub mod Load
use openfix.Prelude.{
  ℕ, suc, ◌+◌, ◌*◌, ◌-◌, ◌%◌, Bool, true, false, ◌||◌, Option, none, some, List, [], ◌∷◌, ◌==◌, ltb,
  leb, if◌then◌else◌, Bytes, bytes_eq,
}
use openfix.LinkedHashMap.{find}
use openfix.Message.{GroupSpec}

-- enum class FieldType of src/Message.h
pub data FieldType : Type 0 where
  unknown int length num_in_group seq_num tag_num day_of_month : FieldType
  float qty price price_offset amt percentage : FieldType
  char boolean : FieldType
  string multiple_value_string country currency exchange month_year utc_timestamp : FieldType
  utc_time_only utc_date_only local_mkt_date : FieldType
  data_bytes : FieldType

-- The specs, which are there once a dictionary is loaded, and the arrays as functions of the index.
pub record Dictionary : Type 0 where
  pub header_spec : GroupSpec
  pub trailer_spec : GroupSpec
  pub body_specs : List (Bytes × GroupSpec)
  pub body_specs_fast : ℕ → Option GroupSpec
  pub field_types : ℕ → FieldType
  pub fields_fallback : List (ℕ × FieldType)

-- Dictionary::getFieldType, for a tag that is not negative.
unfoldable pub get_field_type : Dictionary → ℕ → FieldType
get_field_type d tag =
    if ltb tag 1024
    then d.field_types tag
    else elim (find tag d.fields_fallback) [ none ↦ FieldType.unknown | some type ↦ type ]

abbrev pub is_length : FieldType → Bool
is_length FieldType.length = true
is_length _ = false

abbrev pub is_data : FieldType → Bool
is_data FieldType.data_bytes = true
is_data _ = false

-- A lookup in a map that is keyed by strings.
unfoldable pub find_key {ℓ} : {A : Type ℓ} → Bytes → List (Bytes × A) → Option A
find_key key [] = none
find_key key ((k, a) ∷ m) = if bytes_eq k key then some a else find_key key m

-- Dictionary::getMessageSpec
unfoldable pub get_message_spec : Dictionary → Bytes → Option GroupSpec
unfolding find_key
get_message_spec d (c ∷ []) =
    let slow = find_key (c ∷ []) d.body_specs in
    if ltb c 128 then elim (d.body_specs_fast c) [ none ↦ slow | some spec ↦ some spec ] else slow
get_message_spec d type = find_key type d.body_specs

-- Dictionary::getMessageSpecRaw; `none` is the null pointer.
unfoldable pub get_message_spec_raw : Dictionary → Bytes → Option GroupSpec
unfolding find_key
get_message_spec_raw d (c ∷ []) =
    if ltb c 128 then d.body_specs_fast c else find_key (c ∷ []) d.body_specs
get_message_spec_raw d type = find_key type d.body_specs

-- The loop of fastParseTag. The source's int overflows for a value that is too large, which is
-- undefined; here it wraps.
unfoldable pub parse_digits : Bytes → ℕ → Option ℕ
parse_digits [] val = some val
parse_digits (c ∷ s) val =
    let rest = parse_digits s ((val * 10 + (c - 48)) % 4294967296) in
    if ltb c 48 || ltb 57 c then none else rest

-- fastParseTag: `none` is a negative result.
unfoldable pub fast_parse_tag : Bytes → Option ℕ
unfolding parse_digits
fast_parse_tag [] = none
fast_parse_tag (c ∷ s) = elim (parse_digits (c ∷ s) 0) [
  | none ↦ none
  | some val ↦ if ltb val 2147483648 then some val else none
]
