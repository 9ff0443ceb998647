-- ===== src/Tests/Parser.antt =====
-- Runs of the parser, and its theorems at messages that meet their hypotheses.
use openfix.Prelude.{
  to_chars, true, false, none, some, [], ◌∷◌, codes, length, ◌≡◌, ◌≢◌, int, refl, ◌==◌,
  if◌then◌else◌, arith,
}
use openfix.LinkedHashMap.{find, has}
use openfix.Message.{
  GroupSpec, group_spec, no_specs, sub_spec, Message, FieldMap, field_map, no_groups, get_fields,
  has_field, get_field,
}
use openfix.Message.Parsing.{sort_fields, test_bit, set_field_view_or_detect_dup}
use openfix.Message.Spec.{
  m_fields, m_groups, spec_has_field, build_field_lookup, find_group, build_group_lookup, find_spec,
}
use openfix.Checksum.{format_checksum}
use openfix.Message.Serialize.{serialize, internal_soh, is_ignored_tag}
use openfix.Dictionary.{Dictionary, FieldType, fast_parse_tag, get_field_type, get_message_spec_raw}
use openfix.Dictionary.State.{Options, parsed, undefined, stuck, Parser, in_header, header_part}
use openfix.Dictionary.Groups.{required_present, adopt}
use openfix.Dictionary.Parse.{parse, dispatch_field}
use openfix.Dictionary.RoundTrip.Serialized.{Flat}
use openfix.Dictionary.RoundTrip.Readable.{Readable, header_read}
use openfix.Dictionary.RoundTrip.Whole.{parse-serialize}
use openfix.Dictionary.RoundTrip.Part.{within}
use openfix.Dictionary.RoundTrip.Transitions.{dispatch_field-unknown_type}
use openfix.Dictionary.Ends.Loop.{parse-ne-stuck}
use openfix.Dictionary.Digits.{fast_parse_tag-to_chars}
use openfix.Message.Spec.{spec_has_field-find_group}
use openfix.Message.Sorted.{get_field-sort_fields, Synced, set_field_view_or_detect_dup-Synced}

-- A dictionary with one message type, whose body has a text, a data field with its length, and two
-- repeating groups.
abbrev order_spec : GroupSpec
order_spec =
    group_spec ((58, false) ∷ (95, false) ∷ (96, false) ∷ [])
      (sub_spec 73 (group_spec ((11, true) ∷ (67, false) ∷ []) no_specs false [])
        (sub_spec 78 (group_spec ((79, true) ∷ []) no_specs false []) no_specs))
      false []

abbrev dictionary : Dictionary
dictionary = record {
  header_spec = group_spec ((8, true) ∷ (9, true) ∷ (35, true) ∷ (34, true) ∷ []) no_specs false [];
  trailer_spec = group_spec ((10, true) ∷ []) no_specs false [];
  body_specs = [];
  body_specs_fast = λ c. if c == 68 then some order_spec else none;
  field_types = λ tag.
      if tag == 95
      then FieldType.length
      else if tag == 96
      then FieldType.data_bytes
      else FieldType.string;
  fields_fallback = [];
}

abbrev strict : Options
strict = record { relaxed = false; validate_required = true; reorder_tags = false }

abbrev pub order : Message
order = record {
  header =
      field_map ((8, codes "FIX.4.2") ∷ (35, codes "D") ∷ (34, codes "2") ∷ []) no_groups none [];
  body = field_map ((58, codes "hi") ∷ []) no_groups none [];
  trailer = field_map [] no_groups none [];
  source_text = [];
}

pub order-Flat : Flat order (codes "FIX.4.2") (codes "D") ((34, codes "2") ∷ [])
unfolding is_ignored_tag
order-Flat = record {
  header_fields = refl;
  header_groups = refl;
  body_groups = refl;
  trailer_groups = refl;
  header_plain = (refl, tt);
  body_plain = (refl, tt);
  trailer_plain = tt;
}

order_wire_lem : length (serialize internal_soh order) ≡ 38
unfolding serialize find to_chars format_checksum
order_wire_lem = refl

order-Readable :
    Readable dictionary strict order (codes "FIX.4.2") (codes "D") ((34, codes "2") ∷ []) order_spec
unfolding spec_has_field build_field_lookup find_group build_group_lookup get_field_type
    get_message_spec_raw has required_present has_field
order-Readable = record {
  flat = order-Flat;
  known_type = refl;
  begin_written = record {
    known = record { member = refl; no_length = refl };
    small = omega arith;
    free = (refl, (refl, (refl, (refl, (refl, (refl, (refl, tt)))))));
  };
  length_known = record { member = refl; no_length = refl };
  type_written = record {
    known = record { member = refl; no_length = refl };
    small = omega arith;
    free = (refl, tt);
  };
  header_written = (
    record {
      known = record { member = refl; no_length = refl };
      small = omega arith;
      free = (refl, tt);
    },
    refl,
    tt,
  );
  body_written = (
    record {
      known = record { member = refl; no_length = refl };
      small = omega arith;
      free = (refl, (refl, tt));
    },
    refl,
    tt,
  );
  trailer_written = tt;
  checksum_known = record { member = refl; no_length = refl };
  header_distinct = (refl, (refl, (refl, (refl, tt))));
  body_distinct = (refl, tt);
  trailer_distinct = (refl, tt);
  leaves_header = record { no_field = refl; no_group = refl };
  leaves_body = record { no_field = refl; no_group = refl };
  header_present = refl;
  body_present = refl;
  trailer_present = refl;
  small = omega (arith, order_wire_lem);
}

parse-serialize_example :
    (m : Message) × (parse dictionary strict (serialize internal_soh order) ≡ parsed m)
    × (get_fields m.header ≡ header_read order (codes "FIX.4.2") (codes "D") ((34, codes "2") ∷ []))
    × (get_fields m.body ≡ get_fields order.body)
    × (get_fields m.trailer ≡ get_fields order.trailer)
parse-serialize_example =
    parse-serialize dictionary strict order (codes "FIX.4.2") (codes "D") ((34, codes "2") ∷ [])
      order_spec refl refl order-Readable

-- The message that the parser reads from the text of the order.
abbrev order_read : Message
order_read =
    (parse-serialize dictionary strict order (codes "FIX.4.2") (codes "D") ((34, codes "2") ∷ [])
      order_spec refl refl order-Readable).0

parse-ne-stuck_example : parse dictionary strict (codes "8=FIX.4.2|35=D|") ≢ stuck
parse-ne-stuck_example = parse-ne-stuck dictionary strict (codes "8=FIX.4.2|35=D|")

-- The parser behind the header of a message of type Z.
abbrev type_z : Parser
type_z = record {
  message = record order {
    header =
        field_map ((8, codes "FIX.4.2") ∷ (9, codes "12") ∷ (35, codes "Z") ∷ (34, codes "2") ∷ [])
          no_groups none (34 ∷ 35 ∷ 9 ∷ 8 ∷ []);
    body = field_map [] no_groups none [];
  };
  msg_state = in_header;
  stack = [];
  data_length = none;
  body_length_start = 15;
  tag_count = 5;
  tag = 58;
}

dispatch_field-unknown_type_example :
    dispatch_field dictionary strict 58
      (codes "hi")
      26
      (within header_part dictionary.header_spec type_z)
    ≡ undefined
unfolding get_message_spec_raw get_field find adopt required_present has_field has spec_has_field
    build_field_lookup find_group build_group_lookup
dispatch_field-unknown_type_example =
    dispatch_field-unknown_type dictionary strict (codes "Z") 58 (codes "hi") 26 type_z refl refl
      refl (record { no_field = refl; no_group = refl }) refl

fast_parse_tag-to_chars_example : fast_parse_tag (to_chars (int 5001)) ≡ some 5001
fast_parse_tag-to_chars_example = fast_parse_tag-to_chars 5001 (omega arith)

spec_has_field-find_group_example :
    (spec_has_field 73 order_spec ≡ has 73 (m_fields order_spec))
    × (find_group 73 order_spec ≡ find_spec 73 (m_groups order_spec))
spec_has_field-find_group_example = spec_has_field-find_group 73 order_spec

get_field-sort_fields_example :
    get_field 35 (
      sort_fields
        (field_map ((56, codes "A") ∷ (35, codes "D") ∷ []) no_groups (some order_spec) []))
    ≡ get_field 35
        (field_map ((56, codes "A") ∷ (35, codes "D") ∷ []) no_groups (some order_spec) [])
unfolding has
get_field-sort_fields_example =
    get_field-sort_fields 35
      (field_map ((56, codes "A") ∷ (35, codes "D") ∷ []) no_groups (some order_spec) [])
      (refl, (refl, tt))

-- A map with one field whose bit is set.
abbrev typed : FieldMap
typed = field_map ((35, codes "D") ∷ []) no_groups none (35 ∷ [])

typed-Synced : Synced typed
unfolding test_bit has
typed-Synced tag h = refl

set_field_view_or_detect_dup-Synced_example :
    ((set_field_view_or_detect_dup 35 (codes "8") typed).0 ≡ has_field 35 typed)
    × Synced (set_field_view_or_detect_dup 35 (codes "8") typed).1
set_field_view_or_detect_dup-Synced_example =
    set_field_view_or_detect_dup-Synced 35 (codes "8") typed typed-Synced
