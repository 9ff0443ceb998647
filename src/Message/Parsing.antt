-- ===== src/Message/Parsing.antt =====
-- class FieldMap of src/Message.h and src/Message.cpp: what only the parser calls, with the bitset
-- of the tags seen below 1024 and the vectors of group instances.
use openfix.Prelude.{
  ℕ, suc, Bool, true, false, Option, none, some, List, [], ◌∷◌, ◌==◌, ltb, if◌then◌else◌, Bytes,
}
use openfix.LinkedHashMap.{find, has, insert, erase, push_back_unchecked_dangerous}
use openfix.LinkedHashMap.Sort.{sort_entries}
use openfix.Message.{
  GroupSpec, FieldMap, field_map, Groups, no_groups, group, Instances, no_instances, instance_of,
  m_field_order, empty_field_map,
}

-- `m_seenTags[word] & bit`
unfoldable pub test_bit : ℕ → List ℕ → Bool
test_bit tag [] = false
test_bit tag (t ∷ seen) = if t == tag then true else test_bit tag seen

-- FieldMap::setFieldViewOrDetectDup, for a tag that is not negative: whether the field was there,
-- and the map afterwards.
unfoldable pub set_field_view_or_detect_dup : ℕ → Bytes → FieldMap → Bool × FieldMap
unfolding test_bit has
set_field_view_or_detect_dup tag value (field_map fields subs spec seen) =
    if ltb tag 1024
    then (if test_bit tag seen then (true, field_map fields subs spec seen) else (
      false,
      field_map (push_back_unchecked_dangerous tag value fields) subs spec (tag ∷ seen),
    ))
    else (has tag fields, field_map (insert tag value fields).0 subs spec seen)

unfoldable pub size : Instances → ℕ
size no_instances = 0
size (instance_of m rest) = suc (size rest)

-- FieldMap::getGroupCount
unfoldable pub count_in : ℕ → Groups → ℕ
unfolding size
count_in tag no_groups = 0
count_in tag (group key instances rest) = if key == tag then size instances else count_in tag rest

unfoldable pub get_group_count : ℕ → FieldMap → ℕ
unfolding count_in
get_group_count tag (field_map fields subs spec seen) = count_in tag subs

-- FieldMap::addGroup: an empty map behind the instances of the tag. The new map is the one of
-- index `get_group_count tag m` before the call.
unfoldable pub push_back : Instances → Instances
push_back no_instances = instance_of empty_field_map no_instances
push_back (instance_of m rest) = instance_of m (push_back rest)

unfoldable pub add_in : ℕ → Groups → Groups
unfolding push_back
add_in tag no_groups = group tag (instance_of empty_field_map no_instances) no_groups
add_in tag (group key instances rest) =
    if key == tag
    then group key (push_back instances) rest
    else group key instances (add_in tag rest)

unfoldable pub add_group : ℕ → FieldMap → FieldMap
unfolding add_in
add_group tag (field_map fields subs spec seen) = field_map fields (add_in tag subs) spec seen

-- The first loop of sortFields: the fields in the order of the spec, and those that are left.
unfoldable pub take_ordered :
    List ℕ → List (ℕ × Bytes) → List (ℕ × Bytes) → List (ℕ × Bytes) × List (ℕ × Bytes)
take_ordered [] fields sorted = (sorted, fields)
take_ordered (tag ∷ order) fields sorted = elim (find tag fields) [
  | none ↦ take_ordered order fields sorted
  | some value ↦ take_ordered order (erase tag fields) (insert tag value sorted).0
]

-- The last loop: `newFields.insert(entry)`.
unfoldable pub insert_all : List (ℕ × Bytes) → List (ℕ × Bytes) → List (ℕ × Bytes)
insert_all [] sorted = sorted
insert_all ((tag, value) ∷ entries) sorted = insert_all entries (insert tag value sorted).0

unfoldable pub order_of : Option GroupSpec → List ℕ
order_of none = []
order_of (some spec) = m_field_order spec

-- FieldMap::sortFields
unfoldable pub sort_fields : FieldMap → FieldMap
unfolding take_ordered sort_entries insert_all order_of
sort_fields (field_map fields subs spec seen) =
    let (sorted, left) = take_ordered (order_of spec) fields [] in
    field_map (insert_all (sort_entries left) sorted) subs spec seen
