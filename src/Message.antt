-- ===== src/Message.antt =====
-- src/Message.h and src/Message.cpp: the field map of a message part, with its repeating groups
-- and its dictionary spec. A string view is the bytes that it shows; the owned storage behind the
-- views is not modelled here.
pub mod External
pub mod Order
pub mod Parsing
pub mod Serialize
pub mod Sorted
pub mod Spec
use openfix.Prelude.{
  ℕ, Bool, true, false, not, ◌&&◌, ◌||◌, Option, none, some, List, [], ◌∷◌, ◌++◌, ◌==◌,
  if◌then◌else◌, Bytes, codes, bytes_eq, is_empty, to_chars, from_chars,
}
use openfix.LinkedHashMap.{find, has, put, insert_before, erase}

-- struct GroupSpec: `m_fields` with the required flags, `m_groups`, `m_ordered`, `m_fieldOrder`.
mutual
  pub data GroupSpec : Type 0 where
    group_spec : List (ℕ × Bool) → SubSpecs → Bool → List ℕ → GroupSpec

  pub data SubSpecs : Type 0 where
    no_specs : SubSpecs
    sub_spec : ℕ → GroupSpec → SubSpecs → SubSpecs

abbrev pub m_ordered : GroupSpec → Bool
m_ordered (group_spec _ _ ordered _) = ordered

abbrev pub m_field_order : GroupSpec → List ℕ
m_field_order (group_spec _ _ _ order) = order

-- class FieldMap: `m_fields`, `m_groups`, `m_groupSpec` (`none` is the null pointer), and the tags
-- whose bits are set in `m_seenTags`.
mutual
  pub data FieldMap : Type 0 where
    field_map : List (ℕ × Bytes) → Groups → Option GroupSpec → List ℕ → FieldMap

  pub data Groups : Type 0 where
    no_groups : Groups
    group : ℕ → Instances → Groups → Groups

  pub data Instances : Type 0 where
    no_instances : Instances
    instance_of : FieldMap → Instances → Instances

abbrev pub get_fields : FieldMap → List (ℕ × Bytes)
get_fields (field_map fields _ _ _) = fields

abbrev pub get_groups : FieldMap → Groups
get_groups (field_map _ subs _ _) = subs

abbrev pub get_spec : FieldMap → Option GroupSpec
get_spec (field_map _ _ spec _) = spec

abbrev pub set_spec : Option GroupSpec → FieldMap → FieldMap
set_spec spec (field_map fields subs _ seen) = field_map fields subs spec seen

abbrev pub empty_field_map : FieldMap
empty_field_map = field_map [] no_groups none []

-- FieldMap::has
unfoldable pub has_field : ℕ → FieldMap → Bool
has_field tag m = has tag (get_fields m)

-- FieldMap::getField; `none` is the exception FieldNotFound.
unfoldable pub get_field : ℕ → FieldMap → Option Bytes
get_field tag m = find tag (get_fields m)

-- FieldMap::getIntField
unfoldable pub get_int_field : ℕ → FieldMap → Option ℕ
get_int_field tag m = elim (find tag (get_fields m)) [ none ↦ none | some s ↦ some (from_chars s) ]

-- FieldMap::tryGetBool
unfoldable pub try_get_bool : ℕ → FieldMap → Bool
try_get_bool tag m = elim (find tag (get_fields m)) [
  | none ↦ false
  | some s ↦ bytes_eq s (codes "Y")
]

-- FieldMap::removeField
unfoldable pub remove_field : ℕ → FieldMap → FieldMap
remove_field tag (field_map fields subs spec seen) = field_map (erase tag fields) subs spec seen

-- The inner loop of `insertFieldView`: `order_ptr` moves on to the next tag that is `key` or `tag`.
unfoldable pub advance : ℕ → ℕ → List ℕ → List ℕ
advance key tag [] = []
advance key tag (o ∷ order) = if (o == key) || (o == tag) then o ∷ order else advance key tag order

-- `order_ptr < field_order.size() && field_order[order_ptr] == tag`
unfoldable pub stands_at : ℕ → List ℕ → Bool
stands_at tag [] = false
stands_at tag (o ∷ order) = o == tag

-- The outer loop: `front` is what `field_it` has passed, `order` starts at `order_ptr`.
unfoldable pub place : ℕ → Bytes → List (ℕ × Bytes) → List (ℕ × Bytes) → List ℕ → List (ℕ × Bytes)
unfolding advance stands_at
place tag value front [] order = put tag value front
place tag value front ((key, old) ∷ back) order =
    let order' = advance key tag order in
    let rest = place tag value (front ++ (key, old) ∷ []) back order' in
    if tag == key
    then front ++ (key, value) ∷ back
    else if stands_at tag order'
    then insert_before tag value front ((key, old) ∷ back)
    else rest

-- FieldMap::insertFieldView
unfoldable pub insert_field_view : ℕ → Bytes → Bool → FieldMap → FieldMap
unfolding place
insert_field_view tag value order (field_map fields subs none seen) =
    field_map (put tag value fields) subs none seen
insert_field_view tag value order (field_map fields subs (some spec) seen) =
    if not order || not (m_ordered spec)
    then field_map (put tag value fields) subs (some spec) seen
    else field_map (place tag value [] fields (m_field_order spec)) subs (some spec) seen

-- FieldMap::setField, setFieldView and setField for an int: `order` is true unless it is given.
unfoldable pub set_field_view : ℕ → Bytes → Bool → FieldMap → FieldMap
unfolding insert_field_view
set_field_view = insert_field_view

unfoldable pub set_field : ℕ → Bytes → FieldMap → FieldMap
unfolding insert_field_view
set_field tag value = insert_field_view tag value true

unfoldable pub set_int_field : ℕ → ℕ → FieldMap → FieldMap
unfolding insert_field_view
set_int_field tag value = insert_field_view tag (to_chars value) true

-- class Message
pub record Message : Type 0 where
  pub header : FieldMap
  pub body : FieldMap
  pub trailer : FieldMap
  pub source_text : Bytes
