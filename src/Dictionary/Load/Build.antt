-- ===== src/Dictionary/Load/Build.antt =====
-- The lambda buildGroup of DictionaryRegistry::load in src/Dictionary.cpp, and the components that
-- are built with it. `buildLookup` is in Message/Spec, where the arrays are computed from the maps.
use openfix.Prelude.{ℕ, Bool, false, none, some, List, [], ◌∷◌, ◌++◌, if◌then◌else◌, Bytes, codes}
use openfix.LinkedHashMap.{has}
use openfix.Message.{GroupSpec, group_spec, SubSpecs, no_specs, sub_spec}
use openfix.Message.Spec.{m_fields, m_groups, find_spec}
use openfix.Dictionary.Load.{
  Node, node, Nodes, no_nodes, next_node, LoadError, Loading, loaded, failed, ◌>>=◌, HashOrder,
  strcasecmp_eq, get_or,
}
use openfix.Dictionary.Load.Graph.{change_key}

-- A new entry of `m_groups`.
unfoldable pub append_spec : SubSpecs → ℕ → GroupSpec → SubSpecs
append_spec no_specs tag spec = sub_spec tag spec no_specs
append_spec (sub_spec t s subs) tag spec = sub_spec t s (append_spec subs tag spec)

-- `m_fields.insert` and `m_groups.insert` of an entry with `m_fieldOrder.push_back`, where the tag
-- is not there yet.
unfoldable pub insert_field : ℕ → Bool → GroupSpec → Loading GroupSpec
unfolding has
insert_field tag required (group_spec fields subs ordered order) =
    if has tag fields
    then failed LoadError.multiple_references_of_field
    else loaded (group_spec (fields ++ (tag, required) ∷ []) subs ordered (order ++ tag ∷ []))

unfoldable pub insert_group : ℕ → GroupSpec → GroupSpec → Loading GroupSpec
unfolding find_spec append_spec
insert_group tag spec (group_spec fields subs ordered order) = elim (find_spec tag subs) [
  | some old ↦ failed LoadError.multiple_references_of_group
  | none ↦ loaded (group_spec fields (append_spec subs tag spec) ordered (order ++ tag ∷ []))
]

-- The two loops that merge a component.
unfoldable pub merge_fields : List (ℕ × Bool) → GroupSpec → Loading GroupSpec
unfolding insert_field
merge_fields [] ret = loaded ret
merge_fields ((tag, required) ∷ entries) ret = do
  ret' ← insert_field tag required ret
  merge_fields entries ret'

unfoldable pub merge_groups : SubSpecs → GroupSpec → Loading GroupSpec
unfolding insert_group
merge_groups no_specs ret = loaded ret
merge_groups (sub_spec tag spec entries) ret = do
  ret' ← insert_group tag spec ret
  merge_groups entries ret'

-- A group of a node: the test is made before the group is built.
unfoldable pub place_group : ℕ → Loading GroupSpec → GroupSpec → Loading GroupSpec
unfolding find_spec insert_group
place_group tag sub ret = elim (find_spec tag (m_groups ret)) [
  | some old ↦ failed LoadError.multiple_references_of_group
  | none ↦ sub >>= λ spec. insert_group tag spec ret
]

abbrev pub empty_spec : GroupSpec
empty_spec = group_spec [] no_specs false []

-- What buildGroup reads: the order of the hash maps, `fieldMap` and `componentMap`. A name that is
-- in neither of them gives the tag 0, or a component without fields.
pub record Names : Type 0 where
  pub hash_order : HashOrder
  pub field_map : List (Bytes × ℕ)
  pub component_map : List (Bytes × GroupSpec)

unfoldable pub merge_component : Names → Bytes → GroupSpec → Loading GroupSpec
unfolding merge_fields merge_groups get_or
merge_component names name ret =
    let component = get_or empty_spec name names.component_map in
    do
      ret' ← merge_fields (names.hash_order.field_entries (m_fields component)) ret
      merge_groups (names.hash_order.group_entries (m_groups component)) ret'

-- buildGroup of a node, the loop over its children, and one round of it.
unfoldable mutual
  unfolding merge_component insert_field place_group get_or strcasecmp_eq

  pub build_group : Names → Node → Loading GroupSpec
  build_group names (node tag a children) =
      build_nodes names children (group_spec [] no_specs a.ordered [])

  pub build_nodes : Names → Nodes → GroupSpec → Loading GroupSpec
  build_nodes names no_nodes ret = loaded ret
  build_nodes names (next_node n rest) ret = do
    ret' ← build_node names n ret
    build_nodes names rest ret'

  pub build_node : Names → Node → GroupSpec → Loading GroupSpec
  build_node names (node tag a children) ret =
      let sub = build_nodes names children (group_spec [] no_specs a.ordered []) in
      if strcasecmp_eq tag (codes "component")
      then merge_component names a.name ret
      else if strcasecmp_eq tag (codes "group")
      then place_group (get_or 0 a.name names.field_map) sub ret
      else if strcasecmp_eq tag (codes "field")
      then insert_field (get_or 0 a.name names.field_map) a.required ret
      else loaded ret

-- A node that is not there.
abbrev no_node : Node
no_node =
    node []
      (record {
        name = [];
        type = [];
        message_type = [];
        number = none;
        required = false;
        ordered = false;
      })
      no_nodes

-- The components in the order of the names, which is the reverse of the sorted one.
unfoldable pub build_components :
    HashOrder
    → List (Bytes × ℕ)
    → List (Bytes × Node)
    → List Bytes
    → List (Bytes × GroupSpec)
    → Loading (List (Bytes × GroupSpec))
unfolding build_group change_key get_or
build_components o fields xml [] components = loaded components
build_components o fields xml (name ∷ names) components = do
  spec ←
      build_group (record { hash_order = o; field_map = fields; component_map = components })
        (get_or no_node name xml)
  build_components o fields xml names (change_key empty_spec (λ old. spec) name components)
