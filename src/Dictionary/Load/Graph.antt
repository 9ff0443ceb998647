-- ===== src/Dictionary/Load/Graph.antt =====
-- DictionaryRegistry::load of src/Dictionary.cpp: the fields, the first two passes over the
-- components, which find the graph of their references, and its topological sorting.
use openfix.Prelude.{
  ℕ, zero, suc, ◌+◌, Bool, true, false, none, some, List, [], ◌∷◌, ◌++◌, ◌==◌, ltb, if◌then◌else◌,
  Bytes, codes, bytes_eq, is_empty, length,
}
use openfix.LinkedHashMap.{has}
use openfix.Dictionary.{FieldType, find_key}
use openfix.Dictionary.Load.{
  Attributes, Node, node, Nodes, no_nodes, next_node, LoadError, Loading, loaded, failed, ◌>>=◌,
  HashOrder, strcasecmp_eq, field_type_lookup, get_or,
}

-- `map.find(key) != map.end()` of a map that is keyed by strings.
unfoldable pub has_key {ℓ} : {A : Type ℓ} → Bytes → List (Bytes × A) → Bool
has_key key [] = false
has_key key ((k, a) ∷ m) = if bytes_eq k key then true else has_key key m

-- `map[key] = f(map[key])`, where an entry that is not there is made with a default value.
unfoldable pub change_key {ℓ} :
    {A : Type ℓ} → A → (A → A) → Bytes → List (Bytes × A) → List (Bytes × A)
change_key default f key [] = (key, f default) ∷ []
change_key default f key ((k, a) ∷ m) =
    if bytes_eq k key then (k, f a) ∷ m else (k, a) ∷ change_key default f key m

-- The field types of the dictionary, and `fieldMap`.
pub record FieldTables : Type 0 where
  pub field_types : ℕ → FieldType
  pub fields_fallback : List (ℕ × FieldType)
  pub field_map : List (Bytes × ℕ)

abbrev pub no_fields : FieldTables
no_fields = record { field_types = λ tag. FieldType.unknown; fields_fallback = []; field_map = [] }

is_unknown : FieldType → Bool
is_unknown FieldType.unknown = true
is_unknown _ = false

-- `dict->m_fieldTypes[tag] = type` and `fieldMap[name] = tag`
define_type : ℕ → FieldType → (ℕ → FieldType) → ℕ → FieldType
define_type tag type types n = if n == tag then type else types n

define_field : ℕ → FieldType → Bytes → FieldTables → Loading FieldTables
unfolding is_unknown define_type has change_key
define_field tag type name t =
    let names = change_key tag (λ old. tag) name t.field_map in
    if ltb tag 1024
    then (if is_unknown (t.field_types tag)
        then loaded
            (record t { field_types = define_type tag type t.field_types; field_map = names })
        else failed LoadError.multiple_field_definitions)
    else if has tag t.fields_fallback
    then failed LoadError.multiple_field_definitions
    else loaded
        (record t { fields_fallback = t.fields_fallback ++ (tag, type) ∷ []; field_map = names })

-- One round of the loop over the fields.
load_field : Attributes → FieldTables → Loading FieldTables
unfolding define_field find_key field_type_lookup
load_field a t = elim a.number [
  | none ↦ failed LoadError.invalid_field
  | some tag ↦
      if is_empty a.name
      then failed LoadError.invalid_field
      else if is_empty a.type
      then failed LoadError.invalid_field
      else elim (find_key a.type field_type_lookup) [
        | none ↦ failed LoadError.unknown_field_type
        | some type ↦ define_field tag type a.name t
      ]
]

unfoldable pub load_fields : Nodes → FieldTables → Loading FieldTables
unfolding load_field
load_fields no_nodes t = loaded t
load_fields (next_node (node name a children) rest) t = do t' ← load_field a t; load_fields rest t'

-- `componentXMLMap` and the keys of `componentMap` and `componentGraph` after the first pass. The
-- graph maps a component to the set of those that it refers to.
pub record Components : Type 0 where
  pub xml : List (Bytes × Node)
  pub graph : List (Bytes × List Bytes)

abbrev pub no_components : Components
no_components = record { xml = []; graph = [] }

-- The first pass.
unfoldable pub first_pass : Nodes → Components → Loading Components
unfolding has_key
first_pass no_nodes c = loaded c
first_pass (next_node (node tag a children) rest) c =
    let more = first_pass rest (record {
      xml = c.xml ++ (a.name, node tag a children) ∷ [];
      graph = c.graph ++ (a.name, []) ∷ [];
    }) in
    if is_empty a.name
    then failed LoadError.component_name_missing
    else if has_key a.name c.xml
    then failed LoadError.multiple_component_definitions
    else more

-- `set.insert(name)`
unfoldable pub mem_name : Bytes → List Bytes → Bool
mem_name x [] = false
mem_name x (y ∷ ys) = if bytes_eq y x then true else mem_name x ys

unfoldable pub insert_name : Bytes → List Bytes → List Bytes
unfolding mem_name
insert_name x names = if mem_name x names then names else names ++ x ∷ []

-- `componentGraph[parentComponent].insert(componentName)`, where there is a parent.
unfoldable pub add_reference : Bytes → Bytes → List (Bytes × List Bytes) → List (Bytes × List Bytes)
unfolding insert_name change_key
add_reference parent name graph =
    if is_empty parent then graph else change_key [] (insert_name name) parent graph

-- A reference to a component, and one to a field.
unfoldable pub check_component :
    List (Bytes × Node)
    → Bytes
    → Bytes
    → List (Bytes × List Bytes)
    → Loading (List (Bytes × List Bytes))
unfolding has_key add_reference
check_component xml parent name graph =
    if is_empty name
    then failed LoadError.component_unnamed
    else if has_key name xml
    then loaded (add_reference parent name graph)
    else failed LoadError.component_undefined

unfoldable pub check_field :
    List (Bytes × ℕ) → Bytes → List (Bytes × List Bytes) → Loading (List (Bytes × List Bytes))
unfolding has_key
check_field fields name graph =
    if is_empty name
    then failed LoadError.field_unnamed
    else if has_key name fields
    then loaded graph
    else failed LoadError.field_undefined

-- The lambda validateGroup over the children of a node.
unfoldable mutual
  unfolding strcasecmp_eq check_component check_field has_key

  pub validate_nodes :
      List (Bytes × ℕ)
      → List (Bytes × Node)
      → Bytes
      → Nodes
      → List (Bytes × List Bytes)
      → Loading (List (Bytes × List Bytes))
  validate_nodes fields xml parent no_nodes graph = loaded graph
  validate_nodes fields xml parent (next_node n rest) graph = do
    graph' ← validate_node fields xml parent n graph
    validate_nodes fields xml parent rest graph'

  pub validate_node :
      List (Bytes × ℕ)
      → List (Bytes × Node)
      → Bytes
      → Node
      → List (Bytes × List Bytes)
      → Loading (List (Bytes × List Bytes))
  validate_node fields xml parent (node tag a children) graph =
      let inner = validate_nodes fields xml parent children graph in
      if strcasecmp_eq tag (codes "component")
      then check_component xml parent a.name graph
      else if strcasecmp_eq tag (codes "group")
      then (if is_empty a.name
          then failed LoadError.group_unnamed
          else if has_key a.name fields
          then inner
          else failed LoadError.group_undefined)
      else if strcasecmp_eq tag (codes "field")
      then check_field fields a.name graph
      else loaded graph

-- The second pass.
unfoldable pub second_pass :
    List (Bytes × ℕ)
    → List (Bytes × Node)
    → Nodes
    → List (Bytes × List Bytes)
    → Loading (List (Bytes × List Bytes))
unfolding validate_nodes
second_pass fields xml no_nodes graph = loaded graph
second_pass fields xml (next_node (node tag a children) rest) graph = do
  graph' ← validate_nodes fields xml a.name children graph
  second_pass fields xml rest graph'

-- The third pass: `++indegrees[child]` for the children of a node, and the loop over the graph.
unfoldable pub count_children : List Bytes → List (Bytes × ℕ) → List (Bytes × ℕ)
unfolding change_key
count_children [] degrees = degrees
count_children (c ∷ cs) degrees = count_children cs (change_key 0 (λ n. n + 1) c degrees)

unfoldable pub count_degrees :
    HashOrder → List (Bytes × List Bytes) → List (Bytes × ℕ) → List (Bytes × ℕ)
unfolding count_children
count_degrees o [] degrees = degrees
count_degrees o ((name, children) ∷ graph) degrees =
    count_degrees o graph
      (count_children (o.name_entries children) (change_key 0 (λ n. n) name degrees))

-- `workingList` with its back first, where nodes are taken; `push_front` puts one at the other end.
unfoldable pub seeds : List (Bytes × ℕ) → List Bytes → List Bytes
seeds [] working = working
seeds ((name, degree) ∷ degrees) working =
    seeds degrees (if degree == 0 then working ++ name ∷ [] else working)

-- `--indegrees[child]`, and whether it is 0 then. A degree that is 0 already would become negative
-- and is not 0 afterwards; it stays 0 here, which says the same to the test.
unfoldable pub lower_degree : Bytes → List (Bytes × ℕ) → List (Bytes × ℕ) × Bool
lower_degree child [] = ([], false)
lower_degree child ((name, zero) ∷ degrees) =
    let (degrees', ready) = lower_degree child degrees in
    if bytes_eq name child then ((name, 0) ∷ degrees, false) else ((name, 0) ∷ degrees', ready)
lower_degree child ((name, suc n) ∷ degrees) =
    let (degrees', ready) = lower_degree child degrees in
    if bytes_eq name child then ((name, n) ∷ degrees, n == 0) else ((name, suc n) ∷ degrees', ready)

unfoldable pub lower_degrees :
    List Bytes → List (Bytes × ℕ) → List Bytes → List (Bytes × ℕ) × List Bytes
unfolding lower_degree
lower_degrees [] degrees working = (degrees, working)
lower_degrees (c ∷ cs) degrees working =
    let (degrees', ready) = lower_degree c degrees in
    lower_degrees cs degrees' (if ready then working ++ c ∷ [] else working)

-- The loop on fuel.
unfoldable pub sort_loop :
    HashOrder
    → List (Bytes × List Bytes)
    → ℕ
    → List (Bytes × ℕ)
    → List Bytes
    → List Bytes
    → Loading (List Bytes)
unfolding lower_degrees get_or
sort_loop o graph zero degrees working sorted = failed LoadError.stuck
sort_loop o graph (suc fuel) degrees [] sorted = loaded sorted
sort_loop o graph (suc fuel) degrees (name ∷ working) sorted =
    let (degrees', working') =
      lower_degrees (o.name_entries (get_or [] name graph)) degrees working in
    sort_loop o graph fuel degrees' working' (sorted ++ name ∷ [])

-- The degrees that are not 0.
unfoldable pub positive : List (Bytes × ℕ) → ℕ
positive [] = 0
positive ((name, zero) ∷ degrees) = positive degrees
positive ((name, suc n) ∷ degrees) = positive degrees + 1

unfoldable pub toposort : HashOrder → List (Bytes × List Bytes) → Loading (List Bytes)
unfolding count_degrees seeds sort_loop positive
toposort o graph =
    let degrees = count_degrees o (o.graph_entries graph) [] in
    let working = seeds (o.degree_entries degrees) [] in
    do
      sorted ← sort_loop o graph (positive degrees + length working + 1) degrees working []
      if length sorted == length graph then loaded sorted else failed LoadError.component_cycle
