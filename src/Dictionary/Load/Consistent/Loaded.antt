-- ===== src/Dictionary/Load/Consistent/Loaded.antt =====
-- The specs of components, messages and dictionaries that DictionaryRegistry::load builds.
use mathlib.Core.List.{reverse}
use openfix.Prelude.{
  ℕ, Bool, false, Option, none, some, List, [], ◌∷◌, Bytes, codes, bytes_eq, is_empty, All,
  All-append, inl, inr, arith, Bool-cases, Option-cases,
}
use openfix.Message.{GroupSpec, group_spec, no_specs}
use openfix.Message.Spec.{m_fields, m_groups, find_spec}
use openfix.Dictionary.{Dictionary, find_key}
use openfix.Dictionary.Load.{
  Node, node, Nodes, no_nodes, next_node, Fix, Loading, Gives, Gives-bind, Gives-loaded, HashOrder,
  get_or, strcasecmp_eq,
}
use openfix.Dictionary.Load.Graph.{
  FieldTables, Components, no_fields, load_fields, no_components, first_pass, second_pass, toposort,
  change_key,
}
use openfix.Dictionary.Load.Build.{
  merge_fields, place_group, empty_spec, Names, merge_component, build_group, build_nodes,
  build_node, build_components,
}
use openfix.Dictionary.Load.Registry.{
  BodySpecs, no_bodies, build_message, build_messages, build_dictionary, load_document, load_fix,
}
use openfix.Dictionary.Load.Consistent.{
  EachConsistent→Each, Each→EachConsistent, Consistent, EachConsistent, GivesOwnGroups,
  insert_field-Consistent, insert_group-Consistent, merge_fields-Consistent,
  merge_groups-Consistent,
}

-- All specs of a map from names.
abbrev pub AllConsistent : List (Bytes × GroupSpec) → Type 0
AllConsistent = All (λ e. Consistent e.1)

empty-Consistent : (ordered : Bool) → Consistent (group_spec [] no_specs ordered [])
unfolding Consistent EachConsistent
empty-Consistent ordered = (λ tag. omega arith, tt)

get_or-Consistent :
    (name : Bytes) (m : List (Bytes × GroupSpec))
    → AllConsistent m
    → Consistent (get_or empty_spec name m)
unfolding get_or find_key
get_or-Consistent name [] h = empty-Consistent false
get_or-Consistent name ((k, spec) ∷ m) h = elim (Bool-cases (bytes_eq k name)) [
  | inl found ↦ rw (found, get_or) h.0
  | inr other ↦ rw (other, get_or) (get_or-Consistent name m h.1)
]

m_groups-EachConsistent : (spec : GroupSpec) → Consistent spec → EachConsistent (m_groups spec)
unfolding Consistent
m_groups-EachConsistent (group_spec fields subs ordered order) c = c.1

place_group-Consistent :
    (tag : ℕ) (sub : Loading GroupSpec) (ret : GroupSpec)
    → Gives Consistent sub
    → Consistent ret
    → Gives Consistent (place_group tag sub ret)
unfolding place_group
place_group-Consistent tag sub ret s c = elim (Option-cases (find_spec tag (m_groups ret))) [
  | inr (old, there) ↦ rw (there, place_group) tt
  | inl new ↦
      rw (new, place_group)
        (Gives-bind Consistent sub _
          λ spec e. insert_group-Consistent tag spec ret (Gives-loaded Consistent e s) c)
]

module _ (names : Names) (own : GivesOwnGroups names.hash_order) where
  merge_component-Consistent :
      (name : Bytes) (ret : GroupSpec)
      → AllConsistent names.component_map
      → Consistent ret
      → Gives Consistent (merge_component names name ret)
  unfolding merge_component
  merge_component-Consistent name ret all c =
      let component : GroupSpec = get_or empty_spec name names.component_map in
      let each =
        m_groups-EachConsistent component (get_or-Consistent name names.component_map all) in
      let given =
        own Consistent (m_groups component) (EachConsistent→Each (m_groups component) each) in
      let fields = names.hash_order.field_entries (m_fields component) in
      let entries = names.hash_order.group_entries (m_groups component) in
      Gives-bind Consistent (merge_fields fields ret) _ λ ret' e.
        merge_groups-Consistent entries ret' (Each→EachConsistent entries given)
          (Gives-loaded Consistent e (merge_fields-Consistent fields ret c))

  mutual
    unfolding build_group

    pub build_group-Consistent :
        (n : Node) → AllConsistent names.component_map → Gives Consistent (build_group names n)
    build_group-Consistent (node tag a children) all =
        build_nodes-Consistent children (group_spec [] no_specs a.ordered []) all
          (empty-Consistent a.ordered)

    build_nodes-Consistent :
        (nodes : Nodes) (ret : GroupSpec)
        → AllConsistent names.component_map
        → Consistent ret
        → Gives Consistent (build_nodes names nodes ret)
    build_nodes-Consistent no_nodes ret all c = c
    build_nodes-Consistent (next_node n rest) ret all c =
        Gives-bind Consistent (build_node names n ret) _ λ ret' e.
          build_nodes-Consistent rest ret' all
            (Gives-loaded Consistent e (build_node-Consistent n ret all c))

    build_node-Consistent :
        (n : Node) (ret : GroupSpec)
        → AllConsistent names.component_map
        → Consistent ret
        → Gives Consistent (build_node names n ret)
    build_node-Consistent (node tag a children) ret all c =
        let sub =
          build_nodes-Consistent children (group_spec [] no_specs a.ordered []) all
            (empty-Consistent a.ordered) in
        elim (Bool-cases (strcasecmp_eq tag (codes "component"))) [
          | inl is ↦ rw is (merge_component-Consistent a.name ret all c)
          | inr other ↦ rw other elim (Bool-cases (strcasecmp_eq tag (codes "group"))) [
            | inl is ↦ rw is (place_group-Consistent (get_or 0 a.name names.field_map) _ ret sub c)
            | inr other' ↦ rw other' elim (Bool-cases (strcasecmp_eq tag (codes "field"))) [
              | inl is ↦
                  rw is (insert_field-Consistent (get_or 0 a.name names.field_map) a.required ret c)
              | inr unknown ↦ rw unknown c
            ]
          ]
        ]

change_key-AllConsistent :
    (name : Bytes) (spec : GroupSpec) (m : List (Bytes × GroupSpec))
    → Consistent spec
    → AllConsistent m
    → AllConsistent (change_key empty_spec (λ old. spec) name m)
unfolding change_key
change_key-AllConsistent name spec [] c all = (c, tt)
change_key-AllConsistent name spec ((k, s) ∷ m) c all = elim (Bool-cases (bytes_eq k name)) [
  | inl found ↦ rw found (c, all.1)
  | inr other ↦ rw other (all.0, change_key-AllConsistent name spec m c all.1)
]

build_message-AllConsistent :
    (names : Names) (n : Node) (b : BodySpecs)
    → GivesOwnGroups names.hash_order
    → AllConsistent names.component_map
    → AllConsistent b.specs
    → Gives (λ b'. AllConsistent b'.specs) (build_message names n b)
unfolding build_message
build_message-AllConsistent names (node tag a children) b own all h =
    elim (Bool-cases (is_empty a.message_type)) [
      | inl missing ↦ rw missing tt
      | inr given ↦ rw given elim (Option-cases (find_key a.message_type b.specs)) [
        | inr (old, there) ↦ rw there tt
        | inl new ↦ rw new (
            Gives-bind (λ b'. AllConsistent b'.specs) (build_group names (node tag a children)) _
              λ spec e. All-append _ b.specs _ h (
                Gives-loaded Consistent e
                    (build_group-Consistent names own (node tag a children) all),
                tt,
              ))
      ]
    ]

build_messages-AllConsistent :
    (names : Names) (nodes : Nodes) (b : BodySpecs)
    → GivesOwnGroups names.hash_order
    → AllConsistent names.component_map
    → AllConsistent b.specs
    → Gives (λ b'. AllConsistent b'.specs) (build_messages names nodes b)
unfolding build_messages
build_messages-AllConsistent names no_nodes b own all h = h
build_messages-AllConsistent names (next_node n rest) b own all h =
    Gives-bind (λ b'. AllConsistent b'.specs) (build_message names n b) _
      λ mid e. build_messages-AllConsistent names rest mid own all (
        Gives-loaded (λ b'. AllConsistent b'.specs) e
          (build_message-AllConsistent names n b own all h))

-- The specs of a dictionary.
abbrev pub HasConsistentSpecs : Dictionary → Type 0
HasConsistentSpecs d =
    Consistent d.header_spec × Consistent d.trailer_spec × AllConsistent d.body_specs

module _ (o : HashOrder) (own : GivesOwnGroups o) where
  build_components-AllConsistent :
      (fields : List (Bytes × ℕ)) (xml : List (Bytes × Node)) (sorted : List Bytes)
      (components : List (Bytes × GroupSpec))
      → AllConsistent components
      → Gives AllConsistent (build_components o fields xml sorted components)
  unfolding build_components
  build_components-AllConsistent fields xml [] components all = all
  build_components-AllConsistent fields xml (name ∷ sorted) components all =
      let names : Names = record {
        hash_order = o;
        field_map = fields;
        component_map = components;
      } in
      Gives-bind AllConsistent (build_group names _) _ λ spec e.
        build_components-AllConsistent fields xml sorted
          (change_key empty_spec (λ old. spec) name components)
          (change_key-AllConsistent name spec components
            (Gives-loaded Consistent e (build_group-Consistent names own _ all)) all)

  build_dictionary-HasConsistentSpecs :
      (t : FieldTables) (c : Components) (sorted : List Bytes) (fix : Fix) (header trailer : Node)
      → Gives HasConsistentSpecs (build_dictionary o t c sorted fix header trailer)
  unfolding build_dictionary
  build_dictionary-HasConsistentSpecs t c sorted fix header trailer =
      Gives-bind HasConsistentSpecs (build_components o t.field_map c.xml (reverse sorted) []) _
        λ components e.
          let all =
            Gives-loaded AllConsistent e
              (build_components-AllConsistent t.field_map c.xml (reverse sorted) [] tt) in
          let names : Names = record {
            hash_order = o;
            field_map = t.field_map;
            component_map = components;
          } in
          Gives-bind HasConsistentSpecs (build_group names header) _ λ header_spec e₁.
            Gives-bind HasConsistentSpecs (build_group names trailer) _ λ trailer_spec e₂.
              Gives-bind HasConsistentSpecs (build_messages names fix.messages no_bodies) _
                λ bodies e₃. (
                  Gives-loaded Consistent e₁ (build_group-Consistent names own header all),
                  Gives-loaded Consistent e₂ (build_group-Consistent names own trailer all),
                  Gives-loaded (λ b. AllConsistent b.specs) e₃
                      (build_messages-AllConsistent names fix.messages no_bodies own all tt),
                )

  load_document-HasConsistentSpecs :
      (fix : Fix) (header trailer : Node)
      → Gives HasConsistentSpecs (load_document o fix header trailer)
  unfolding load_document
  load_document-HasConsistentSpecs fix header trailer =
      Gives-bind HasConsistentSpecs (load_fields fix.fields no_fields) _ λ t _.
        Gives-bind HasConsistentSpecs (first_pass fix.components no_components) _ λ c _.
          Gives-bind HasConsistentSpecs (second_pass t.field_map c.xml fix.components c.graph) _
            λ graph _.
              Gives-bind HasConsistentSpecs (toposort o graph) _
                λ sorted _. build_dictionary-HasConsistentSpecs t c sorted fix header trailer

-- Where a hash map gives no group that it does not have, each spec of a dictionary that is loaded
-- from a document, of the header, the trailer, a message or a group at any depth, has no two
-- entries for a tag among its fields, none among its groups, and its order names each tag as often
-- as there are entries for it in the two together, and no other tag.
pub load_fix-HasConsistentSpecs :
    (o : HashOrder)
    → GivesOwnGroups o
    → (doc : Option Fix) → Gives HasConsistentSpecs (load_fix o doc)
unfolding load_fix
load_fix-HasConsistentSpecs o own none = tt
load_fix-HasConsistentSpecs o own (some fix) = elim (Option-cases fix.header) [
  | inl absent ↦ rw absent tt
  | inr (header, h) ↦ rw h elim (Option-cases fix.trailer) [
    | inl absent ↦ rw absent tt
    | inr (trailer, t) ↦ rw t (load_document-HasConsistentSpecs o own fix header trailer)
  ]
]
