-- ===== src/Dictionary/Load/Registry.antt =====
-- DictionaryRegistry::load of src/Dictionary.cpp: the messages, and the whole of it.
use openfix.Prelude.{
  ℕ, Option, none, some, List, [], ◌∷◌, ◌++◌, ◌==◌, ltb, if◌then◌else◌, Bytes, is_empty,
}
use mathlib.Core.List.{reverse}
use openfix.Message.{GroupSpec}
use openfix.Dictionary.{Dictionary, find_key}
use openfix.Dictionary.Load.{
  Node, node, Nodes, no_nodes, next_node, Fix, LoadError, Loading, loaded, failed, ◌>>=◌, HashOrder,
}
use openfix.Dictionary.Load.Graph.{
  FieldTables, no_fields, load_fields, Components, no_components, first_pass, second_pass, toposort,
}
use openfix.Dictionary.Load.Build.{Names, build_group, build_components}

-- `m_bodySpecsFast[c] = spec` for a type of one character.
unfoldable pub set_fast : Bytes → GroupSpec → (ℕ → Option GroupSpec) → ℕ → Option GroupSpec
set_fast (c ∷ []) spec fast n = if ltb c 128 then (if n == c then some spec else fast n) else fast n
set_fast _ spec fast n = fast n

-- `m_bodySpecs` and `m_bodySpecsFast`.
pub record BodySpecs : Type 0 where
  pub specs : List (Bytes × GroupSpec)
  pub fast : ℕ → Option GroupSpec

abbrev pub no_bodies : BodySpecs
no_bodies = record { specs = []; fast = λ n. none }

abbrev pub add_body : Bytes → GroupSpec → BodySpecs → BodySpecs
add_body type spec b = record {
  specs = b.specs ++ (type, spec) ∷ [];
  fast = set_fast type spec b.fast;
}

-- One round of the loop over the messages, and the loop.
unfoldable pub build_message : Names → Node → BodySpecs → Loading BodySpecs
unfolding build_group find_key
build_message names (node tag a children) b =
    if is_empty a.message_type
    then failed LoadError.msg_type_missing
    else elim (find_key a.message_type b.specs) [
      | some old ↦ failed LoadError.redefinition_of_message
      | none ↦ build_group names (node tag a children) >>= λ spec.
          loaded (add_body a.message_type spec b)
    ]

unfoldable pub build_messages : Names → Nodes → BodySpecs → Loading BodySpecs
unfolding build_message
build_messages names no_nodes b = loaded b
build_messages names (next_node n rest) b = do
  b' ← build_message names n b
  build_messages names rest b'

abbrev pub dictionary : FieldTables → GroupSpec → GroupSpec → BodySpecs → Dictionary
dictionary t header trailer b = record {
  header_spec = header;
  trailer_spec = trailer;
  body_specs = b.specs;
  body_specs_fast = b.fast;
  field_types = t.field_types;
  fields_fallback = t.fields_fallback;
}

-- The specs of the header, of the trailer and of the messages, from the sorted components.
unfoldable pub build_dictionary :
    HashOrder → FieldTables → Components → List Bytes → Fix → Node → Node → Loading Dictionary
unfolding build_group build_components build_messages
build_dictionary o t c sorted fix header trailer = do
  components ← build_components o t.field_map c.xml (reverse sorted) []
  let names : Names = record { hash_order = o; field_map = t.field_map; component_map = components }
  header_spec ← build_group names header
  trailer_spec ← build_group names trailer
  bodies ← build_messages names fix.messages no_bodies
  loaded (dictionary t header_spec trailer_spec bodies)

-- A document that could be read.
unfoldable pub load_document : HashOrder → Fix → Node → Node → Loading Dictionary
unfolding load_fields first_pass second_pass toposort build_dictionary
load_document o fix header trailer = do
  t ← load_fields fix.fields no_fields
  c ← first_pass fix.components no_components
  graph ← second_pass t.field_map c.xml fix.components c.graph
  sorted ← toposort o graph
  build_dictionary o t c sorted fix header trailer

unfoldable pub load_fix : HashOrder → Option Fix → Loading Dictionary
unfolding load_document
load_fix o none = failed LoadError.unable_to_load
load_fix o (some fix) = elim fix.header [
  | none ↦ failed LoadError.missing_header
  | some header ↦ elim fix.trailer [
    | none ↦ failed LoadError.missing_trailer
    | some trailer ↦ load_document o fix header trailer
  ]
]

-- DictionaryRegistry::load with `m_dictionaries`; `load_file` reads a document.
unfoldable pub load :
    (Bytes → Option Fix)
    → HashOrder
    → Bytes
    → List (Bytes × Dictionary)
    → Loading (Dictionary × List (Bytes × Dictionary))
unfolding load_fix find_key
load load_file o path m_dictionaries = elim (find_key path m_dictionaries) [
  | some dict ↦ loaded (dict, m_dictionaries)
  | none ↦
      load_fix o (load_file path) >>= λ dict. loaded (dict, m_dictionaries ++ (path, dict) ∷ [])
]
