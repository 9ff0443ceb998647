-- ===== src/Dictionary/Load/Lookups.antt =====
-- The two lookups of message types in a dictionary that DictionaryRegistry::load has loaded.
use openfix.Prelude.{
  ℕ, true, Option, none, some, List, [], ◌∷◌, ◌++◌, ltb, if◌then◌else◌, Bytes, is_empty, bytes_eq,
  bytes_eq→eq, bytes_eq_refl, All, All-append, ◌≡◌, inl, inr, refl, ◌∙◌, sym, arith, Bool-cases,
  Option-cases,
}
use mathlib.Core.Path.{subst}
use mathlib.Core.List.{reverse}
use openfix.Message.{GroupSpec}
use openfix.Dictionary.{Dictionary, find_key, get_message_spec, get_message_spec_raw}
use openfix.Dictionary.Load.{
  Node, node, Nodes, no_nodes, next_node, Fix, Gives, Gives-bind, Gives-loaded, HashOrder,
}
use openfix.Dictionary.Load.Graph.{
  FieldTables, Components, no_fields, load_fields, no_components, first_pass, second_pass, toposort,
}
use openfix.Dictionary.Load.Build.{Names, build_group, build_components}
use openfix.Dictionary.Load.Registry.{
  dictionary, set_fast, BodySpecs, no_bodies, add_body, build_message, build_messages,
  build_dictionary, load_document, load_fix, load,
}

-- The array says of each short type what the map says.
abbrev pub Mirrors : (ℕ → Option GroupSpec) → List (Bytes × GroupSpec) → Type 0
Mirrors fast specs = (c : ℕ) → ltb c 128 ≡ true → fast c ≡ find_key (c ∷ []) specs

find_key-append :
    (key type : Bytes) (spec : GroupSpec) (specs : List (Bytes × GroupSpec))
    → find_key type specs ≡ none
    → find_key key (specs ++ (type, spec) ∷ [])
      ≡ (if bytes_eq type key then some spec else find_key key specs)
unfolding find_key
find_key-append key type spec [] h = refl
find_key-append key type spec ((k, s) ∷ specs) h = ground (
  arith,
  find_key-append key type spec specs,
  bytes_eq→eq k key,
  bytes_eq→eq type key,
  bytes_eq_refl key,
)

set_fast-Mirrors :
    (type : Bytes) (spec : GroupSpec) (b : BodySpecs)
    → find_key type b.specs ≡ none
    → Mirrors b.fast b.specs
    → Mirrors (add_body type spec b).fast (add_body type spec b).specs
unfolding set_fast bytes_eq
set_fast-Mirrors [] spec b h m c l = m c l ∙ sym (find_key-append (c ∷ []) [] spec b.specs h)
set_fast-Mirrors (t ∷ []) spec b h m c l =
    ground (arith, m c l, find_key-append (c ∷ []) (t ∷ []) spec b.specs h)
set_fast-Mirrors (t ∷ u ∷ ts) spec b h m c l =
    ground (arith, m c l, find_key-append (c ∷ []) (t ∷ u ∷ ts) spec b.specs h)

abbrev IsFaithful : BodySpecs → Type 0
IsFaithful b = Mirrors b.fast b.specs

build_message-IsFaithful :
    (names : Names) (n : Node) (b : BodySpecs)
    → IsFaithful b
    → Gives IsFaithful (build_message names n b)
unfolding build_message
build_message-IsFaithful names (node tag a children) b m =
    elim (Bool-cases (is_empty a.message_type)) [
      | inl missing ↦ rw missing tt
      | inr given ↦ rw given elim (Option-cases (find_key a.message_type b.specs)) [
        | inl new ↦ rw new (
            Gives-bind IsFaithful (build_group names (node tag a children)) _
              (λ spec _. set_fast-Mirrors a.message_type spec b new m))
        | inr (old, there) ↦ rw there tt
      ]
    ]

build_messages-IsFaithful :
    (names : Names) (nodes : Nodes) (b : BodySpecs)
    → IsFaithful b
    → Gives IsFaithful (build_messages names nodes b)
unfolding build_messages
build_messages-IsFaithful names no_nodes b m = m
build_messages-IsFaithful names (next_node n rest) b m =
    Gives-bind IsFaithful (build_message names n b) _ λ mid e.
      build_messages-IsFaithful names rest mid
        (Gives-loaded IsFaithful e (build_message-IsFaithful names n b m))

-- Both lookups give what the map of the dictionary has.
abbrev pub Agrees : Dictionary → Type 0
Agrees d =
    (type : Bytes)
    → (get_message_spec d type ≡ find_key type d.body_specs)
      × (get_message_spec_raw d type ≡ find_key type d.body_specs)

Mirrors→Agrees : (d : Dictionary) → Mirrors d.body_specs_fast d.body_specs → Agrees d
unfolding get_message_spec get_message_spec_raw
Mirrors→Agrees d m [] = (refl, refl)
Mirrors→Agrees d m (c ∷ []) = (ground (arith, m c), ground (arith, m c))
Mirrors→Agrees d m (c ∷ c' ∷ cs) = (refl, refl)

build_dictionary-Agrees :
    (o : HashOrder) (t : FieldTables) (c : Components) (sorted : List Bytes) (fix : Fix)
    (header trailer : Node)
    → Gives Agrees (build_dictionary o t c sorted fix header trailer)
unfolding build_dictionary
build_dictionary-Agrees o t c sorted fix header trailer =
    Gives-bind Agrees (build_components o t.field_map c.xml (reverse sorted) []) _ λ components _.
      let names : Names = record {
        hash_order = o;
        field_map = t.field_map;
        component_map = components;
      } in
      Gives-bind Agrees (build_group names header) _ λ header_spec _.
        Gives-bind Agrees (build_group names trailer) _ λ trailer_spec _.
          Gives-bind Agrees (build_messages names fix.messages no_bodies) _ λ bodies e.
            Mirrors→Agrees (dictionary t header_spec trailer_spec bodies) (
              Gives-loaded IsFaithful e
                (build_messages-IsFaithful names fix.messages no_bodies (λ c l. refl)))

load_document-Agrees :
    (o : HashOrder) (fix : Fix) (header trailer : Node)
    → Gives Agrees (load_document o fix header trailer)
unfolding load_document
load_document-Agrees o fix header trailer =
    Gives-bind Agrees (load_fields fix.fields no_fields) _ λ t _.
      Gives-bind Agrees (first_pass fix.components no_components) _ λ c _.
        Gives-bind Agrees (second_pass t.field_map c.xml fix.components c.graph) _ λ graph _.
          Gives-bind Agrees (toposort o graph) _
            λ sorted _. build_dictionary-Agrees o t c sorted fix header trailer

load_fix-Agrees : (o : HashOrder) (doc : Option Fix) → Gives Agrees (load_fix o doc)
unfolding load_fix
load_fix-Agrees o none = tt
load_fix-Agrees o (some fix) = elim (Option-cases fix.header) [
  | inl absent ↦ rw absent tt
  | inr (header, h) ↦ rw h elim (Option-cases fix.trailer) [
    | inl absent ↦ rw absent tt
    | inr (trailer, t) ↦ rw t (load_document-Agrees o fix header trailer)
  ]
]

abbrev AllAgree : List (Bytes × Dictionary) → Type 0
AllAgree = All (λ e. Agrees e.1)

find_key-AllAgree :
    (path : Bytes) (m : List (Bytes × Dictionary)) (d : Dictionary)
    → AllAgree m
    → find_key path m ≡ some d
    → Agrees d
unfolding find_key
find_key-AllAgree path [] d h e = ground (arith, e)
find_key-AllAgree path ((k, x) ∷ m) d h e = elim (Bool-cases (bytes_eq k path)) [
  | inl found ↦ subst Agrees (ground (arith, e, found)) h.0
  | inr other ↦ find_key-AllAgree path m d h.1 (ground (arith, e, other))
]

-- In a registry where both lookups of message types, the one with and the one without the fall-back
-- to the map, give for every dictionary and type what the map of the messages has, the dictionary
-- that load gives is such a one, whichever the document and the order of the hash maps are, and so
-- are all dictionaries of the registry afterwards.
pub load-Agrees :
    (load_file : Bytes → Option Fix) (o : HashOrder) (path : Bytes)
    (m_dictionaries : List (Bytes × Dictionary))
    → All (λ e. Agrees e.1) m_dictionaries
    → Gives (λ r. Agrees r.0 × All (λ e. Agrees e.1) r.1) (load load_file o path m_dictionaries)
unfolding load
load-Agrees load_file o path m_dictionaries old =
    elim (Option-cases (find_key path m_dictionaries)) [
      | inl new ↦
          rw (new, load)
            (Gives-bind (λ r. Agrees r.0 × All (λ e. Agrees e.1) r.1) (load_fix o (load_file path))
              _
              λ dict e.
                let agrees = Gives-loaded Agrees e (load_fix-Agrees o (load_file path)) in
                (agrees, All-append _ m_dictionaries _ old (agrees, tt)))
      | inr (dict, there) ↦
          rw (there, load) (find_key-AllAgree path m_dictionaries dict old there, old)
    ]
