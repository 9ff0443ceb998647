-- ===== src/Tests/Load.antt =====
-- A document with two components, loaded by the model of src/Dictionary.cpp.
use openfix.Prelude.{
  ℕ, false, Option, none, some, List, [], ◌∷◌, Bytes, codes, bytes_eq, String, All, ◌≡◌, ◌≢◌, refl,
}
use openfix.Message.{GroupSpec, group_spec, no_specs, sub_spec}
use openfix.Dictionary.{Dictionary, get_message_spec}
use openfix.Dictionary.Load.{
  Attributes, Node, node, Nodes, no_nodes, next_node, Fix, LoadError, Loading, loaded, failed,
  Gives, HashOrder,
}
use openfix.Dictionary.Load.Graph.{Components, no_components, first_pass, second_pass, toposort}
use openfix.Dictionary.Load.Registry.{set_fast, load_fix, load}
use openfix.Dictionary.Load.Lookups.{Agrees, load-Agrees}
use openfix.Dictionary.Load.Consistent.Loaded.{HasConsistentSpecs, load_fix-HasConsistentSpecs}
use openfix.Dictionary.Load.Sorted.{GivesEntriesOnce}
use openfix.Dictionary.Load.Sorted.Complete.{IsComplete}
use openfix.Dictionary.Load.Sorted.References.{IsBehindReferring}
use openfix.Dictionary.Load.Sorted.Passes.{passes-IsComplete}

-- Hash maps that give their entries in the order of insertion.
abbrev insertion_order : HashOrder
insertion_order = record {
  field_entries = λ l. l;
  group_entries = λ l. l;
  graph_entries = λ l. l;
  degree_entries = λ l. l;
  name_entries = λ l. l;
}

abbrev named : String → Attributes
named name = record {
  name = codes name;
  type = [];
  message_type = [];
  number = none;
  required = false;
  ordered = false;
}

abbrev field_node : String → Nodes → Nodes
field_node name = next_node (node (codes "field") (named name) no_nodes)

abbrev component_ref : String → Nodes → Nodes
component_ref name = next_node (node (codes "Component") (named name) no_nodes)

abbrev definition : String → ℕ → String → Nodes → Nodes
definition name number type = next_node (
    node (codes "field") (record (named name) { type = codes type; number = some number }) no_nodes)

abbrev fields : Nodes
fields = definition "Symbol" 55 "STRING" (
    definition "NoLegs" 555 "NUMINGROUP" (
      definition "LegQty" 687 "QTY"
        (definition "MsgType" 35 "STRING" (definition "CheckSum" 10 "STRING" no_nodes))))

-- "Legs" refers to "Leg", which comes first.
abbrev components : Nodes
components = next_node (node (codes "component") (named "Leg") (field_node "LegQty" no_nodes)) (
    next_node
      (node (codes "component") (named "Legs")
        (next_node (node (codes "group") (named "NoLegs") (component_ref "Leg" no_nodes)) no_nodes))
      no_nodes)

abbrev order_message : Node
order_message =
    node (codes "message") (record (named "Order") { message_type = codes "D" })
      (field_node "Symbol" (component_ref "Legs" no_nodes))

abbrev document : Fix
document = record {
  header = some (node (codes "header") (named "") (field_node "MsgType" no_nodes));
  trailer = some (node (codes "trailer") (named "") (field_node "CheckSum" no_nodes));
  fields = fields;
  components = components;
  messages = next_node order_message no_nodes;
}

abbrev body_of : Loading Dictionary → Option GroupSpec
body_of (loaded d) = get_message_spec d (codes "D")
body_of (failed e) = none

body_of_order :
    body_of (load_fix insertion_order (some document))
    ≡ some (
        group_spec
          ((55, false) ∷ [])
          (sub_spec 555 (group_spec ((687, false) ∷ []) no_specs false (687 ∷ [])) no_specs)
          false
          (55 ∷ 555 ∷ []))
unfolding load_fix get_message_spec bytes_eq set_fast
body_of_order = refl

abbrev names : List (Bytes × ℕ)
names = (codes "LegQty", 687) ∷ (codes "NoLegs", 555) ∷ []

abbrev read_components : Components
read_components = record {
  xml =
      (codes "Leg", node (codes "component") (named "Leg") (field_node "LegQty" no_nodes))
      ∷ (
        codes "Legs",
        node (codes "component") (named "Legs") (
            next_node (node (codes "group") (named "NoLegs") (component_ref "Leg" no_nodes))
              no_nodes),
      )
      ∷ [];
  graph = (codes "Leg", []) ∷ (codes "Legs", []) ∷ [];
}

abbrev read_graph : List (Bytes × List Bytes)
read_graph = (codes "Leg", []) ∷ (codes "Legs", codes "Leg" ∷ []) ∷ []

first_pass_run : first_pass components no_components ≡ loaded read_components
unfolding first_pass bytes_eq
first_pass_run = refl

second_pass_run :
    second_pass names read_components.xml components read_components.graph ≡ loaded read_graph
unfolding second_pass bytes_eq
second_pass_run = refl

toposort_run : toposort insertion_order read_graph ≡ loaded (codes "Legs" ∷ codes "Leg" ∷ [])
unfolding toposort bytes_eq
toposort_run = refl

toposort_cycle :
    toposort insertion_order ((codes "A", codes "B" ∷ []) ∷ (codes "B", codes "A" ∷ []) ∷ [])
    ≡ failed LoadError.component_cycle
unfolding toposort bytes_eq
toposort_cycle = refl

insertion_order-GivesEntriesOnce : GivesEntriesOnce insertion_order
insertion_order-GivesEntriesOnce = record {
  names = λ f l. refl;
  graph = λ f l. refl;
  degrees = λ f l. refl;
}

load-Agrees_example :
    Gives
      (λ r. Agrees r.0 × All (λ e. Agrees e.1) r.1)
      (load (λ path. some document) insertion_order (codes "fix.xml") [])
load-Agrees_example = load-Agrees (λ path. some document) insertion_order (codes "fix.xml") [] tt

load_fix-HasConsistentSpecs_example :
    Gives HasConsistentSpecs (load_fix insertion_order (some document))
load_fix-HasConsistentSpecs_example =
    load_fix-HasConsistentSpecs insertion_order (λ P subs h. h) (some document)

passes-IsComplete_example :
    Gives
      (λ sorted. IsComplete read_graph sorted × IsBehindReferring components sorted)
      (toposort insertion_order read_graph)
    × (toposort insertion_order read_graph ≢ failed LoadError.stuck)
passes-IsComplete_example =
    passes-IsComplete insertion_order names components read_components read_graph
      insertion_order-GivesEntriesOnce first_pass_run second_pass_run
