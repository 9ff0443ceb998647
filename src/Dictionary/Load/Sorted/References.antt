-- ===== src/Dictionary/Load/Sorted/References.antt =====
-- The references between the components of a document, and those that the second pass of
-- DictionaryRegistry::load of src/Dictionary.cpp records.
use openfix.Prelude.{
  ℕ, ◌≤◌, ◌<◌, Bool, true, false, ◌||◌, ◌&&◌, List, [], ◌∷◌, ◌++◌, if◌then◌else◌, Bytes, codes,
  bytes_eq, bytes_eq→eq, bytes_eq_refl, is_empty, ◌≡◌, inl, inr, arith, Bool-cases, append-nil,
  append_assoc,
}
use mathlib.Core.Path.{subst}
use openfix.Dictionary.Load.{
  Node, node, Nodes, no_nodes, next_node, Loading, loaded, failed, Gives, Gives-bind, Gives-loaded,
  Gives-unless, Gives-when, strcasecmp_eq,
}
use openfix.Dictionary.Load.Graph.{
  has_key, change_key, mem_name, insert_name, add_reference, check_component, check_field,
  validate_nodes, validate_node, Components, first_pass, second_pass,
}
use openfix.Dictionary.Load.Sorted.{total, total-append, refs, remaining, IsSorted}

-- Whether nodes have a component of the name among them, also in groups at any depth.
unfoldable mutual
  unfolding strcasecmp_eq bytes_eq

  pub refers_in : Bytes → Nodes → Bool
  refers_in name no_nodes = false
  refers_in name (next_node n rest) = refers_to name n || refers_in name rest

  pub refers_to : Bytes → Node → Bool
  refers_to name (node tag a children) =
      let inner = refers_in name children in
      if strcasecmp_eq tag (codes "component")
      then bytes_eq a.name name
      else strcasecmp_eq tag (codes "group") && inner

-- Whether a component of a document has a reference to another one.
unfoldable pub component_refers : Bytes → Bytes → Nodes → Bool
unfolding refers_in
component_refers parent name no_nodes = false
component_refers parent name (next_node (node tag a children) rest) =
    (bytes_eq a.name parent && refers_in name children) || component_refers parent name rest

-- Each component stands behind those of the document that have a reference to it.
pub record IsBehindReferring (nodes : Nodes) (sorted : List Bytes) : Type 0 where
  pub behind :
      (parent name : Bytes) (front back : List Bytes)
      → component_refers parent name nodes ≡ true
      → sorted ≡ front ++ name ∷ back
      → mem_name parent front ≡ true

pub Gives-map {ℓ κ} :
    {A : Type ℓ} (P Q : A → Type κ) (m : Loading A) → ((a : A) → P a → Q a) → Gives P m → Gives Q m
Gives-map P Q (loaded a) f h = f a h
Gives-map P Q (failed e) f h = tt

-- How many references from one component to another a graph has.
edge : Bytes → Bytes → List (Bytes × List Bytes) → ℕ
edge parent name = total (λ e. if bytes_eq e.0 parent then refs name e.1 else 0)

refs-insert_name_mono :
    (v name : Bytes) (names : List Bytes) → refs v names ≤ refs v (insert_name name names)
unfolding insert_name total
refs-insert_name_mono v name names =
    ground (arith, total-append (λ x. if bytes_eq x v then 1 else 0) names (name ∷ []))

mem_name-refs :
    (name : Bytes) (names : List Bytes) → mem_name name names ≡ true → 0 < refs name names
unfolding mem_name total
mem_name-refs name [] h = ground (arith, h)
mem_name-refs name (x ∷ xs) h = ground (arith, mem_name-refs name xs, h)

refs-insert_name_new : (name : Bytes) (names : List Bytes) → 0 < refs name (insert_name name names)
unfolding insert_name total
refs-insert_name_new name names = ground (
  arith,
  mem_name-refs name names,
  total-append (λ x. if bytes_eq x name then 1 else 0) names (name ∷ []),
  bytes_eq_refl name,
)

edge-change_key :
    (parent v key name : Bytes) (graph : List (Bytes × List Bytes))
    → edge parent v graph ≤ edge parent v (change_key [] (insert_name name) key graph)
unfolding edge change_key total
edge-change_key parent v key name [] = omega arith
edge-change_key parent v key name ((k, cs) ∷ graph) =
    ground (arith, refs-insert_name_mono v name cs, edge-change_key parent v key name graph)

edge-new :
    (parent name : Bytes) (graph : List (Bytes × List Bytes))
    → 0 < edge parent name (change_key [] (insert_name name) parent graph)
unfolding edge change_key total
edge-new parent name [] = ground (arith, bytes_eq_refl parent, refs-insert_name_new name [])
edge-new parent name ((k, cs) ∷ graph) =
    ground (arith, refs-insert_name_new name cs, edge-new parent name graph)

-- What a part of the second pass leaves of a graph: no reference is lost, and those that are to be
-- found are recorded.
record Recorded (parent : Bytes) (finds : Bytes → Bool) (g h : List (Bytes × List Bytes))
    : Type 0 where
  kept : (p v : Bytes) → edge p v g ≤ edge p v h
  found : (name : Bytes) → finds name ≡ true → 0 < edge parent name h

Recorded-same :
    (parent : Bytes) (g : List (Bytes × List Bytes)) → Recorded parent (λ name. false) g g
Recorded-same parent g = record { kept = λ p v. omega arith; found = λ name h. absurd cc }

Recorded-both :
    (parent : Bytes) (a b : Bytes → Bool) (g h i : List (Bytes × List Bytes))
    → Recorded parent a g h
    → Recorded parent b h i
    → Recorded parent (λ name. a name || b name) g i
Recorded-both parent a b g h i r q = record {
  kept = λ p v. omega (arith, r.kept p v, q.kept p v);
  found = λ name e. elim (Bool-cases (a name)) [
    | inl here ↦ omega (arith, r.found name here, q.kept parent name)
    | inr other ↦ q.found name (ground (arith, e, other))
  ];
}

add_reference-Recorded :
    (parent name : Bytes) (graph : List (Bytes × List Bytes))
    → is_empty parent ≡ false
    → Recorded parent (bytes_eq name) graph (add_reference parent name graph)
unfolding add_reference
add_reference-Recorded parent name graph named = rw named (record {
  kept = λ p v. edge-change_key p v parent name graph;
  found = λ v e.
      subst (λ x. 0 < edge parent x (change_key [] (insert_name name) parent graph))
        (bytes_eq→eq name v e) (edge-new parent name graph);
})

module _ (fields : List (Bytes × ℕ)) (xml : List (Bytes × Node)) (parent : Bytes)
    (named : is_empty parent ≡ false) where
  mutual
    unfolding validate_nodes validate_node check_component check_field refers_in refers_to

    validate_nodes-Recorded :
        (nodes : Nodes) (graph : List (Bytes × List Bytes))
        → Gives
            (Recorded parent (λ name. refers_in name nodes) graph)
            (validate_nodes fields xml parent nodes graph)
    validate_nodes-Recorded no_nodes graph = Recorded-same parent graph
    validate_nodes-Recorded (next_node n rest) graph =
        Gives-bind (Recorded parent (λ name. refers_in name (next_node n rest)) graph)
          (validate_node fields xml parent n graph) _
          λ graph' e.
            Gives-map (Recorded parent (λ name. refers_in name rest) graph')
              (Recorded parent (λ name. refers_in name (next_node n rest)) graph) _
              (λ graph'' q.
                Recorded-both parent (λ name. refers_to name n) (λ name. refers_in name rest) graph
                  graph' graph''
                  (Gives-loaded (Recorded parent (λ name. refers_to name n) graph) e
                    (validate_node-Recorded n graph))
                  q)
              (validate_nodes-Recorded rest graph')

    validate_node-Recorded :
        (n : Node) (graph : List (Bytes × List Bytes))
        → Gives
            (Recorded parent (λ name. refers_to name n) graph)
            (validate_node fields xml parent n graph)
    validate_node-Recorded (node tag a children) graph =
        let inner = validate_nodes-Recorded children graph in
        elim (Bool-cases (strcasecmp_eq tag (codes "component"))) [
          | inl is ↦ rw is (
              Gives-unless (Recorded parent (bytes_eq a.name) graph) (is_empty a.name) _ _ λ n.
                Gives-when (Recorded parent (bytes_eq a.name) graph) (has_key a.name xml) _ _
                  λ there. add_reference-Recorded parent a.name graph named)
          | inr other ↦ rw other elim (Bool-cases (strcasecmp_eq tag (codes "group"))) [
            | inl is ↦ rw is (
                Gives-unless (Recorded parent (λ name. refers_in name children) graph)
                  (is_empty a.name) _ _
                  λ n.
                    Gives-when (Recorded parent (λ name. refers_in name children) graph)
                      (has_key a.name fields) _ _ λ there. inner)
            | inr other' ↦ rw other' elim (Bool-cases (strcasecmp_eq tag (codes "field"))) [
              | inl is ↦ rw is (
                  Gives-unless (Recorded parent (λ name. false) graph) (is_empty a.name) _ _ λ n.
                    Gives-when (Recorded parent (λ name. false) graph) (has_key a.name fields) _ _
                      λ there. Recorded-same parent graph)
              | inr unknown ↦ rw unknown (Recorded-same parent graph)
            ]
          ]
        ]

-- The first pass lets no component without a name pass.
AllNamed : Nodes → Type 0
AllNamed no_nodes = Unit
AllNamed (next_node (node tag a children) rest) = (is_empty a.name ≡ false) × AllNamed rest

first_pass-AllNamed :
    (nodes : Nodes) (c : Components) → Gives (λ c'. AllNamed nodes) (first_pass nodes c)
unfolding first_pass AllNamed
first_pass-AllNamed no_nodes c = tt
first_pass-AllNamed (next_node (node tag a children) rest) c =
    Gives-unless (λ c'. (is_empty a.name ≡ false) × AllNamed rest) (is_empty a.name) _ _
      λ named.
        Gives-unless (λ c'. (is_empty a.name ≡ false) × AllNamed rest) (has_key a.name c.xml) _ _
          λ new.
            Gives-map (λ c'. AllNamed rest) (λ c'. (is_empty a.name ≡ false) × AllNamed rest) _
              (λ c' all. (named, all)) (first_pass-AllNamed rest _)

-- After the second pass, every reference of the document is in the graph.
record HasReferences (nodes : Nodes) (g h : List (Bytes × List Bytes)) : Type 0 where
  kept : (p v : Bytes) → edge p v g ≤ edge p v h
  found : (p v : Bytes) → component_refers p v nodes ≡ true → 0 < edge p v h

second_pass-HasReferences :
    (fields : List (Bytes × ℕ)) (xml : List (Bytes × Node)) (nodes : Nodes)
    (graph : List (Bytes × List Bytes))
    → AllNamed nodes
    → Gives (HasReferences nodes graph) (second_pass fields xml nodes graph)
unfolding second_pass AllNamed component_refers
second_pass-HasReferences fields xml no_nodes graph all = record {
  kept = λ p v. omega arith;
  found = λ p v h. absurd cc;
}
second_pass-HasReferences fields xml (next_node (node tag a children) rest) graph all =
    Gives-bind (HasReferences (next_node (node tag a children) rest) graph)
      (validate_nodes fields xml a.name children graph) _
      λ graph' e.
        let r =
          Gives-loaded (Recorded a.name (λ name. refers_in name children) graph) e
            (validate_nodes-Recorded fields xml a.name all.0 children graph) in
        Gives-map (HasReferences rest graph')
          (HasReferences (next_node (node tag a children) rest) graph) _
          (λ graph'' q. record {
            kept = λ p v. omega (arith, r.kept p v, q.kept p v);
            found = λ p v h. elim (Bool-cases (bytes_eq a.name p && refers_in v children)) [
              | inl mine ↦
                  let here = r.found v (ground (arith, mine)) in
                  let later = q.kept a.name v in
                  subst (λ x. 0 < edge x v graph'') (bytes_eq→eq a.name p (ground (arith, mine)))
                    (omega (arith, here, later))
              | inr other ↦ q.found p v (ground (arith, h, other))
            ];
          })
          (second_pass-HasReferences fields xml rest graph' all.1)

-- What has no references from components that are not before it is behind all that refer to it.
edge-before :
    (parent v : Bytes) (graph : List (Bytes × List Bytes)) (before : List Bytes)
    → remaining v graph before ≡ 0
    → 0 < edge parent v graph
    → mem_name parent before ≡ true
unfolding edge total
edge-before parent v [] before none some = absurd (omega (arith, some))
edge-before parent v ((k, cs) ∷ graph) before none some = elim (Bool-cases (bytes_eq k parent)) [
  | inr other ↦
      edge-before parent v graph before (ground (arith, none)) (ground (arith, some, other))
  | inl is ↦ elim (Bool-cases (mem_name k before)) [
    | inl there ↦ subst (λ x. mem_name x before ≡ true) (bytes_eq→eq k parent is) there
    | inr absent ↦
        edge-before parent v graph before (ground (arith, none))
          (ground (arith, some, none, absent, is))
  ]
]

IsSorted-remaining :
    (graph : List (Bytes × List Bytes)) (before front back : List Bytes) (name : Bytes)
    → IsSorted graph before (front ++ name ∷ back)
    → remaining name graph (before ++ front) ≡ 0
IsSorted-remaining graph before [] back name h = rw (append-nil before) h.0
IsSorted-remaining graph before (x ∷ front) back name h =
    subst (λ l. remaining name graph l ≡ 0) (append_assoc before (x ∷ []) front)
      (IsSorted-remaining graph (before ++ x ∷ []) front back name h.1)

pub sorted-IsBehindReferring :
    (fields : List (Bytes × ℕ)) (nodes : Nodes) (start c : Components)
    (graph : List (Bytes × List Bytes)) (sorted : List Bytes)
    → first_pass nodes start ≡ loaded c
    → second_pass fields c.xml nodes c.graph ≡ loaded graph
    → IsSorted graph [] sorted
    → IsBehindReferring nodes sorted
sorted-IsBehindReferring fields nodes start c graph sorted e₁ e₂ h =
    let named = Gives-loaded (λ c'. AllNamed nodes) e₁ (first_pass-AllNamed nodes start) in
    let r =
      Gives-loaded (HasReferences nodes c.graph) e₂
        (second_pass-HasReferences fields c.xml nodes c.graph named) in
    record {
      behind = λ parent name front back refers split.
          edge-before parent name graph front
            (IsSorted-remaining graph [] front back name (subst (IsSorted graph []) split h))
            (r.found parent name refers);
    }
