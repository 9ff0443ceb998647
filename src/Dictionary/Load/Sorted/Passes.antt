-- ===== src/Dictionary/Load/Sorted/Passes.antt =====
-- The three passes of DictionaryRegistry::load of src/Dictionary.cpp over the components.
use openfix.Prelude.{
  ℕ, ◌+◌, ◌≤◌, true, false, List, [], ◌∷◌, ◌++◌, if◌then◌else◌, Bytes, codes, bytes_eq, bytes_eq→eq,
  bytes_eq_refl, is_empty, ◌≡◌, ◌≢◌, ◌∙◌, sym, ap, inl, inr, refl, arith, Bool-cases,
}
use mathlib.Core.Path.{subst}
use openfix.Dictionary.Load.{
  LoadError, Node, node, Nodes, no_nodes, next_node, loaded, failed, Gives, Gives-bind,
  Gives-loaded, Gives-unless, Gives-when, HashOrder, strcasecmp_eq,
}
use openfix.Dictionary.Load.Graph.{
  has_key, change_key, mem_name, insert_name, add_reference, check_component, check_field,
  validate_nodes, validate_node, Components, no_components, first_pass, second_pass, toposort,
}
use openfix.Dictionary.Load.Toposort.{toposort-ne-stuck}
use openfix.Dictionary.Load.Sorted.{
  total, total-append, GivesEntriesOnce, refs, remaining, keys, IsClosed, Distinct,
}
use openfix.Dictionary.Load.Sorted.References.{
  Gives-map, IsBehindReferring, sorted-IsBehindReferring,
}
use openfix.Dictionary.Load.Sorted.Start.{has_key-change_key, change_key-Distinct}
use openfix.Dictionary.Load.Sorted.Complete.{IsComplete, toposort-IsComplete}

no_keys {ℓ} : {A : Type ℓ} (v : Bytes) (m : List (Bytes × A)) → keys v m ≡ 0 → has_key v m ≡ false
unfolding has_key total
no_keys v [] h = refl
no_keys v ((k, a) ∷ m) h = ground (arith, h, no_keys v m)

has_key-append {ℓ} :
    {A : Type ℓ} (k name : Bytes) (a : A) (m : List (Bytes × A))
    → has_key k (m ++ (name, a) ∷ []) ≡ (if has_key k m then true else bytes_eq name k)
unfolding has_key
has_key-append k name a [] = ground arith
has_key-append k name a ((j, b) ∷ m) = ground (arith, has_key-append k name a m)

append-Distinct {ℓ} :
    {A : Type ℓ} (name : Bytes) (a : A) (m : List (Bytes × A))
    → has_key name m ≡ false
    → Distinct m
    → Distinct (m ++ (name, a) ∷ [])
unfolding has_key
append-Distinct name a [] h d = (refl, tt)
append-Distinct name a ((j, b) ∷ m) h d = elim (Bool-cases (bytes_eq j name)) [
  | inl is ↦ ground (arith, h, is)
  | inr other ↦ (
    rw (has_key-append j name a m)
        (ground (arith, d.0, other, bytes_eq→eq name j, bytes_eq_refl name)),
    append-Distinct name a m (ground (arith, h, other)) d.1,
  )
]

-- After the first pass: the components have different names, and no references yet.
record IsFresh (c : Components) : Type 0 where
  distinct : Distinct c.graph
  same_keys : (k : Bytes) → has_key k c.graph ≡ has_key k c.xml
  no_references : (v : Bytes) → remaining v c.graph [] ≡ 0

append-remaining :
    (v name : Bytes) (graph : List (Bytes × List Bytes))
    → remaining v graph [] ≡ 0
    → remaining v (graph ++ (name, []) ∷ []) [] ≡ 0
unfolding total mem_name
append-remaining v name graph h =
    omega (arith, h, total-append (λ e. refs v e.1) graph ((name, []) ∷ []))

first_pass-IsFresh :
    (nodes : Nodes) (c : Components) → IsFresh c → Gives IsFresh (first_pass nodes c)
unfolding first_pass
first_pass-IsFresh no_nodes c f = f
first_pass-IsFresh (next_node (node tag a children) rest) c f =
    let c' : Components = record {
      xml = c.xml ++ (a.name, node tag a children) ∷ [];
      graph = c.graph ++ (a.name, []) ∷ [];
    } in
    Gives-unless IsFresh (is_empty a.name) _ _ λ named.
      Gives-unless IsFresh (has_key a.name c.xml) _ _ λ new. first_pass-IsFresh rest c' (record {
        distinct = append-Distinct a.name [] c.graph (f.same_keys a.name ∙ new) f.distinct;
        same_keys = λ k.
            has_key-append k a.name [] c.graph
            ∙ ap (λ b. if b then true else bytes_eq a.name k) (f.same_keys k)
            ∙ sym (has_key-append k a.name (node tag a children) c.xml);
        no_references = λ v. append-remaining v a.name c.graph (f.no_references v);
      })

-- In the second pass: only components with a definition are referred to.
record IsValidated (xml : List (Bytes × Node)) (graph : List (Bytes × List Bytes)) : Type 0 where
  distinct : Distinct graph
  keeps_keys : (k : Bytes) → has_key k xml ≡ true → has_key k graph ≡ true
  defined : (v : Bytes) → has_key v xml ≡ false → remaining v graph [] ≡ 0

refs-insert_name :
    (v name : Bytes) (names : List Bytes)
    → refs v (insert_name name names) ≤ refs v names + (if bytes_eq name v then 1 else 0)
unfolding insert_name total
refs-insert_name v name names =
    ground (arith, total-append (λ x. if bytes_eq x v then 1 else 0) names (name ∷ []))

remaining-change_key :
    (v parent name : Bytes) (graph : List (Bytes × List Bytes))
    → remaining v (change_key [] (insert_name name) parent graph) []
      ≤ remaining v graph [] + (if bytes_eq name v then 1 else 0)
unfolding change_key total mem_name
remaining-change_key v parent name [] = omega (arith, refs-insert_name v name [])
remaining-change_key v parent name ((k, cs) ∷ graph) =
    ground (arith, refs-insert_name v name cs, remaining-change_key v parent name graph)

add_reference-IsValidated :
    (xml : List (Bytes × Node)) (parent name : Bytes) (graph : List (Bytes × List Bytes))
    → has_key name xml ≡ true
    → IsValidated xml graph
    → IsValidated xml (add_reference parent name graph)
unfolding add_reference
add_reference-IsValidated xml parent name graph there w = elim (Bool-cases (is_empty parent)) [
  | inl without ↦ rw without w
  | inr with_parent ↦ rw with_parent (record {
    distinct = change_key-Distinct parent [] (insert_name name) graph w.distinct;
    keeps_keys = λ k h.
        rw (has_key-change_key k parent [] (insert_name name) graph)
          (ground (arith, w.keeps_keys k h));
    defined = λ v h.
        let bound = remaining-change_key v parent name graph in
        let before = w.defined v h in
        elim (Bool-cases (bytes_eq name v)) [
          | inl is ↦
              ground (arith, subst (λ x. has_key x xml ≡ true) (bytes_eq→eq name v is) there, h)
          | inr other ↦ ground (arith, bound, before, other)
        ];
  })
]

check_component-IsValidated :
    (xml : List (Bytes × Node)) (parent name : Bytes) (graph : List (Bytes × List Bytes))
    → IsValidated xml graph
    → Gives (IsValidated xml) (check_component xml parent name graph)
unfolding check_component
check_component-IsValidated xml parent name graph w =
    Gives-unless (IsValidated xml) (is_empty name) _ _ λ named.
      Gives-when (IsValidated xml) (has_key name xml) _ _
        λ there. add_reference-IsValidated xml parent name graph there w

check_field-IsValidated :
    (fields : List (Bytes × ℕ)) (xml : List (Bytes × Node)) (name : Bytes)
    (graph : List (Bytes × List Bytes))
    → IsValidated xml graph
    → Gives (IsValidated xml) (check_field fields name graph)
unfolding check_field
check_field-IsValidated fields xml name graph w =
    Gives-unless (IsValidated xml) (is_empty name) _ _
      λ named. Gives-when (IsValidated xml) (has_key name fields) _ _ λ there. w

module _ (fields : List (Bytes × ℕ)) (xml : List (Bytes × Node)) where
  mutual
    unfolding validate_nodes check_component check_field

    validate_nodes-IsValidated :
        (parent : Bytes) (nodes : Nodes) (graph : List (Bytes × List Bytes))
        → IsValidated xml graph
        → Gives (IsValidated xml) (validate_nodes fields xml parent nodes graph)
    validate_nodes-IsValidated parent no_nodes graph w = w
    validate_nodes-IsValidated parent (next_node n rest) graph w =
        Gives-bind (IsValidated xml) (validate_node fields xml parent n graph) _ λ graph' e.
          validate_nodes-IsValidated parent rest graph'
            (Gives-loaded (IsValidated xml) e (validate_node-IsValidated parent n graph w))

    validate_node-IsValidated :
        (parent : Bytes) (n : Node) (graph : List (Bytes × List Bytes))
        → IsValidated xml graph
        → Gives (IsValidated xml) (validate_node fields xml parent n graph)
    validate_node-IsValidated parent (node tag a children) graph w =
        let inner = validate_nodes-IsValidated parent children graph w in
        elim (Bool-cases (strcasecmp_eq tag (codes "component"))) [
          | inl is ↦ rw is (check_component-IsValidated xml parent a.name graph w)
          | inr other ↦ rw other elim (Bool-cases (strcasecmp_eq tag (codes "group"))) [
            | inl is ↦ rw is (
                Gives-unless (IsValidated xml) (is_empty a.name) _ _
                  λ named. Gives-when (IsValidated xml) (has_key a.name fields) _ _ λ there. inner)
            | inr other' ↦ rw other' elim (Bool-cases (strcasecmp_eq tag (codes "field"))) [
              | inl is ↦ rw is (check_field-IsValidated fields xml a.name graph w)
              | inr unknown ↦ rw unknown w
            ]
          ]
        ]

  second_pass-IsValidated :
      (nodes : Nodes) (graph : List (Bytes × List Bytes))
      → IsValidated xml graph
      → Gives (IsValidated xml) (second_pass fields xml nodes graph)
  unfolding second_pass
  second_pass-IsValidated no_nodes graph w = w
  second_pass-IsValidated (next_node (node tag a children) rest) graph w =
      Gives-bind (IsValidated xml) (validate_nodes fields xml a.name children graph) _ λ graph' e.
        second_pass-IsValidated rest graph'
          (Gives-loaded (IsValidated xml) e (validate_nodes-IsValidated a.name children graph w))

fresh-IsValidated : (c : Components) → IsFresh c → IsValidated c.xml c.graph
fresh-IsValidated c f = record {
  distinct = f.distinct;
  keeps_keys = λ k h. f.same_keys k ∙ h;
  defined = λ v h. f.no_references v;
}

-- Where the components of a document pass the first two passes of load, and hash maps give each of
-- their entries once, the sorting ends, and it either fails or gives each component of the graph once
-- and no other name, with every component behind all those of the document that have a reference to
-- it among their nodes, also within groups.
pub passes-IsComplete :
    (o : HashOrder) (fields : List (Bytes × ℕ)) (nodes : Nodes) (c : Components)
    (graph : List (Bytes × List Bytes))
    → GivesEntriesOnce o
    → first_pass nodes no_components ≡ loaded c
    → second_pass fields c.xml nodes c.graph ≡ loaded graph
    → Gives (λ sorted. IsComplete graph sorted × IsBehindReferring nodes sorted) (toposort o graph)
      × (toposort o graph ≢ failed LoadError.stuck)
unfolding total has_key
passes-IsComplete o fields nodes c graph once e₁ e₂ =
    let fresh = Gives-loaded IsFresh e₁ (
      first_pass-IsFresh nodes no_components
        (record { distinct = tt; same_keys = λ k. refl; no_references = λ v. refl })) in
    let w =
      Gives-loaded (IsValidated c.xml) e₂
        (second_pass-IsValidated fields c.xml nodes c.graph (fresh-IsValidated c fresh)) in
    let closed : IsClosed graph = λ v absent. elim (Bool-cases (has_key v c.xml)) [
      | inr undefined ↦ w.defined v undefined
      | inl there ↦ ground (arith, w.keeps_keys v there, no_keys v graph absent)
    ] in
    (
      Gives-map (IsComplete graph)
          (λ sorted. IsComplete graph sorted × IsBehindReferring nodes sorted) (toposort o graph)
          (λ sorted complete. (
            complete,
            sorted-IsBehindReferring fields nodes no_components c graph sorted e₁ e₂
                complete.behind,
          ))
          (toposort-IsComplete o once graph w.distinct closed),
      toposort-ne-stuck o graph,
    )
