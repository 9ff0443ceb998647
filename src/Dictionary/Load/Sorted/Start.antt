-- ===== src/Dictionary/Load/Sorted/Start.antt =====
-- The degrees and the list of waiting nodes at the start, in DictionaryRegistry::load of
-- src/Dictionary.cpp.
use openfix.Prelude.{
  ℕ, ◌+◌, ◌≤◌, ◌<◌, true, false, List, [], ◌∷◌, ◌++◌, ◌==◌, if◌then◌else◌, Bytes, bytes_eq,
  bytes_eq→eq, bytes_eq_refl, ◌≡◌, refl, inl, inr, Bool-cases, arith,
}
use mathlib.Core.Path.{subst}
use openfix.Dictionary.Load.{HashOrder}
use openfix.Dictionary.Load.Graph.{
  has_key, change_key, mem_name, count_children, count_degrees, seeds,
}
use openfix.Dictionary.Load.Sorted.{
  total, total-append, GivesEntriesOnce, refs, degree, remaining, Distinct, keys, IsClosed,
}

degree-change_key :
    (v name : Bytes) (f : ℕ → ℕ) (degrees : List (Bytes × ℕ))
    → degree v (change_key 0 f name degrees)
      ≡ (if bytes_eq name v then f (degree v degrees) else degree v degrees)
unfolding degree change_key
degree-change_key v name f [] = refl
degree-change_key v name f ((k, n) ∷ degrees) = ground (
  arith,
  degree-change_key v name f degrees,
  bytes_eq→eq k name,
  bytes_eq→eq k v,
  bytes_eq→eq name v,
  bytes_eq_refl v,
)

pub has_key-change_key {ℓ} :
    {A : Type ℓ} (k name : Bytes) (default : A) (f : A → A) (m : List (Bytes × A))
    → has_key k (change_key default f name m) ≡ (if bytes_eq name k then true else has_key k m)
unfolding has_key change_key
has_key-change_key k name default f [] = refl
has_key-change_key k name default f ((j, a) ∷ m) = ground (
  arith,
  has_key-change_key k name default f m,
  bytes_eq→eq j name,
  bytes_eq→eq j k,
  bytes_eq→eq name k,
  bytes_eq_refl k,
)

pub change_key-Distinct {ℓ} :
    {A : Type ℓ} (name : Bytes) (default : A) (f : A → A) (m : List (Bytes × A))
    → Distinct m
    → Distinct (change_key default f name m)
unfolding change_key has_key
change_key-Distinct name default f [] d = (refl, tt)
change_key-Distinct name default f ((j, a) ∷ m) d = elim (Bool-cases (bytes_eq j name)) [
  | inl is ↦ rw is d
  | inr other ↦ rw other (
    rw (has_key-change_key j name default f m)
        (ground (arith, d.0, other, bytes_eq→eq name j, bytes_eq_refl j)),
    change_key-Distinct name default f m d.1,
  )
]

degree-count_children :
    (v : Bytes) (cs : List Bytes) (degrees : List (Bytes × ℕ))
    → degree v (count_children cs degrees) ≡ degree v degrees + refs v cs
unfolding count_children total
degree-count_children v [] degrees = omega arith
degree-count_children v (c ∷ cs) degrees = ground (
  arith,
  degree-count_children v cs (change_key 0 (λ n. n + 1) c degrees),
  degree-change_key v c (λ n. n + 1) degrees,
)

count_children-Distinct :
    (cs : List Bytes) (degrees : List (Bytes × ℕ))
    → Distinct degrees
    → Distinct (count_children cs degrees)
unfolding count_children
count_children-Distinct [] degrees d = d
count_children-Distinct (c ∷ cs) degrees d =
    count_children-Distinct cs (change_key 0 (λ n. n + 1) c degrees)
      (change_key-Distinct c 0 (λ n. n + 1) degrees d)

module _ (o : HashOrder) (once : GivesEntriesOnce o) where
  degree-count_degrees :
      (v : Bytes) (graph : List (Bytes × List Bytes)) (degrees : List (Bytes × ℕ))
      → degree v (count_degrees o graph degrees) ≡ degree v degrees + total (λ e. refs v e.1) graph
  unfolding count_degrees total
  degree-count_degrees v [] degrees = omega arith
  degree-count_degrees v ((name, cs) ∷ graph) degrees = ground (
    arith,
    degree-count_degrees v graph
        (count_children (o.name_entries cs) (change_key 0 (λ n. n) name degrees)),
    degree-count_children v (o.name_entries cs) (change_key 0 (λ n. n) name degrees),
    degree-change_key v name (λ n. n) degrees,
    once.names (λ x. if bytes_eq x v then 1 else 0) cs,
  )

  pub count_degrees-Distinct :
      (graph : List (Bytes × List Bytes)) (degrees : List (Bytes × ℕ))
      → Distinct degrees
      → Distinct (count_degrees o graph degrees)
  unfolding count_degrees
  count_degrees-Distinct [] degrees d = d
  count_degrees-Distinct ((name, cs) ∷ graph) degrees d =
      count_degrees-Distinct graph
        (count_children (o.name_entries cs) (change_key 0 (λ n. n) name degrees))
        (count_children-Distinct (o.name_entries cs) _
          (change_key-Distinct name 0 (λ n. n) degrees d))

  -- At the start the degrees count all references.
  pub degree-start :
      (v : Bytes) (graph : List (Bytes × List Bytes))
      → degree v (count_degrees o (o.graph_entries graph) []) ≡ remaining v graph []
  unfolding degree mem_name
  degree-start v graph =
      omega (
        arith,
        degree-count_degrees v (o.graph_entries graph) [],
        once.graph (λ e. refs v e.1) graph,
      )

-- The entries of a node whose degree is 0.
abbrev pub zeros : Bytes → List (Bytes × ℕ) → ℕ
zeros v = total (λ e. if e.1 == 0 then (if bytes_eq e.0 v then 1 else 0) else 0)

refs-seeds :
    (v : Bytes) (degrees : List (Bytes × ℕ)) (working : List Bytes)
    → refs v (seeds degrees working) ≡ refs v working + zeros v degrees
unfolding seeds total
refs-seeds v [] working = omega arith
refs-seeds v ((name, n) ∷ degrees) working = ground (
  arith,
  refs-seeds v degrees (if n == 0 then working ++ name ∷ [] else working),
  total-append (λ x. if bytes_eq x v then 1 else 0) working (name ∷ []),
)

no_zeros :
    (v : Bytes) (degrees : List (Bytes × ℕ)) → has_key v degrees ≡ false → zeros v degrees ≡ 0
unfolding has_key total
no_zeros v [] h = refl
no_zeros v ((name, n) ∷ degrees) h = ground (arith, h, no_zeros v degrees)

zeros_once :
    (v : Bytes) (degrees : List (Bytes × ℕ))
    → Distinct degrees
    → (zeros v degrees ≤ 1) × (0 < zeros v degrees → degree v degrees ≡ 0)
unfolding total degree
zeros_once v [] d = (omega arith, λ h. omega (arith, h))
zeros_once v ((name, n) ∷ degrees) d = elim (Bool-cases (bytes_eq name v)) [
  | inl is ↦
      let e =
        no_zeros v degrees (subst (λ x. has_key x degrees ≡ false) (bytes_eq→eq name v is) d.0) in
      (ground (arith, e, is), λ h. ground (arith, e, is, h))
  | inr other ↦
      let rest = zeros_once v degrees d.1 in
      (ground (arith, rest.0, other), λ h. rw (other, degree) (rest.1 (ground (arith, other, h))))
]

zeros-le : (v : Bytes) (degrees : List (Bytes × ℕ)) → zeros v degrees ≤ keys v degrees
unfolding total
zeros-le v [] = omega arith
zeros-le v (e ∷ degrees) = ground (arith, zeros-le v degrees)

keys-change_key :
    (v name : Bytes) (f : ℕ → ℕ) (m : List (Bytes × ℕ))
    → keys v (change_key 0 f name m) ≤ keys v m + (if bytes_eq name v then 1 else 0)
unfolding total change_key
keys-change_key v name f [] = omega arith
keys-change_key v name f ((k, n) ∷ m) = ground (arith, keys-change_key v name f m)

keys-count_children :
    (v : Bytes) (cs : List Bytes) (m : List (Bytes × ℕ))
    → keys v (count_children cs m) ≤ keys v m + refs v cs
unfolding total count_children
keys-count_children v [] m = omega arith
keys-count_children v (c ∷ cs) m = omega (
  arith,
  keys-count_children v cs (change_key 0 (λ n. n + 1) c m),
  keys-change_key v c (λ n. n + 1) m,
)

keys-count_degrees :
    (o : HashOrder)
    → GivesEntriesOnce o
    → (v : Bytes) (graph : List (Bytes × List Bytes)) (m : List (Bytes × ℕ))
    → keys v (count_degrees o graph m) ≤ keys v m + keys v graph + total (λ e. refs v e.1) graph
unfolding total count_degrees
keys-count_degrees o once v [] m = omega arith
keys-count_degrees o once v ((name, cs) ∷ graph) m = omega (
  arith,
  keys-count_degrees o once v graph
      (count_children (o.name_entries cs) (change_key 0 (λ n. n) name m)),
  keys-count_children v (o.name_entries cs) (change_key 0 (λ n. n) name m),
  keys-change_key v name (λ n. n) m,
  once.names (λ x. if bytes_eq x v then 1 else 0) cs,
)

pub known-start :
    (o : HashOrder)
    → GivesEntriesOnce o
    → (v : Bytes) (graph : List (Bytes × List Bytes)) → IsClosed graph
    → keys v graph ≡ 0
    → refs v (seeds (o.degree_entries (count_degrees o (o.graph_entries graph) [])) []) ≡ 0
unfolding total mem_name
known-start o once v graph closed absent =
    let degrees : List (Bytes × ℕ) = count_degrees o (o.graph_entries graph) [] in
    let zero_entry : Bytes × ℕ → ℕ =
      λ e. if e.1 == 0 then (if bytes_eq e.0 v then 1 else 0) else 0 in
    omega (
      arith,
      refs-seeds v (o.degree_entries degrees) [],
      once.degrees zero_entry degrees,
      zeros-le v degrees,
      keys-count_degrees o once v (o.graph_entries graph) [],
      once.graph (λ e. if bytes_eq e.0 v then 1 else 0) graph,
      once.graph (λ e. refs v e.1) graph,
      closed v absent,
      absent,
    )

pub refs-start :
    (o : HashOrder)
    → GivesEntriesOnce o
    → (v : Bytes) (degrees : List (Bytes × ℕ)) → Distinct degrees
    → (refs v (seeds (o.degree_entries degrees) []) ≤ 1)
      × (0 < refs v (seeds (o.degree_entries degrees) []) → degree v degrees ≡ 0)
unfolding total
refs-start o once v degrees d =
    let zero_entry : Bytes × ℕ → ℕ =
      λ e. if e.1 == 0 then (if bytes_eq e.0 v then 1 else 0) else 0 in
    let e = refs-seeds v (o.degree_entries degrees) [] in
    let e' = once.degrees zero_entry degrees in
    let z = zeros_once v degrees d in
    (omega (arith, e, e', z.0), λ h. z.1 (omega (arith, e, e', h)))
