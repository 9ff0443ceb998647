-- ===== src/Dictionary/Load/Sorted/Complete.antt =====
-- What `sorted.size() == componentGraph.size()` tells DictionaryRegistry::load of
-- src/Dictionary.cpp, and what the sorting gives.
use openfix.Prelude.{
  ℕ, ◌+◌, ◌≤◌, ◌<◌, List, [], ◌∷◌, ◌==◌, if◌then◌else◌, Bytes, bytes_eq, bytes_eq→eq, bytes_eq_refl,
  length, ◌≡◌, inl, inr, refl, arith, Bool-cases, ==_iff,
}
use mathlib.Core.Path.{subst}
use openfix.Dictionary.Load.{Gives, Gives-bind, Gives-loaded, HashOrder}
use openfix.Dictionary.Load.Graph.{count_degrees, seeds, sort_loop, positive, toposort}
use openfix.Dictionary.Load.Sorted.{
  total, GivesEntriesOnce, refs, keys, IsSorted, IsClosed, Distinct,
}
use openfix.Dictionary.Load.Sorted.Start.{
  degree-start, count_degrees-Distinct, refs-start, known-start,
}
use openfix.Dictionary.Load.Sorted.Loop.{Counts, sort_loop-IsSorted}

total-add {ℓ} :
    {A : Type ℓ} (f g : A → ℕ) (xs : List A) → total (λ x. f x + g x) xs ≡ total f xs + total g xs
unfolding total
total-add f g [] = omega arith
total-add f g (x ∷ xs) = omega (arith, total-add f g xs)

total-zero {ℓ} : {A : Type ℓ} (xs : List A) → total (λ x. 0) xs ≡ 0
unfolding total
total-zero [] = refl
total-zero (x ∷ xs) = omega (arith, total-zero xs)

-- How often the keys of a graph occur in a list.
key_refs : List (Bytes × List Bytes) → List Bytes → ℕ
key_refs graph names = total (λ e. refs e.0 names) graph

keys-swap :
    (x : Bytes) (graph : List (Bytes × List Bytes))
    → total (λ e. if bytes_eq x e.0 then 1 else 0) graph ≡ keys x graph
unfolding total
keys-swap x [] = refl
keys-swap x ((k, cs) ∷ graph) =
    ground (arith, keys-swap x graph, bytes_eq→eq x k, bytes_eq→eq k x, bytes_eq_refl x)

length-key_refs :
    (graph : List (Bytes × List Bytes)) (names : List Bytes)
    → ((v : Bytes) → keys v graph ≡ 0 → refs v names ≡ 0)
    → length names ≤ key_refs graph names
unfolding key_refs total
length-key_refs graph [] h = omega arith
length-key_refs graph (x ∷ xs) h =
    let sum =
      total-add (λ (e : Bytes × List Bytes). if bytes_eq x e.0 then 1 else 0) (λ e. refs e.0 xs)
        graph in
    let rest = length-key_refs graph xs (λ v absent. omega (arith, h v absent)) in
    let mine = h x in
    let self = bytes_eq_refl x in ground (arith, sum, rest, mine, self, keys-swap x graph)

key_refs-all :
    (graph : List (Bytes × List Bytes)) (names : List Bytes) (v : Bytes)
    → ((k : Bytes) → refs k names ≤ 1)
    → (key_refs graph names ≤ length graph)
      × (length graph ≤ key_refs graph names → 0 < keys v graph → refs v names ≡ 1)
unfolding key_refs total
key_refs-all [] names v once = (omega arith, λ full there. omega (arith, there))
key_refs-all ((k, cs) ∷ graph) names v once =
    let rest = key_refs-all graph names v once in
    let bound = rest.0 in
    let full_rest = rest.1 in
    let mine = once k in
    (
      omega (arith, bound, mine),
      λ full there. elim (Bool-cases (bytes_eq k v)) [
        | inl is ↦
            subst (λ x. refs x names ≡ 1) (bytes_eq→eq k v is) (omega (arith, bound, mine, full))
        | inr other ↦ full_rest (omega (arith, mine, full)) (ground (arith, other, there))
      ],
    )

-- What load relies on: every component is sorted once, behind all those that refer to it.
pub record IsComplete (graph : List (Bytes × List Bytes)) (sorted : List Bytes) : Type 0 where
  pub behind : IsSorted graph [] sorted
  pub all_once : (v : Bytes) → 0 < keys v graph → refs v sorted ≡ 1
  pub no_others : (v : Bytes) → keys v graph ≡ 0 → refs v sorted ≡ 0

pub toposort-IsComplete :
    (o : HashOrder)
    → GivesEntriesOnce o
    → (graph : List (Bytes × List Bytes)) → Distinct graph
    → IsClosed graph
    → Gives (IsComplete graph) (toposort o graph)
unfolding toposort total
toposort-IsComplete o once graph distinct closed =
    let degrees : List (Bytes × ℕ) = count_degrees o (o.graph_entries graph) [] in
    let working : List Bytes = seeds (o.degree_entries degrees) [] in
    let d = count_degrees-Distinct o once (o.graph_entries graph) [] tt in
    let start : (v : Bytes) → Counts v graph degrees working [] = λ v.
      let s = refs-start o once v degrees d in
      record {
        counted = degree-start o once v graph;
        once = omega (arith, s.0);
        free = λ h. s.1 (omega (arith, h));
        known = λ absent. omega (arith, known-start o once v graph closed absent);
      } in
    let done =
      sort_loop-IsSorted o once graph distinct closed (positive degrees + length working + 1)
        degrees working [] start tt in
    Gives-bind (IsComplete graph) (sort_loop o graph _ degrees working []) _ λ sorted e.
      let (behind, counts) =
        Gives-loaded
          (λ l.
            IsSorted graph [] l
            × ((v : Bytes) → (refs v l ≤ 1) × (keys v graph ≡ 0 → refs v l ≡ 0)))
          e done in
      elim (Bool-cases (length sorted == length graph)) [
        | inr fewer ↦ rw fewer tt
        | inl same ↦ rw same (record {
          behind = behind;
          all_once = λ v. (key_refs-all graph sorted v (λ k. (counts k).0)).1 (
              omega (
                arith,
                (==_iff (length sorted) (length graph)).0 same,
                length-key_refs graph sorted (λ k. (counts k).1),
              ));
          no_others = λ v. (counts v).1;
        })
      ]
