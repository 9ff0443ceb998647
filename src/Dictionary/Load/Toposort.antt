-- ===== src/Dictionary/Load/Toposort.antt =====
-- The sorting of the components in DictionaryRegistry::load of src/Dictionary.cpp: degrees, and
-- that the loop ends.
use openfix.Prelude.{
  ℕ, zero, suc, ◌+◌, ◌≤◌, ◌<◌, Bool, true, false, List, [], ◌∷◌, ◌++◌, ◌==◌, if◌then◌else◌, Bytes,
  length, length-append, ◌≡◌, ◌≢◌, inl, inr, arith, Bool-cases,
}
use openfix.Dictionary.Load.{LoadError, Loading, loaded, failed, ◌>>=◌, HashOrder, get_or}
use openfix.Dictionary.Load.Graph.{
  lower_degree, lower_degrees, sort_loop, positive, toposort, count_degrees, seeds,
}

lower_degree-positive :
    (c : Bytes) (degrees : List (Bytes × ℕ))
    → positive (lower_degree c degrees).0 + (if (lower_degree c degrees).1 then 1 else 0)
      ≤ positive degrees
unfolding lower_degree positive
lower_degree-positive c [] = omega arith
lower_degree-positive c ((name, zero) ∷ degrees) = ground (arith, lower_degree-positive c degrees)
lower_degree-positive c ((name, suc zero) ∷ degrees) =
    ground (arith, lower_degree-positive c degrees)
lower_degree-positive c ((name, suc (suc n)) ∷ degrees) =
    ground (arith, lower_degree-positive c degrees)

length-pushed :
    (c : Bytes) (working : List Bytes) (ready : Bool)
    → length (if ready then working ++ c ∷ [] else working)
      ≡ length working + (if ready then 1 else 0)
length-pushed c working true = length-append working (c ∷ [])
length-pushed c working false = omega arith

lower_degrees-positive :
    (cs : List Bytes) (degrees : List (Bytes × ℕ)) (working : List Bytes)
    → positive (lower_degrees cs degrees working).0 + length (lower_degrees cs degrees working).1
      ≤ positive degrees + length working
unfolding lower_degrees
lower_degrees-positive [] degrees working = omega arith
lower_degrees-positive (c ∷ cs) degrees working =
    let ready : Bool = (lower_degree c degrees).1 in
    omega (
      arith,
      lower_degree-positive c degrees,
      length-pushed c working ready,
      lower_degrees-positive cs (lower_degree c degrees).0
          (if ready then working ++ c ∷ [] else working),
    )

sort_loop-ne-stuck :
    (o : HashOrder) (graph : List (Bytes × List Bytes)) (fuel : ℕ) (degrees : List (Bytes × ℕ))
    (working sorted : List Bytes)
    → positive degrees + length working < fuel
    → sort_loop o graph fuel degrees working sorted ≢ failed LoadError.stuck
unfolding sort_loop
sort_loop-ne-stuck o graph zero degrees working sorted h = absurd (omega arith)
sort_loop-ne-stuck o graph (suc fuel) degrees [] sorted h = λ e. ground (arith, e)
sort_loop-ne-stuck o graph (suc fuel) degrees (name ∷ working) sorted h =
    let children = o.name_entries (get_or [] name graph) in
    sort_loop-ne-stuck o graph fuel (lower_degrees children degrees working).0
      (lower_degrees children degrees working).1 (sorted ++ name ∷ [])
      (omega (arith, lower_degrees-positive children degrees working))

-- The test of the length adds no other failure than that of a cycle.
checked-ne-stuck :
    (m : Loading (List Bytes)) (n : ℕ)
    → m ≢ failed LoadError.stuck
    → (m >>= λ sorted.
        if length sorted == n then loaded sorted else failed LoadError.component_cycle)
      ≢ failed LoadError.stuck
checked-ne-stuck (loaded sorted) n h e = elim (Bool-cases (length sorted == n)) [
  | inl all ↦ ground (arith, e, all)
  | inr some_left ↦ ground (arith, e, some_left)
]
checked-ne-stuck (failed why) n h e = h e

-- The sorting ends for every graph and every order of the hash maps, also where the graph has
-- cycles: the rounds are as many as the nodes that wait at first and the degrees that are not 0,
-- at most, and the model's fuel is enough.
pub toposort-ne-stuck :
    (o : HashOrder) (graph : List (Bytes × List Bytes)) → toposort o graph ≢ failed LoadError.stuck
unfolding toposort
toposort-ne-stuck o graph e =
    let degrees : List (Bytes × ℕ) = count_degrees o (o.graph_entries graph) [] in
    let working : List Bytes = seeds (o.degree_entries degrees) [] in
    let fuel : ℕ = positive degrees + length working + 1 in
    checked-ne-stuck (sort_loop o graph fuel degrees working []) (length graph)
      (sort_loop-ne-stuck o graph fuel degrees working [] (omega arith)) e
