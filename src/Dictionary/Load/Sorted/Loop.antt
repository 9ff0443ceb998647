-- ===== src/Dictionary/Load/Sorted/Loop.antt =====
-- The loop that sorts the components in DictionaryRegistry::load of src/Dictionary.cpp.
use openfix.Prelude.{
  ℕ, zero, suc, ◌+◌, ◌-◌, ◌≤◌, ◌<◌, false, List, [], ◌∷◌, ◌++◌, if◌then◌else◌, Bytes, bytes_eq,
  bytes_eq_refl, ◌≡◌, ◌⊎◌, inl, inr, refl, arith,
}
use openfix.Dictionary.Load.{Gives, HashOrder, get_or}
use openfix.Dictionary.Load.Graph.{mem_name, lower_degrees, sort_loop}
use openfix.Dictionary.Load.Sorted.{
  total, total-append, GivesEntriesOnce, refs, degree, remaining, IsSorted, Distinct, IsClosed,
  keys, remaining-le, IsSorted-snoc, degree-lower_degrees, lower_degrees-Pushed, mem_name-refs,
  remaining-snoc,
}

-- A node at the start of a round: its degree counts the references that remain; it waits or has
-- been sorted once at most, and then nothing refers to it any more; and it is a component then.
pub record Counts (v : Bytes) (graph : List (Bytes × List Bytes)) (degrees : List (Bytes × ℕ))
    (working sorted : List Bytes) : Type 0 where
  pub counted : degree v degrees ≡ remaining v graph sorted
  pub once : refs v working + refs v sorted ≤ 1
  pub free : 0 < refs v working + refs v sorted → degree v degrees ≡ 0
  pub known : keys v graph ≡ 0 → refs v working + refs v sorted ≡ 0

-- One round for one node, by its numbers.
round_numbers :
    (w s d d' n n₀ n' c q w' k : ℕ)
    → d ≡ n
    → q + w + s ≤ 1
    → (0 < q + w + s → d ≡ 0)
    → (k ≡ 0 → q + w + s ≡ 0)
    → (k ≡ 0 → n₀ ≡ 0)
    → n ≤ n₀
    → d' ≡ d - c
    → n' + c ≡ n
    → (w' ≡ w) ⊎ ((w' ≡ w + 1) × (0 < d) × (d' ≡ 0))
    → (d' ≡ n') × (w' + (s + q) ≤ 1) × (0 < w' + (s + q) → d' ≡ 0) × (k ≡ 0 → w' + (s + q) ≡ 0)
round_numbers w s d d' n n₀ n' c q w' k e o f known closed le l r (inl p) =
    ground (arith, e, o, f, l, r, p, known)
round_numbers w s d d' n n₀ n' c q w' k e o f known closed le l r (inr p) =
    ground (arith, e, o, f, l, r, p, known, closed, le)

one_self : (name : Bytes) → ◌≡◌ {A = ℕ} (if bytes_eq name name then 1 else 0) 1
one_self name = rw (bytes_eq_refl name) refl

module _ (o : HashOrder) (once : GivesEntriesOnce o) (graph : List (Bytes × List Bytes))
    (distinct : Distinct graph) (closed : IsClosed graph) where
  round-Counts :
      (name : Bytes) (working sorted : List Bytes) (degrees : List (Bytes × ℕ))
      → mem_name name sorted ≡ false
      → (v : Bytes) → Counts v graph degrees (name ∷ working) sorted
      → Counts v graph
          (lower_degrees (o.name_entries (get_or [] name graph)) degrees working).0
          (lower_degrees (o.name_entries (get_or [] name graph)) degrees working).1
          (sorted ++ name ∷ [])
  unfolding total
  round-Counts name working sorted degrees new v h =
      let children : List Bytes = o.name_entries (get_or [] name graph) in
      let one : ℕ = if bytes_eq name v then 1 else 0 in
      let count : Bytes → ℕ = λ x. if bytes_eq x v then 1 else 0 in
      let numbers =
        round_numbers (refs v working) (refs v sorted) (degree v degrees)
          (degree v (lower_degrees children degrees working).0) (remaining v graph sorted)
          (remaining v graph []) (remaining v graph (sorted ++ name ∷ []))
          (refs v (get_or [] name graph)) one (refs v (lower_degrees children degrees working).1)
          (keys v graph) h.counted h.once h.free h.known (closed v) (remaining-le v graph sorted)
          (omega (
            arith,
            degree-lower_degrees v children degrees working,
            once.names count (get_or [] name graph),
          ))
          (remaining-snoc v name graph sorted distinct new)
          (lower_degrees-Pushed v children degrees working) in
      let behind = total-append count sorted (name ∷ []) in
      record {
        counted = numbers.0;
        once = omega (arith, numbers.1, behind);
        free = λ more. numbers.2 (omega (arith, more, behind));
        known = λ absent. omega (arith, numbers.3 absent, behind);
      }

  pub sort_loop-IsSorted :
      (fuel : ℕ) (degrees : List (Bytes × ℕ)) (working sorted : List Bytes)
      → ((v : Bytes) → Counts v graph degrees working sorted)
      → IsSorted graph [] sorted
      → Gives
          (λ l.
            IsSorted graph [] l
            × ((v : Bytes) → (refs v l ≤ 1) × (keys v graph ≡ 0 → refs v l ≡ 0)))
          (sort_loop o graph fuel degrees working sorted)
  unfolding sort_loop total
  sort_loop-IsSorted zero degrees working sorted h s = tt
  sort_loop-IsSorted (suc fuel) degrees [] sorted h s =
      (s, λ v. (omega (arith, (h v).once), λ absent. omega (arith, (h v).known absent)))
  sort_loop-IsSorted (suc fuel) degrees (name ∷ working) sorted h s =
      let children : List Bytes = o.name_entries (get_or [] name graph) in
      let here = h name in
      let waits = one_self name in
      let none_left : degree name degrees ≡ 0 = here.free (omega (arith, waits)) in
      let new = mem_name-refs name sorted (omega (arith, waits, here.once)) in
      sort_loop-IsSorted fuel (lower_degrees children degrees working).0
        (lower_degrees children degrees working).1 (sorted ++ name ∷ [])
        (λ v. round-Counts name working sorted degrees new v (h v))
        (IsSorted-snoc graph [] sorted name s (omega (arith, none_left, here.counted)))
