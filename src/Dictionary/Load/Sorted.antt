-- ===== src/Dictionary/Load/Sorted.antt =====
-- The order in which DictionaryRegistry::load of src/Dictionary.cpp sorts the components.
pub mod Start
pub mod Loop
pub mod Complete
pub mod References
pub mod Passes
use openfix.Prelude.{
  ℕ, zero, suc, ◌+◌, ◌-◌, ◌≤◌, ◌<◌, Bool, true, false, ◌||◌, Option, none, some, List, [], ◌∷◌,
  ◌++◌, ◌==◌, if◌then◌else◌, Bytes, bytes_eq, bytes_eq→eq, bytes_eq_refl, length, ◌≡◌, ◌⊎◌, inl,
  inr, refl, sym, arith, Bool-cases, append-nil, append_assoc,
}
use mathlib.Core.Path.{subst}
use openfix.Dictionary.{find_key}
use openfix.Dictionary.Load.{
  LoadError, Loading, loaded, failed, ◌>>=◌, Gives, Gives-bind, Gives-loaded, HashOrder, get_or,
}
use openfix.Dictionary.Load.Graph.{
  has_key, change_key, mem_name, count_children, count_degrees, seeds, lower_degree, lower_degrees,
  sort_loop, positive, toposort,
}

-- The sum of the weights of entries.
unfoldable pub total {ℓ} : {A : Type ℓ} → (A → ℕ) → List A → ℕ
total f [] = 0
total f (x ∷ xs) = f x + total f xs

pub total-append {ℓ} :
    {A : Type ℓ} (f : A → ℕ) (xs ys : List A) → total f (xs ++ ys) ≡ total f xs + total f ys
unfolding total
total-append f [] ys = omega arith
total-append f (x ∷ xs) ys = omega (arith, total-append f xs ys)

-- A hash map gives each of its entries once: every weighting adds up to the same.
pub record GivesEntriesOnce (o : HashOrder) : Type 0 where
  pub names : (f : Bytes → ℕ) (l : List Bytes) → total f (o.name_entries l) ≡ total f l
  pub graph :
      (f : Bytes × List Bytes → ℕ) (l : List (Bytes × List Bytes))
      → total f (o.graph_entries l) ≡ total f l
  pub degrees :
      (f : Bytes × ℕ → ℕ) (l : List (Bytes × ℕ)) → total f (o.degree_entries l) ≡ total f l

-- How often a name occurs, and `indegrees[name]`.
abbrev pub refs : Bytes → List Bytes → ℕ
refs v = total (λ x. if bytes_eq x v then 1 else 0)

unfoldable pub degree : Bytes → List (Bytes × ℕ) → ℕ
degree v [] = 0
degree v ((name, n) ∷ degrees) = if bytes_eq name v then n else degree v degrees

-- The references to a component from components that have not been sorted.
abbrev pub remaining : Bytes → List (Bytes × List Bytes) → List Bytes → ℕ
remaining v graph sorted = total (λ e. if mem_name e.0 sorted then 0 else refs v e.1) graph

-- How many entries have a key.
abbrev pub keys {ℓ} : {A : Type ℓ} → Bytes → List (Bytes × A) → ℕ
keys v = total (λ e. if bytes_eq e.0 v then 1 else 0)

-- Only components are referred to.
abbrev pub IsClosed : List (Bytes × List Bytes) → Type 0
IsClosed graph = (v : Bytes) → keys v graph ≡ 0 → remaining v graph [] ≡ 0

-- Each component stands behind all those that refer to it.
abbrev pub IsSorted : List (Bytes × List Bytes) → List Bytes → List Bytes → Type 0
IsSorted graph before [] = Unit
IsSorted graph before (v ∷ vs) =
    (remaining v graph before ≡ 0) × IsSorted graph (before ++ v ∷ []) vs

-- No two entries have the same key.
abbrev pub Distinct {ℓ} : {A : Type ℓ} → List (Bytes × A) → Type 0
Distinct [] = Unit
Distinct ((k, a) ∷ m) = (has_key k m ≡ false) × Distinct m

pub IsSorted-snoc :
    (graph : List (Bytes × List Bytes)) (before xs : List Bytes) (v : Bytes)
    → IsSorted graph before xs
    → remaining v graph (before ++ xs) ≡ 0
    → IsSorted graph before (xs ++ v ∷ [])
IsSorted-snoc graph before [] v h e = (rw (append-nil before) at e, tt)
IsSorted-snoc graph before (x ∷ xs) v h e =
    (h.0, IsSorted-snoc graph (before ++ x ∷ []) xs v h.1 (rw (append_assoc before (x ∷ []) xs) e))

degree-lower_degree :
    (v c : Bytes) (degrees : List (Bytes × ℕ))
    → degree v (lower_degree c degrees).0 ≡ degree v degrees - (if bytes_eq c v then 1 else 0)
unfolding degree lower_degree
degree-lower_degree v c [] = omega arith
degree-lower_degree v c ((name, zero) ∷ degrees) =
    ground
      (arith, degree-lower_degree v c degrees, bytes_eq→eq name c, bytes_eq→eq c v, bytes_eq_refl c)
degree-lower_degree v c ((name, suc n) ∷ degrees) = ground (
  arith,
  degree-lower_degree v c degrees,
  bytes_eq→eq name c,
  bytes_eq→eq name v,
  bytes_eq→eq c v,
  bytes_eq_refl c,
)

ready-degree :
    (c : Bytes) (degrees : List (Bytes × ℕ))
    → (lower_degree c degrees).1 ≡ true
    → degree c degrees ≡ 1
unfolding degree lower_degree
ready-degree c [] e = ground (arith, e)
ready-degree c ((name, zero) ∷ degrees) e = ground (arith, e, ready-degree c degrees)
ready-degree c ((name, suc n) ∷ degrees) e = ground (arith, e, ready-degree c degrees)

-- What lowering the degrees of some children does to a node: its degree, and whether it is pushed.
abbrev pub Pushed : Bytes → List (Bytes × ℕ) → List Bytes → List (Bytes × ℕ) → List Bytes → Type 0
Pushed v degrees working degrees' working' =
    (refs v working' ≡ refs v working)
    ⊎ ((refs v working' ≡ refs v working + 1) × (0 < degree v degrees) × (degree v degrees' ≡ 0))

refs-pushed :
    (v c : Bytes) (working : List Bytes) (ready : Bool)
    → refs v (if ready then working ++ c ∷ [] else working)
      ≡ refs v working + (if ready then (if bytes_eq c v then 1 else 0) else 0)
unfolding total
refs-pushed v c working true =
    omega (arith, total-append (λ x. if bytes_eq x v then 1 else 0) working (c ∷ []))
refs-pushed v c working false = omega arith

pub degree-lower_degrees :
    (v : Bytes) (cs : List Bytes) (degrees : List (Bytes × ℕ)) (working : List Bytes)
    → degree v (lower_degrees cs degrees working).0 ≡ degree v degrees - refs v cs
unfolding lower_degrees total
degree-lower_degrees v [] degrees working = omega arith
degree-lower_degrees v (c ∷ cs) degrees working = omega (
  arith,
  degree-lower_degree v c degrees,
  degree-lower_degrees v cs (lower_degree c degrees).0
      (if (lower_degree c degrees).1 then working ++ c ∷ [] else working),
)

ready-degree_of :
    (v c : Bytes) (degrees : List (Bytes × ℕ))
    → (lower_degree c degrees).1 ≡ true
    → bytes_eq c v ≡ true
    → degree v degrees ≡ 1
ready-degree_of v c degrees r q =
    subst (λ x. degree x degrees ≡ 1) (bytes_eq→eq c v q) (ready-degree c degrees r)

-- The numbers of one step and of the later ones.
pushed_once :
    (w w₁ w₂ d d₁ d₂ : ℕ) (ready same : Bool)
    → (w₂ ≡ w₁) ⊎ ((w₂ ≡ w₁ + 1) × (0 < d₁) × (d₂ ≡ 0))
    → d₂ ≤ d₁
    → w₁ ≡ w + (if ready then (if same then 1 else 0) else 0)
    → d₁ ≡ d - (if same then 1 else 0)
    → (ready ≡ true → same ≡ true → d ≡ 1)
    → (w₂ ≡ w) ⊎ ((w₂ ≡ w + 1) × (0 < d) × (d₂ ≡ 0))
pushed_once w w₁ w₂ d d₁ d₂ true true (inl e) h now low one =
    let e₁ = one refl refl in inr (omega arith)
pushed_once w w₁ w₂ d d₁ d₂ true true (inr e) h now low one =
    let e₁ = one refl refl in absurd (omega arith)
pushed_once w w₁ w₂ d d₁ d₂ true false r h now low one = omega arith
pushed_once w w₁ w₂ d d₁ d₂ false true r h now low one = omega arith
pushed_once w w₁ w₂ d d₁ d₂ false false r h now low one = omega arith

pub lower_degrees-Pushed :
    (v : Bytes) (cs : List Bytes) (degrees : List (Bytes × ℕ)) (working : List Bytes)
    → Pushed v degrees working
        (lower_degrees cs degrees working).0
        (lower_degrees cs degrees working).1
unfolding lower_degrees
lower_degrees-Pushed v [] degrees working = inl refl
lower_degrees-Pushed v (c ∷ cs) degrees working =
    let ready : Bool = (lower_degree c degrees).1 in
    let pushed : List Bytes = if ready then working ++ c ∷ [] else working in
    pushed_once (refs v working) (refs v pushed) _ (degree v degrees)
      (degree v (lower_degree c degrees).0) _ ready (bytes_eq c v)
      (lower_degrees-Pushed v cs (lower_degree c degrees).0 pushed)
      (omega (arith, degree-lower_degrees v cs (lower_degree c degrees).0 pushed))
      (refs-pushed v c working ready) (degree-lower_degree v c degrees)
      (ready-degree_of v c degrees)

pub mem_name-append :
    (u v : Bytes) (xs : List Bytes)
    → mem_name u (xs ++ v ∷ []) ≡ (if mem_name u xs then true else bytes_eq v u)
unfolding mem_name
mem_name-append u v [] = ground arith
mem_name-append u v (x ∷ xs) = ground (arith, mem_name-append u v xs)

pub mem_name-refs : (u : Bytes) (xs : List Bytes) → refs u xs ≡ 0 → mem_name u xs ≡ false
unfolding mem_name total
mem_name-refs u [] h = refl
mem_name-refs u (x ∷ xs) h = ground (arith, h, mem_name-refs u xs)

-- Sorting a name that is not a key takes nothing away, and sorting one takes its references away.
remaining-other :
    (v name : Bytes) (graph : List (Bytes × List Bytes)) (sorted : List Bytes)
    → has_key name graph ≡ false
    → remaining v graph (sorted ++ name ∷ []) ≡ remaining v graph sorted
unfolding has_key total
remaining-other v name [] sorted h = refl
remaining-other v name ((u, cs) ∷ graph) sorted h = ground (
  arith,
  h,
  remaining-other v name graph sorted,
  mem_name-append u name sorted,
  bytes_eq→eq name u,
  bytes_eq_refl u,
)

pub remaining-snoc :
    (v name : Bytes) (graph : List (Bytes × List Bytes)) (sorted : List Bytes)
    → Distinct graph
    → mem_name name sorted ≡ false
    → remaining v graph (sorted ++ name ∷ []) + refs v (get_or [] name graph)
      ≡ remaining v graph sorted
unfolding total get_or find_key
remaining-snoc v name [] sorted d h = omega arith
remaining-snoc v name ((u, cs) ∷ graph) sorted d h = elim (Bool-cases (bytes_eq u name)) [
  | inl is ↦
      let e = bytes_eq→eq u name is in
      let other =
        remaining-other v name graph sorted (subst (λ x. has_key x graph ≡ false) e d.0) in
      let seen = subst (λ x. mem_name x sorted ≡ false) (sym e) h in
      let now = subst (λ x. bytes_eq name x ≡ true) (sym e) (bytes_eq_refl name) in
      rw (is, get_or) (ground (arith, other, seen, now, mem_name-append u name sorted))
  | inr other ↦
      rw (other, get_or)
        (ground (
          arith,
          remaining-snoc v name graph sorted d.1 h,
          mem_name-append u name sorted,
          differs u name other,
        ))
]
  where
    differs : (u name : Bytes) → bytes_eq u name ≡ false → bytes_eq name u ≡ false
    differs u name h = ground (arith, h, bytes_eq→eq name u, bytes_eq_refl u)

pub remaining-le :
    (v : Bytes) (graph : List (Bytes × List Bytes)) (sorted : List Bytes)
    → remaining v graph sorted ≤ remaining v graph []
unfolding total mem_name
remaining-le v [] sorted = omega arith
remaining-le v (e ∷ graph) sorted = ground (arith, remaining-le v graph sorted)
