-- ===== src/CpuOrchestrator/Nodes.antt =====
-- lib/CpuOrchestrator.cpp: the node that detectBestNumaNode gives.
use openfix.Prelude.{
  ℕ, ◌≤◌, Option, some, List, [], ◌∷◌, ◌++◌, ◌==◌, ltb, ◌||◌, ◌&&◌, Bytes, codes, int_zero, sym,
  ◌∙◌, ◌≡◌, ◌⊎◌, inl, inr, refl, arith, Bool-cases, Option-cases,
}
use mathlib.Core.Path.{subst}
use openfix.CpuOrchestrator.{
  minus_one, entry_id, get_cores_for_numa_node, count_physical, better, best_of,
  detect_best_numa_node,
}

module _ (cpulist : ℕ → Option Bytes) (physical : List ℕ) where
  -- The node has so many of the physical cores.
  abbrev pub HasCount : ℕ × ℕ → Type 0
  HasCount (node, k) =
      (cores : List ℕ) × (get_cores_for_numa_node cpulist node ≡ some cores)
      × (count_physical physical cores ≡ k)

  -- The best node so far: one that was counted, or none.
  abbrev IsBest : ℕ × ℕ → Type 0
  IsBest best = HasCount best ⊎ (best ≡ (minus_one, 0))

  better-first : (node count : ℕ) → better node count (minus_one, 0) ≡ (node, count)
  unfolding better
  better-first node count = ground arith

  better-HasCount :
      (node : ℕ) (cores : List ℕ) (best : ℕ × ℕ)
      → get_cores_for_numa_node cpulist node ≡ some cores
      → IsBest best
      → HasCount (better node (count_physical physical cores) best)
  unfolding better
  better-HasCount node cores best read (inr start) =
      subst (λ b. HasCount (better node (count_physical physical cores) b)) (sym start)
        (subst HasCount (sym (better-first node (count_physical physical cores)))
          (cores, read, refl))
  better-HasCount node cores (b, k) read (inl h) =
      let count = count_physical physical cores in
      elim (Bool-cases (ltb k count || ((count == k) && (ltb b int_zero || ltb node b)))) [
        | inl up ↦ rw up (cores, read, refl)
        | inr stays ↦ rw stays h
      ]

  better-max :
      (node count : ℕ) (best : ℕ × ℕ)
      → (best.1 ≤ (better node count best).1) × (count ≤ (better node count best).1)
  unfolding better
  better-max node count (b, k) = ground arith

  -- From a node that was counted on, the loop gives a counted node with at least its cores.
  best_of-grows :
      (names : List Bytes) (best final : ℕ × ℕ)
      → HasCount best
      → best_of cpulist physical names best ≡ some final
      → HasCount final × (best.1 ≤ final.1)
  unfolding best_of
  best_of-grows [] best final h e =
      let same : best ≡ final = cc in (subst HasCount same h, ground (arith, same))
  best_of-grows (name ∷ names) best final h e = elim (Option-cases (entry_id (codes "node") name)) [
    | inl other ↦ best_of-grows names best final h ((rw (other, best_of) refl) ∙ e)
    | inr (node, named) ↦ elim (Option-cases (get_cores_for_numa_node cpulist node)) [
      | inl threw ↦ ground (arith, e, named, threw)
      | inr (cores, read) ↦
          let count = count_physical physical cores in
          let (found, more) =
            best_of-grows names (better node count best) final
              (better-HasCount node cores best read (inl h))
              ((rw (named, read, best_of) refl) ∙ e) in
          (found, ground (arith, more, better-max node count best))
    ]
  ]

  best_of-counts :
      (front back : List Bytes) (name : Bytes) (node : ℕ) (cores : List ℕ) (best final : ℕ × ℕ)
      → entry_id (codes "node") name ≡ some node
      → get_cores_for_numa_node cpulist node ≡ some cores
      → IsBest best
      → best_of cpulist physical (front ++ name ∷ back) best ≡ some final
      → HasCount final × (count_physical physical cores ≤ final.1)
  unfolding best_of
  best_of-counts [] back name node cores best final named read h e =
      let count = count_physical physical cores in
      let (found, more) =
        best_of-grows back (better node count best) final (better-HasCount node cores best read h)
          ((rw (named, read, best_of) refl) ∙ e) in
      (found, ground (arith, more, better-max node count best))
  best_of-counts (n ∷ front) back name node cores best final named read h e =
      elim (Option-cases (entry_id (codes "node") n)) [
        | inl other ↦
            best_of-counts front back name node cores best final named read h
              ((rw (other, best_of) refl) ∙ e)
        | inr (node', named') ↦ elim (Option-cases (get_cores_for_numa_node cpulist node')) [
          | inl threw ↦ ground (arith, e, named', threw)
          | inr (cores', read') ↦
              best_of-counts front back name node cores
                (better node' (count_physical physical cores') best) final named read
                (inl (better-HasCount node' cores' best read' h))
                ((rw (named', read', best_of) refl) ∙ e)
        ]
      ]

  -- Where detectBestNumaNode returns, and the directory has an entry of a node whose cores are
  -- read, the result is a node whose cores are read too, and it has at least as many physical cores
  -- as that entry's.
  pub detect_best_numa_node-HasMost :
      (front back : List Bytes) (name : Bytes) (node best : ℕ) (cores : List ℕ)
      → detect_best_numa_node cpulist (some (front ++ name ∷ back)) physical ≡ some best
      → entry_id (codes "node") name ≡ some node
      → get_cores_for_numa_node cpulist node ≡ some cores
      → (best_cores : List ℕ) × (get_cores_for_numa_node cpulist best ≡ some best_cores)
        × (count_physical physical cores ≤ count_physical physical best_cores)
  unfolding detect_best_numa_node
  detect_best_numa_node-HasMost front back name node best cores e named read =
      elim (Option-cases (best_of cpulist physical (front ++ name ∷ back) (minus_one, 0))) [
        | inl threw ↦ ground (arith, e, threw)
        | inr (final, found) ↦
            let ((best_cores, got, count), most) =
              best_of-counts front back name node cores (minus_one, 0) final named read (inr refl)
                found in
            let same : final.0 ≡ best = ground (arith, e, found) in
            (
              best_cores,
              subst (λ n. get_cores_for_numa_node cpulist n ≡ some best_cores) same got,
              ground (arith, most, count),
            )
      ]
