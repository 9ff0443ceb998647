-- ===== src/CpuOrchestrator/Binding.antt =====
-- lib/CpuOrchestrator.cpp: what the threads that call `bind` one after the other are given.
use openfix.Prelude.{
  ℕ, zero, suc, ◌+◌, ◌%◌, ◌<◌, Bool, true, false, Option, none, some, List, [], ◌∷◌, Bytes,
  is_empty, length, leb, int_zero, if◌then◌else◌, ◌≡◌, ◌⊎◌, inl, inr, refl, sym, ap, arith,
  Bool-cases,
}
use mathlib.Core.Path.{subst}
use openfix.CpuOrchestrator.{
  Orchestrator, initial, bind, core_at, minus_one, ◌>>=◌, Machine, auto_detect, initialize,
  detect_physical_cores, detect_best_numa_node, select_cores, parse_cpu_list,
}

-- The results of calls of bind, one for each outcome of pthread_setaffinity_np.
unfoldable pub bind_all : List Bool → Orchestrator → List ℕ
unfolding bind
bind_all [] s = []
bind_all (affinity ∷ outcomes) s = let (s', core) = bind affinity s in core ∷ bind_all outcomes s'

-- The cores of a pool dealt out in their order.
unfoldable pub dealt : List ℕ → List Bool → List ℕ
dealt cores [] = []
dealt [] (affinity ∷ outcomes) = minus_one ∷ dealt [] outcomes
dealt (core ∷ cores) (affinity ∷ outcomes) =
    (if affinity then core else minus_one) ∷ dealt cores outcomes

-- The pool without the cores that have been dealt.
rest_of : List ℕ → ℕ → List ℕ
rest_of cores zero = cores
rest_of [] (suc n) = []
rest_of (core ∷ cores) (suc n) = rest_of cores n

dealt-rest_of :
    (cores : List ℕ) (n : ℕ) (affinity : Bool) (outcomes : List Bool)
    → dealt (rest_of cores n) (affinity ∷ outcomes)
      ≡ elim (core_at cores n) [
        | none ↦ minus_one
        | some core ↦ if affinity then core else minus_one
      ]
        ∷ dealt (rest_of cores (suc n)) outcomes
unfolding dealt rest_of core_at
dealt-rest_of [] zero affinity outcomes = refl
dealt-rest_of [] (suc n) affinity outcomes = refl
dealt-rest_of (c ∷ cores) zero affinity outcomes = refl
dealt-rest_of (c ∷ cores) (suc n) affinity outcomes = dealt-rest_of cores n affinity outcomes

abbrev running : List ℕ → ℕ → Orchestrator
running cores n = record { core_pool = cores; next_core = n; enabled = true }

bind_all-running :
    (outcomes : List Bool) (core : ℕ) (cores : List ℕ) (n : ℕ)
    → n + length outcomes < 18446744073709551616
    → bind_all outcomes (running (core ∷ cores) n) ≡ dealt (rest_of (core ∷ cores) n) outcomes
unfolding bind_all dealt
bind_all-running [] core cores n small = refl
bind_all-running (affinity ∷ outcomes) core cores n small =
    let next : (n + 1) % 18446744073709551616 ≡ suc n = omega (arith, small) in
    rw (dealt-rest_of (core ∷ cores) n affinity outcomes) (
      rw next (
        ap (◌∷◌ (bind affinity (running (core ∷ cores) n)).1)
          (bind_all-running outcomes core cores (suc n) (omega (arith, small)))))

no_cores :
    (outcomes : List Bool) (n : ℕ) (on : Bool)
    → bind_all outcomes (record { core_pool = []; next_core = n; enabled = on }) ≡ dealt [] outcomes
unfolding bind_all dealt
no_cores [] n on = refl
no_cores (affinity ∷ outcomes) n true = ap (◌∷◌ minus_one) (no_cores outcomes n true)
no_cores (affinity ∷ outcomes) n false = ap (◌∷◌ minus_one) (no_cores outcomes n false)

-- No core has been handed out, and binding is enabled unless there is no core.
abbrev IsReady : Orchestrator → Type 0
IsReady s = (s.next_core ≡ 0) × ((s.enabled ≡ true) ⊎ (s.core_pool ≡ []))

abbrev Ready? : Option Orchestrator → Type 0
Ready? none = Unit
Ready? (some s) = IsReady s

Ready?-bind :
    {A : Type 0} (m : Option A) (f : A → Option Orchestrator)
    → ((a : A) → Ready? (f a))
    → Ready? (m >>= f)
Ready?-bind none f h = tt
Ready?-bind (some a) f h = h a

auto_detect-IsReady : (m : Machine) (node : ℕ) → Ready? (auto_detect m node initial)
unfolding auto_detect
auto_detect-IsReady m node = Ready?-bind (detect_physical_cores m.cpus) _ λ physical.
    elim (Bool-cases (is_empty physical)) [
      | inl nothing ↦ rw nothing (refl, inr refl)
      | inr cores ↦ rw cores (
          Ready?-bind
            (if leb int_zero node
              then some node
              else detect_best_numa_node m.cpulist m.nodes physical)
            _
            λ chosen.
              Ready?-bind (select_cores m.cpulist chosen physical) (λ pool. some (running pool 0))
                λ pool. (refl, inl refl))
    ]

initialize-IsReady :
    (m : Machine) (list : Bytes) (avoid_ht : Bool) (node : ℕ)
    → Ready? (initialize m list avoid_ht node initial)
unfolding initialize
initialize-IsReady m [] true node = auto_detect-IsReady m node
initialize-IsReady m [] false node = (refl, inr refl)
initialize-IsReady m (c ∷ list) avoid_ht node = Ready?-bind (parse_cpu_list (c ∷ list)) _ pool_ready
  where
    pool_ready :
        (pool : List ℕ)
        → IsReady (record {
          core_pool = pool;
          next_core = 0;
          enabled = if is_empty pool then false else true;
        })
    pool_ready [] = (refl, inr refl)
    pool_ready (core ∷ cores) = (refl, inl refl)

bind_all-ready :
    (outcomes : List Bool) (pool : List ℕ) (n : ℕ) (on : Bool)
    → length outcomes < 18446744073709551616
    → n ≡ 0
    → (on ≡ true) ⊎ (pool ≡ [])
    → bind_all outcomes (record { core_pool = pool; next_core = n; enabled = on })
      ≡ dealt pool outcomes
unfolding rest_of
bind_all-ready outcomes [] n on small e ready = no_cores outcomes n on
bind_all-ready outcomes (core ∷ cores) n true small e ready =
    subst (λ k. bind_all outcomes (running (core ∷ cores) k) ≡ dealt (core ∷ cores) outcomes)
      (sym e) (bind_all-running outcomes core cores 0 (omega (arith, small)))
bind_all-ready outcomes (core ∷ cores) n false small e (inl on) = cc
bind_all-ready outcomes (core ∷ cores) n false small e (inr nothing) = cc

-- After initialize, whether it takes an explicit list of cores or detects them or does neither, the
-- threads that call bind one after the other, less than 2^64 of them, are given the cores of the
-- pool in their order, each entry at most once, a thread that cannot be bound -1 in place of its
-- core, and -1 when there are no more.
pub initialize-bind_all :
    (m : Machine) (list : Bytes) (avoid_ht : Bool) (node : ℕ) (s : Orchestrator)
    (outcomes : List Bool)
    → initialize m list avoid_ht node initial ≡ some s
    → length outcomes < 18446744073709551616
    → bind_all outcomes s ≡ dealt s.core_pool outcomes
initialize-bind_all m list avoid_ht node s outcomes e small =
    let ready : IsReady s = subst Ready? e (initialize-IsReady m list avoid_ht node) in
    bind_all-ready outcomes s.core_pool s.next_core s.enabled small ready.0 ready.1
