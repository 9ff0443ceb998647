-- ===== src/CpuOrchestrator.antt =====
-- lib/CpuOrchestrator.cpp: lists of CPUs, the choice of a NUMA node, and the pool that threads are
-- bound to. What the files and directories under /sys hold is an argument, and so is whether
-- pthread_setaffinity_np succeeds. An `int` is kept by its code. `none` is an exception.
pub mod Binding
pub mod Lists
pub mod Nodes
use openfix.Prelude.{
  ℕ, zero, suc, ◌+◌, ◌-◌, ◌*◌, ◌%◌, Bool, true, false, not, ◌&&◌, ◌||◌, Option, none, some, List,
  [], ◌∷◌, ◌++◌, ◌==◌, ltb, leb, if◌then◌else◌, Bytes, codes, bytes_eq, is_empty, length, take,
  drop, int_zero, is_digit,
}

infixl 5 ◌>>=◌
abbrev pub ◌>>=◌ {ℓ κ} : {A : Type ℓ} {B : Type κ} → Option A → (A → Option B) → Option B
none >>= f = none
some a >>= f = f a

-- -1
abbrev pub minus_one : ℕ
minus_one = 2147483647

-- std::stoi: white space, a sign, and digits; `none` where there is no digit, and where the number
-- is no int.
is_space : ℕ → Bool
is_space c = (c == 32) || (leb 9 c && leb c 13)

unfoldable pub skip_spaces : Bytes → Bytes
unfolding is_space
skip_spaces [] = []
skip_spaces (c ∷ s) = let more = skip_spaces s in if is_space c then more else c ∷ s

unfoldable pub read_digits : Bytes → ℕ → ℕ
read_digits [] acc = acc
read_digits (c ∷ s) acc =
    let more = read_digits s (acc * 10 + (c - 48)) in if is_digit c then more else acc

unfoldable pub int_up : ℕ → Option ℕ
int_up n = if leb n 2147483647 then some (int_zero + n) else none

unfoldable pub int_down : ℕ → Option ℕ
int_down n = if leb n 2147483648 then some (int_zero - n) else none

unfoldable pub positive_int : Bytes → Option ℕ
unfolding read_digits int_up
positive_int [] = none
positive_int (c ∷ s) = if is_digit c then int_up (read_digits (c ∷ s) 0) else none

unfoldable pub negative_int : Bytes → Option ℕ
unfolding read_digits int_down
negative_int [] = none
negative_int (c ∷ s) = if is_digit c then int_down (read_digits (c ∷ s) 0) else none

unfoldable pub signed_int : Bytes → Option ℕ
unfolding positive_int negative_int
signed_int [] = none
signed_int (c ∷ s) =
    if c == 45 then negative_int s else if c == 43 then positive_int s else positive_int (c ∷ s)

unfoldable pub stoi : Bytes → Option ℕ
unfolding signed_int skip_spaces
stoi s = signed_int (skip_spaces s)

-- The tokens that std::getline gives up to each separator; nothing follows a last separator.
unfoldable pub getline_all : ℕ → Bytes → Bytes → List Bytes
getline_all sep [] token = if is_empty token then [] else token ∷ []
getline_all sep (c ∷ s) token =
    if c == sep then token ∷ getline_all sep s [] else getline_all sep s (token ++ c ∷ [])

-- `find_first_not_of` and `find_last_not_of` of " \t\n\r", with `substr`.
is_blank : ℕ → Bool
is_blank c = (c == 32) || (c == 9) || (c == 10) || (c == 13)

trim_front : Bytes → Bytes
unfolding is_blank
trim_front [] = []
trim_front (c ∷ s) = let more = trim_front s in if is_blank c then more else c ∷ s

trim_back : Bytes → Bytes
unfolding is_blank
trim_back [] = []
trim_back (c ∷ s) = let more = trim_back s in if is_blank c && is_empty more then [] else c ∷ more

unfoldable pub trim : Bytes → Bytes
unfolding trim_front trim_back
trim s = trim_back (trim_front s)

-- `token.find('-')`: what is before and behind it.
unfoldable pub split_dash : Bytes → Option (Bytes × Bytes)
split_dash [] = none
split_dash (c ∷ s) =
    let more = split_dash s in
    if c == 45 then some ([], s) else elim more [ none ↦ none | some (lo, hi) ↦ some (c ∷ lo, hi) ]

-- `for (int i = lo; i <= hi; ++i)`, whose rounds are counted; for the largest int as `hi` the
-- source's loop overflows, which is undefined.
unfoldable pub int_range : ℕ → ℕ → List ℕ
int_range lo zero = []
int_range lo (suc rounds) = lo ∷ int_range (lo + 1) rounds

-- One token: the numbers that are pushed.
unfoldable pub parse_token : Bytes → Option (List ℕ)
unfolding split_dash stoi int_range
parse_token token = elim (split_dash token) [
  | some (front, back) ↦ do lo ← stoi front; hi ← stoi back; some (int_range lo (hi + 1 - lo))
  | none ↦ do cpu ← stoi token; some (cpu ∷ [])
]

unfoldable pub parse_tokens : List Bytes → List ℕ → Option (List ℕ)
unfolding trim parse_token
parse_tokens [] result = some result
parse_tokens (token ∷ tokens) result =
    if is_empty (trim token)
    then parse_tokens tokens result
    else (parse_token (trim token) >>= λ cpus. parse_tokens tokens (result ++ cpus))

-- std::sort of ints.
unfoldable pub insert_into : ℕ → List ℕ → List ℕ
insert_into x [] = x ∷ []
insert_into x (y ∷ ys) = if leb x y then x ∷ y ∷ ys else y ∷ insert_into x ys

unfoldable pub sort : List ℕ → List ℕ
unfolding insert_into
sort [] = []
sort (x ∷ xs) = insert_into x (sort xs)

-- CpuOrchestrator::parseCpuList
unfoldable pub parse_cpu_list : Bytes → Option (List ℕ)
unfolding parse_tokens getline_all sort
parse_cpu_list list = do result ← parse_tokens (getline_all 44 list []) []; some (sort result)

-- A directory entry of a CPU: its name, the number in the file "online" if there is one, and the
-- line of the file "thread_siblings_list" if there is one.
pub record CpuEntry : Type 0 where
  pub name : Bytes
  pub online : Option ℕ
  pub siblings : Option Bytes

-- `name.rfind(prefix, 0) == 0` with a longer name, and `stoi` of the rest, whose exceptions are
-- caught.
unfoldable pub entry_id : Bytes → Bytes → Option ℕ
unfolding bytes_eq stoi
entry_id prefix name =
    if bytes_eq (take (length prefix) name) prefix && ltb (length prefix) (length name)
    then stoi (drop (length prefix) name)
    else none

is_offline : Option ℕ → Bool
is_offline none = false
is_offline (some online) = online == 0

first_is : ℕ → List ℕ → Bool
first_is cpu [] = false
first_is cpu (s ∷ siblings) = s == cpu

-- One round of detectPhysicalCores.
detect_core : CpuEntry → List ℕ → Option (List ℕ)
unfolding entry_id is_offline first_is parse_cpu_list
detect_core e physical = elim (entry_id (codes "cpu") e.name) [
  | none ↦ some physical
  | some cpu ↦ if is_offline e.online then some physical else elim e.siblings [
    | none ↦ some physical
    | some line ↦ parse_cpu_list line >>= λ siblings.
        some (if first_is cpu siblings then physical ++ cpu ∷ [] else physical)
  ]
]

detect_cores : List CpuEntry → List ℕ → Option (List ℕ)
unfolding detect_core
detect_cores [] physical = some physical
detect_cores (e ∷ entries) physical = do
  physical' ← detect_core e physical
  detect_cores entries physical'

-- CpuOrchestrator::detectPhysicalCores
unfoldable pub detect_physical_cores : List CpuEntry → Option (List ℕ)
unfolding detect_cores sort
detect_physical_cores entries = do physical ← detect_cores entries []; some (sort physical)

-- CpuOrchestrator::getCoresForNumaNode; `cpulist` gives the line of a node's file if there is one.
unfoldable pub get_cores_for_numa_node : (ℕ → Option Bytes) → ℕ → Option (List ℕ)
unfolding parse_cpu_list
get_cores_for_numa_node cpulist node = elim (cpulist node) [
  | none ↦ some []
  | some line ↦ parse_cpu_list line
]

unfoldable pub contains : ℕ → List ℕ → Bool
contains x [] = false
contains x (y ∷ ys) = if y == x then true else contains x ys

-- The cores of a node that are physical.
unfoldable pub count_physical : List ℕ → List ℕ → ℕ
unfolding contains
count_physical physical [] = 0
count_physical physical (core ∷ cores) =
    (if contains core physical then 1 else 0) + count_physical physical cores

-- The update of `bestNode` and `bestCount`.
unfoldable pub better : ℕ → ℕ → ℕ × ℕ → ℕ × ℕ
better node count (best_node, best_count) =
    if ltb best_count count
      || ((count == best_count) && (ltb best_node int_zero || ltb node best_node))
    then (node, count)
    else (best_node, best_count)

unfoldable pub best_of : (ℕ → Option Bytes) → List ℕ → List Bytes → ℕ × ℕ → Option (ℕ × ℕ)
unfolding better count_physical entry_id get_cores_for_numa_node
best_of cpulist physical [] best = some best
best_of cpulist physical (name ∷ names) best = elim (entry_id (codes "node") name) [
  | none ↦ best_of cpulist physical names best
  | some node ↦ get_cores_for_numa_node cpulist node >>= λ cores.
      best_of cpulist physical names (better node (count_physical physical cores) best)
]

-- CpuOrchestrator::detectBestNumaNode; `none` for the names is a directory that does not exist.
unfoldable pub detect_best_numa_node : (ℕ → Option Bytes) → Option (List Bytes) → List ℕ → Option ℕ
unfolding best_of
detect_best_numa_node cpulist none physical = some minus_one
detect_best_numa_node cpulist (some names) physical = do
  best ← best_of cpulist physical names (minus_one, 0)
  some best.0

-- The static members. `next_core` is a size_t.
pub record Orchestrator : Type 0 where
  pub core_pool : List ℕ
  pub next_core : ℕ
  pub enabled : Bool

abbrev pub initial : Orchestrator
initial = record { core_pool = []; next_core = 0; enabled = false }

filter_cores : List ℕ → List ℕ → List ℕ
unfolding contains
filter_cores node_cores [] = []
filter_cores node_cores (core ∷ cores) =
    if contains core node_cores
    then core ∷ filter_cores node_cores cores
    else filter_cores node_cores cores

-- The NUMA filtering of initialize.
unfoldable pub select_cores : (ℕ → Option Bytes) → ℕ → List ℕ → Option (List ℕ)
unfolding filter_cores get_cores_for_numa_node
select_cores cpulist node physical =
    if ltb node int_zero
    then some physical
    else (get_cores_for_numa_node cpulist node >>= λ node_cores.
        let filtered = filter_cores node_cores physical in
        some (if is_empty filtered then physical else filtered))

-- What initialize reads under /sys.
pub record Machine : Type 0 where
  pub cpus : List CpuEntry
  pub nodes : Option (List Bytes)
  pub cpulist : ℕ → Option Bytes

-- CpuOrchestrator::initialize
unfoldable pub auto_detect : Machine → ℕ → Orchestrator → Option Orchestrator
unfolding detect_physical_cores detect_best_numa_node select_cores
auto_detect m numa_node s = do
  physical ← detect_physical_cores m.cpus
  if is_empty physical then some s else do
    node ←
        if leb int_zero numa_node
        then some numa_node
        else detect_best_numa_node m.cpulist m.nodes physical
    cores ← select_cores m.cpulist node physical
    some (record s { core_pool = cores; enabled = true })

unfoldable pub initialize : Machine → Bytes → Bool → ℕ → Orchestrator → Option Orchestrator
unfolding auto_detect parse_cpu_list
initialize m cpu_cores avoid_ht numa_node s =
    if is_empty cpu_cores
    then (if avoid_ht then auto_detect m numa_node s else some s)
    else (parse_cpu_list cpu_cores >>= λ pool.
        some (record s { core_pool = pool; enabled = if is_empty pool then s.enabled else true }))

unfoldable pub core_at : List ℕ → ℕ → Option ℕ
core_at [] i = none
core_at (c ∷ cs) zero = some c
core_at (c ∷ cs) (suc i) = core_at cs i

-- CpuOrchestrator::bind, where `affinity` says whether the thread could be bound.
unfoldable pub bind : Bool → Orchestrator → Orchestrator × ℕ
unfolding core_at
bind affinity s = if not s.enabled || is_empty s.core_pool then (s, minus_one) else (
  record s { next_core = (s.next_core + 1) % 18446744073709551616 },
  elim (core_at s.core_pool s.next_core) [
    | none ↦ minus_one
    | some core ↦ if affinity then core else minus_one
  ],
)
