-- ===== src/Tests/System.antt =====
-- Runs of the models of lib/CpuOrchestrator.cpp, lib/Dispatcher.cpp, lib/Utils.h and src/Config.h,
-- and their theorems at inputs that meet the hypotheses.
use openfix.Prelude.{
  ℕ, ◌+◌, true, false, Option, none, some, List, [], ◌∷◌, Bytes, codes, bytes_eq, All, IsInt, int,
  long_zero, ◌≡◌, refl, arith, ◌≤◌, if◌then◌else◌, ◌==◌,
}
use openfix.CpuOrchestrator.{
  Orchestrator, initial, Machine, initialize, parse_cpu_list, minus_one, entry_id, count_physical,
  get_cores_for_numa_node, detect_best_numa_node,
}
use openfix.CpuOrchestrator.Binding.{bind_all, dealt, initialize-bind_all}
use openfix.CpuOrchestrator.Nodes.{detect_best_numa_node-HasMost}
use openfix.CpuOrchestrator.Lists.{Gives, IsAscending, parse_cpu_list-IsAscending}
use openfix.Dispatcher.{Timer, done, run}
use openfix.Utils.{parse_utc_timestamp, PrefixCache, write_utc_timestamp}
use openfix.Utils.Calendar.{days_of_years, days_of_months}
use openfix.Utils.Timestamps.{IsCached, seconds_since_1970, parse_utc_timestamp-write_utc_timestamp}
use openfix.Config.{
  Defaults, Loaded, loaded, threw, no_defaults, config, load, get_elem?, get_session_type,
}
use openfix.Config.Typed.{none_yet}
use openfix.Config.Written.{Holds, load-Holds}
use openfix.Config.Declared.{platform_settings, declare, declare-Registered}
use openfix.Session.State.{SessionType}

cpu_list_run : parse_cpu_list (codes "4, 0-2") ≡ some (int 0 ∷ int 1 ∷ int 2 ∷ int 4 ∷ [])
unfolding parse_cpu_list
cpu_list_run = refl

cpu_list_throws : parse_cpu_list (codes "1,x") ≡ none
unfolding parse_cpu_list
cpu_list_throws = refl

parse_cpu_list-IsAscending_example :
    Gives (λ l. All IsInt l × IsAscending l) (parse_cpu_list (codes "4, 0-2"))
parse_cpu_list-IsAscending_example = parse_cpu_list-IsAscending (codes "4, 0-2")

-- Two physical cores with a sibling each, and one NUMA node that has one of them.
abbrev machine : Machine
machine = record {
  cpus =
      record { name = codes "cpu0"; online = none; siblings = some (codes "0,2") }
      ∷ record { name = codes "cpufreq"; online = none; siblings = none }
      ∷ record { name = codes "cpu2"; online = some 1; siblings = some (codes "0,2") }
      ∷ record { name = codes "cpu1"; online = some 1; siblings = some (codes "1,3") }
      ∷ [];
  nodes = some (codes "node0" ∷ codes "possible" ∷ []);
  cpulist = λ node. some (codes "1-3");
}

abbrev detected : Orchestrator
detected = record { core_pool = int 1 ∷ []; next_core = 0; enabled = true }

detected_run : initialize machine [] true minus_one initial ≡ some detected
unfolding initialize
detected_run = refl

initialize-bind_all_example :
    bind_all (true ∷ true ∷ []) detected ≡ dealt (int 1 ∷ []) (true ∷ true ∷ [])
initialize-bind_all_example =
    initialize-bind_all machine [] true minus_one detected (true ∷ true ∷ []) detected_run
      (omega arith)

dealt_run : dealt (int 1 ∷ []) (true ∷ true ∷ []) ≡ int 1 ∷ minus_one ∷ []
unfolding dealt
dealt_run = refl

-- A timer that repeats, one that does not, and one that has been erased.
abbrev timer : Timer
timer = record {
  timer_count = 3;
  timers =
      (1, record { callback = 10; repeating = true; interval = 5 })
      ∷ (2, record { callback = 20; repeating = false; interval = 7 })
      ∷ [];
  events = (90, 1 ∷ 3 ∷ []) ∷ (100, 2 ∷ []) ∷ (120, 3 ∷ []) ∷ [];
  called = [];
}

timer_run :
    run 100 none timer
    ≡ done (record {
      timer = record {
        timer_count = 3;
        timers = (1, record { callback = 10; repeating = true; interval = 5 }) ∷ [];
        events = (105, 1 ∷ []) ∷ (120, 3 ∷ []) ∷ [];
        called = 10 ∷ 20 ∷ [];
      };
      next = some 105;
    })
unfolding run
timer_run = refl

-- 2024-02-29 12:30:15.250
abbrev epoch_s : ℕ
epoch_s = 1709209815

abbrev format : ℕ → Bytes
format second = codes "20240229-12:30:15"

abbrev cache : PrefixCache
cache = record { cached_s = epoch_s; cached_prefix = codes "20240229-12:30:15" }

timestamp_run : parse_utc_timestamp (codes "20240229-12:30:15.250") ≡ long_zero + 1709209815250
unfolding parse_utc_timestamp
timestamp_run = refl

short_timestamp_run : parse_utc_timestamp (codes "20240229") ≡ long_zero
unfolding parse_utc_timestamp
short_timestamp_run = refl

seconds_run : seconds_since_1970 2024 2 29 12 30 15 ≡ epoch_s
unfolding days_of_years days_of_months
seconds_run = refl

parse_utc_timestamp-write_utc_timestamp_example :
    (parse_utc_timestamp (write_utc_timestamp format 1709209815250 cache).0
      ≡ long_zero + 1709209815250)
    × IsCached format (write_utc_timestamp format 1709209815250 cache).1
parse_utc_timestamp-write_utc_timestamp_example =
    parse_utc_timestamp-write_utc_timestamp format 1709209815250 cache 2024 2 29 12 30 15 refl
      (record {
        year_from = omega arith;
        year_to = omega arith;
        month_from = omega arith;
        month_to = omega arith;
        day_from = omega arith;
        day_to = omega arith;
        hour_to = omega arith;
        minute_to = omega arith;
        second_to = omega arith;
      })
      seconds_run refl

-- The settings of the platform, where a double is a number.
abbrev registry : Defaults ℕ
registry = declare platform_settings no_defaults

abbrev stod : Bytes → Option ℕ
stod text = none

abbrev settings : List (Bytes × Bytes)
settings = (codes "UpdateDelay", codes "250") ∷ (codes "Unknown", codes "1") ∷ []

abbrev delay_of : Loaded ℕ → Option ℕ
delay_of (loaded c) = get_elem? c.long_values 3
delay_of (threw c) = none
delay_of Loaded.undefined = none

delay_run : delay_of (load stod registry settings (config registry)) ≡ some (long_zero + 250)
unfolding load declare bytes_eq get_elem?
delay_run = refl

load_throws :
    load stod registry ((codes "UpdateDelay", codes "soon") ∷ []) (config registry)
    ≡ threw (config registry)
unfolding load declare bytes_eq
load_throws = refl

session_type_run : get_session_type (codes "Initiator") ≡ some SessionType.initiator
unfolding get_session_type bytes_eq
session_type_run = refl

load-Holds_example : Holds stod registry settings (load stod registry settings (config registry))
load-Holds_example =
    load-Holds stod registry settings (declare-Registered platform_settings no_defaults none_yet)

abbrev two_nodes : ℕ → Option Bytes
two_nodes node = if node == int 0 then some (codes "0-1") else some (codes "2-4")

detect_best_numa_node-HasMost_example :
    (best_cores : List ℕ) × (get_cores_for_numa_node two_nodes (int 1) ≡ some best_cores)
    × (count_physical (int 0 ∷ int 2 ∷ int 3 ∷ []) (int 0 ∷ int 1 ∷ [])
        ≤ count_physical (int 0 ∷ int 2 ∷ int 3 ∷ []) best_cores)
unfolding detect_best_numa_node get_cores_for_numa_node parse_cpu_list entry_id bytes_eq
detect_best_numa_node-HasMost_example =
    detect_best_numa_node-HasMost two_nodes (int 0 ∷ int 2 ∷ int 3 ∷ []) (codes "possible" ∷ [])
      (codes "node1" ∷ []) (codes "node0") (int 0) (int 1) (int 0 ∷ int 1 ∷ []) refl refl refl
