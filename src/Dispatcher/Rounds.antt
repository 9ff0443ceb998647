-- ===== src/Dispatcher/Rounds.antt =====
-- lib/Dispatcher.cpp: a round of the timer's thread.
use openfix.Prelude.{ℕ, ◌+◌, ◌<◌, List, [], ◌∷◌, leb, if◌then◌else◌, All, ◌≡◌}
use openfix.Dispatcher.{TimerEvent, Timer, Ran, ran, RoundEnd, done, Rest}

-- Timers whose next time, seen from a time, is later and no overflow.
abbrev pub MovesOn : ℕ → List (ℕ × TimerEvent) → Type 0
MovesOn time = All (λ e. (0 < e.1.interval) × (time + e.1.interval < 18446744073709551616))

-- The times of the events ascend, and are above a bound.
abbrev pub IsAscending : List (ℕ × List ℕ) → Type 0
IsAscending [] = Unit
IsAscending ((t, ids) ∷ events) = All (λ e. t < e.0) events × IsAscending events

-- How many times are due.
abbrev due : ℕ → List (ℕ × List ℕ) → ℕ
due time [] = 0
due time ((t, ids) ∷ events) = (if leb t time then 1 else 0) + due time events

-- Within the loop over the timers of the first time: that time is still first.
record IsOpen (time key : ℕ) (n : ℕ) (s : Timer) : Type 0 where
  ids : List ℕ
  later : List (ℕ × List ℕ)
  first : s.events ≡ (key, ids) ∷ later
  ascends : IsAscending ((key, ids) ∷ later)
  moves_on : MovesOn time s.timers
  left : due time later ≡ n

-- The code ran to its end.
abbrev Ends : (Timer → Type 0) → Ran → Type 0
Ends P (ran s) = P s
Ends P Ran.undefined = ⊥
Ends P Ran.stuck = ⊥

-- A round that ends, with no event left that is due.
abbrev pub EndsRound : (Rest → Type 0) → RoundEnd → Type 0
EndsRound P (done r) = P r
EndsRound P RoundEnd.undefined = ⊥
EndsRound P RoundEnd.stuck = ⊥

pub record IsDone (time : ℕ) (r : Rest) : Type 0 where
  pub nothing_due : All (λ e. time < e.0) r.timer.events
  pub ascends : IsAscending r.timer.events

-- A timer as a round finds it.
pub record IsSound (time : ℕ) (s : Timer) : Type 0 where
  pub ascends : IsAscending s.events
  pub moves_on : MovesOn time s.timers
