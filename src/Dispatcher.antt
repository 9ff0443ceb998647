-- ===== src/Dispatcher.antt =====
-- lib/Dispatcher.cpp: the timer, one round of its thread under the lock, and the workers' queues.
-- A callback is a number, and what has been called is a list, oldest first. Callbacks run while the
-- timer's mutex is held, so that none of them can call the timer.
pub mod Rounds
use openfix.Prelude.{
  ℕ, zero, suc, ◌+◌, ◌-◌, ◌%◌, Bool, true, false, Option, none, some, List, [], ◌∷◌, ◌++◌, ◌==◌,
  ltb, leb, if◌then◌else◌, length,
}
use openfix.LinkedHashMap.{find, erase}

abbrev pub u64 : ℕ
u64 = 18446744073709551616

abbrev u32 : ℕ
u32 = 4294967296

-- struct TimerEvent
pub record TimerEvent : Type 0 where
  pub callback : ℕ
  pub repeating : Bool
  pub interval : ℕ

-- `m_timerCount`, `m_timers` and `m_events`, whose times ascend, and what has been called.
pub record Timer : Type 0 where
  pub timer_count : ℕ
  pub timers : List (ℕ × TimerEvent)
  pub events : List (ℕ × List ℕ)
  pub called : List ℕ

-- `m_events[time].push_back(id)`
unfoldable pub add_event : ℕ → ℕ → List (ℕ × List ℕ) → List (ℕ × List ℕ)
add_event time id [] = (time, id ∷ []) ∷ []
add_event time id ((t, ids) ∷ events) =
    if ltb time t
    then (time, id ∷ []) ∷ (t, ids) ∷ events
    else if t == time
    then (t, ids ++ id ∷ []) ∷ events
    else (t, ids) ∷ add_event time id events

-- A round ends, does something undefined, or ran out of the model's fuel.
pub data Ran : Type 0 where
  ran : Timer → Ran
  undefined stuck : Ran

infixl 5 ◌>>=◌
abbrev pub ◌>>=◌ : Ran → (Timer → Ran) → Ran
ran s >>= f = f s
undefined >>= f = undefined
stuck >>= f = stuck

-- The callback of a timer, and what becomes of the timer. Where its next time is the one whose list
-- is gone through, `push_back` changes that list, which is undefined.
unfoldable pub call_timer : ℕ → ℕ → ℕ → TimerEvent → Timer → Ran
unfolding add_event erase
call_timer time key id timer s =
    let next_time = (time + timer.interval) % u64 in
    if timer.repeating
    then (if next_time == key
        then undefined
        else ran (record s {
          events = add_event next_time id s.events;
          called = s.called ++ timer.callback ∷ [];
        }))
    else ran (record s { timers = erase id s.timers; called = s.called ++ timer.callback ∷ [] })

unfoldable pub call_id : ℕ → ℕ → ℕ → Timer → Ran
unfolding find call_timer
call_id time key id s = elim (find id s.timers) [
  | none ↦ ran s
  | some timer ↦ call_timer time key id timer s
]

-- The loop over the timers of one time.
unfoldable pub call_ids : ℕ → ℕ → List ℕ → Timer → Ran
unfolding call_id
call_ids time key [] s = ran s
call_ids time key (id ∷ ids) s = call_id time key id s >>= λ s'. call_ids time key ids s'

-- The loop over the events that are due, with what it leaves in `next`, on fuel. `none` for `next`
-- is a variable that has no value.
pub record Rest : Type 0 where
  pub timer : Timer
  pub next : Option ℕ

pub data RoundEnd : Type 0 where
  done : Rest → RoundEnd
  undefined stuck : RoundEnd

abbrev pub after : Ran → (Timer → RoundEnd) → RoundEnd
after (ran s) f = f s
after Ran.undefined f = RoundEnd.undefined
after Ran.stuck f = RoundEnd.stuck

first_event : List (ℕ × List ℕ) → Option (ℕ × List ℕ)
first_event [] = none
first_event (e ∷ events) = some e

unfoldable pub run_due : ℕ → ℕ → Option ℕ → Timer → RoundEnd
unfolding first_event call_ids erase
run_due zero time next s = RoundEnd.stuck
run_due (suc fuel) time next s = elim (first_event s.events) [
  | none ↦ done (record { timer = s; next = next })
  | some (key, ids) ↦
      let rest =
        after (call_ids time key ids s)
          λ s'. run_due fuel time next (record s' { events = erase key s'.events }) in
      if leb key time then rest else done (record { timer = s; next = some key })
]

-- What the thread does at the end of a round.
pub data Waiting : Type 0 where
  wait_for : ℕ → Waiting
  wait : Waiting
  undefined : Waiting

unfoldable pub waiting : ℕ → Option ℕ → Waiting
waiting time none = Waiting.undefined
waiting time (some next) = if ltb time next then wait_for (next - time) else wait

-- One round of Timer::run at a time, with the value that `next` has from the round before.
unfoldable pub run : ℕ → Option ℕ → Timer → RoundEnd
unfolding run_due
run time next s = run_due (length s.events + 1) time next s

-- Timer::schedule and Timer::erase
unfoldable pub schedule : ℕ → TimerEvent → ℕ → Timer → Timer × ℕ
unfolding add_event
schedule now event delay s =
    let id = (s.timer_count + 1) % u32 in
    (
      record s {
        timer_count = id;
        timers = elim (find id s.timers) [
          | none ↦ s.timers ++ (id, event) ∷ []
          | some old ↦ s.timers
        ];
        events = add_event ((now + delay) % u64) id s.events;
      },
      id,
    )

unfoldable pub erase_timer : ℕ → Timer → Timer × Bool
unfolding erase
erase_timer id s = (
  record s { timers = erase id s.timers },
  elim (find id s.timers) [ none ↦ false | some timer ↦ true ],
)
