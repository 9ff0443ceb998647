-- ===== src/Network/Handler/Sound.antt =====
-- What holds of every connection of NetworkHandler, src/Network.cpp. `send`, `disconnect` and `stop`
-- hold the mutex of the handler. `invalidate` does not, so that each of its two stores is a step of
-- its own, which other steps come between. A reader thread calls `setConnection` and `invalidate`
-- under its mutex, so that for the connections of one reader thread no `invalidate` comes within a
-- `setConnection`; for those of two it could, which the steps leave out.
use openfix.Prelude.{ℕ, zero, suc, Bool, true, none, List, [], ◌∷◌, ◌≡◌, arith, if◌then◌else◌}
use openfix.Network.Handler.{
  Handler, written, queued, new_handler, send, store_invalid, store_unconnected, disconnect,
  set_connection, stop, invalidate,
}

pub data Step : Type 0 where
  sends : Bool → Step
  begins_invalidate ends_invalidate : Step
  disconnects : Step
  connects : ℕ → Step
  stops : Step

-- A handler, and how many calls of `invalidate` are between their stores.
unfoldable pub step : Step → Handler × ℕ → Handler × ℕ
unfolding send store_invalid store_unconnected disconnect set_connection stop
step (sends inline) (h, n) = ((send inline h).0, n)
step begins_invalidate (h, n) = (store_invalid h, suc n)
step ends_invalidate (h, zero) = (h, zero)
step ends_invalidate (h, suc n) = (store_unconnected h, n)
step disconnects (h, n) = (disconnect h, n)
step (connects fd) (h, n) = (set_connection fd h, n)
step stops (h, n) = (stop h, n)

unfoldable pub steps : List Step → Handler × ℕ → Handler × ℕ
unfolding step
steps [] s = s
steps (st ∷ rest) s = steps rest (step st s)

-- A handler that calls itself connected has a valid connection, where no call of `invalidate` is
-- between its stores.
record IsSound (h : Handler) (n : ℕ) : Type 0 where
  has_connection : h.connected ≡ true → n ≡ 0 → h.connection ≡ none → ⊥
  is_valid : h.connected ≡ true → n ≡ 0 → h.valid ≡ true

step-IsSound :
    (st : Step) (h : Handler) (n : ℕ) → IsSound h n → IsSound (step st (h, n)).0 (step st (h, n)).1
unfolding step send store_invalid store_unconnected disconnect set_connection stop invalidate
step-IsSound (sends inline) h n sound = ground arith
step-IsSound begins_invalidate h n sound = ground arith
step-IsSound ends_invalidate h zero sound = sound
step-IsSound ends_invalidate h (suc n) sound = ground arith
step-IsSound disconnects h n sound = ground arith
step-IsSound (connects fd) h n sound = ground arith
step-IsSound stops h n sound = ground arith

steps-IsSound :
    (ss : List Step) (h : Handler) (n : ℕ)
    → IsSound h n
    → IsSound (steps ss (h, n)).0 (steps ss (h, n)).1
unfolding steps
steps-IsSound [] h n sound = sound
steps-IsSound (st ∷ ss) h n sound =
    steps-IsSound ss (step st (h, n)).0 (step st (h, n)).1 (step-IsSound st h n sound)

-- Where no `invalidate` comes within a `setConnection`: after any sequence of critical sections and of
-- single stores of `invalidate`, a handler that says that it
-- is connected, while no call of `invalidate` is between its stores, loses no packet that it is
-- given: the packet is written at once or queued.
pub steps-send :
    (ss : List Step) (inline : Bool)
    → (steps ss (new_handler, 0)).0.connected ≡ true
    → (steps ss (new_handler, 0)).1 ≡ 0
    → (send inline (steps ss (new_handler, 0)).0).1 ≡ (if inline then written else queued)
unfolding send
steps-send ss inline up still =
    let sound : IsSound (steps ss (new_handler, 0)).0 (steps ss (new_handler, 0)).1 =
      steps-IsSound ss new_handler 0 (ground arith) in
    ground arith
