-- ===== src/Network/Handler.antt =====
-- class NetworkHandler of src/Network.h and src/Network.cpp: the connection of a session. A
-- connection is its file descriptor; each function but `invalidate` is one critical section.
pub mod Sound
use openfix.Prelude.{ℕ, Bool, true, false, not, ◌≡◌, refl, Option, none, some, if◌then◌else◌, arith}

pub record Handler : Type 0 where
  pub connection : Option ℕ
  pub valid : Bool
  pub connected : Bool
  pub stopped : Bool

abbrev pub new_handler : Handler
new_handler = record { connection = none; valid = true; connected = false; stopped = false }

-- What becomes of a packet that is handed over: it is lost with its callback, it is written at
-- once and its callback is called, or it waits in the write queue with its callback.
pub data Sending : Type 0 where
  dropped written queued : Sending

-- NetworkHandler::send; `inline` is that the whole packet could be written at once.
unfoldable pub send : Bool → Handler → Handler × Sending
send inline h = elim h.connection [
  | none ↦ (h, dropped)
  | some fd ↦
      if not h.valid
      then (record h { connection = none }, dropped)
      else (h, if inline then written else queued)
]

-- The two stores of NetworkHandler::invalidate, which takes no lock.
unfoldable pub store_invalid : Handler → Handler
store_invalid h = record h { valid = false }

unfoldable pub store_unconnected : Handler → Handler
store_unconnected h = record h { connected = false }

-- NetworkHandler::invalidate, where nothing comes between its stores.
unfoldable pub invalidate : Handler → Handler
unfolding store_invalid store_unconnected
invalidate h = store_unconnected (store_invalid h)

-- NetworkHandler::disconnect; the reader thread's `disconnect(fd)` invalidates this handler,
-- which is the one that the descriptor belongs to.
unfoldable pub disconnect : Handler → Handler
unfolding invalidate
disconnect h = elim h.connection [
  | none ↦ record h { connected = false }
  | some fd ↦
      if not h.valid
      then record h { connected = false; connection = none }
      else record (invalidate h) { connection = none }
]

-- NetworkHandler::setConnection, with a handle.
unfoldable pub set_connection : ℕ → Handler → Handler
set_connection fd h = record h { connection = some fd; valid = true; connected = true }

-- NetworkHandler::stop, up to the removal of the acceptor.
unfoldable pub stop : Handler → Handler
unfolding disconnect
stop h = if h.stopped then h else disconnect (record h { stopped = true })
