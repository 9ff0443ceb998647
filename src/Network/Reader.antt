-- ===== src/Network/Reader.antt =====
-- class ReaderThread of src/Network.h and src/Network.cpp: its tables of connections and acceptors,
-- without epoll. Handlers and acceptors are shared objects: they are kept by numbers, and the tables
-- hold the numbers. What a session does when it is given a message is not part of a step here: the
-- messages that are given are listed in their order.
pub mod Linked
use openfix.Prelude.{
  ℕ, suc, ◌+◌, Bool, true, false, not, Option, none, some, List, [], ◌∷◌, ◌++◌, if◌then◌else◌,
  Bytes, codes, bytes_eq, is_empty,
}
use openfix.LinkedHashMap.{find, has, put, erase}
use openfix.Message.Serialize.{internal_soh}
use openfix.Dictionary.{find_key}
use openfix.Dictionary.Load.Graph.{has_key, change_key}
use openfix.Network.Handler.{Handler, new_handler, invalidate, set_connection}
use openfix.Network.Framing.{ReadEnd, get_tag_value_view, read, clear}

-- SENDER_COMP_ID_PATTERN and TARGET_COMP_ID_PATTERN
abbrev pub sender_comp_id_pattern : Bytes
sender_comp_id_pattern = internal_soh ∷ codes "49="

abbrev pub target_comp_id_pattern : Bytes
target_comp_id_pattern = internal_soh ∷ codes "56="

-- The tables by descriptor, and the shared objects by number: `sessions` has the `m_sessions` of
-- each acceptor, and `handlers` the handlers.
pub record Reader : Type 0 where
  pub buffers : List (ℕ × Bytes)
  pub acceptor_sockets : List (ℕ × ℕ)
  pub unknown_connections : List (ℕ × ℕ)
  pub connections : List (ℕ × ℕ)
  pub sessions : List (ℕ × List (Bytes × ℕ))
  pub handlers : List (ℕ × Handler)

-- What a step does outside: a descriptor that is closed, a handler that is given a message, and an
-- acceptor socket whose connection is to be accepted.
pub data ReaderEvent : Type 0 where
  close_fd : ℕ → ReaderEvent
  gives : ℕ → Bytes → ReaderEvent
  accept_connection : ℕ → ℕ → ReaderEvent

unfoldable pub handler_of : ℕ → Reader → Handler
unfolding find
handler_of handler r = elim (find handler r.handlers) [ none ↦ new_handler | some h ↦ h ]

unfoldable pub sessions_of : ℕ → Reader → List (Bytes × ℕ)
unfolding find
sessions_of acceptor r = elim (find acceptor r.sessions) [ none ↦ [] | some s ↦ s ]

-- ReaderThread::addConnection
unfoldable pub add_connection : ℕ → ℕ → Reader → Reader
unfolding put handler_of set_connection
add_connection handler fd r = record r {
  handlers = put handler (set_connection fd (handler_of handler r)) r.handlers;
  connections = put fd handler r.connections;
}

-- ReaderThread::accept
unfoldable pub accept : ℕ → ℕ → Reader → Reader
unfolding put
accept fd acceptor r = record r { unknown_connections = put fd acceptor r.unknown_connections }

-- ReaderThread::disconnect, but for the write buffers.
unfoldable pub disconnect : ℕ → Reader → Reader × List ReaderEvent
unfolding find erase clear put handler_of invalidate
disconnect fd r = elim (find fd r.connections) [
  | some handler ↦ (
    record r {
      buffers = clear fd r.buffers;
      handlers = put handler (invalidate (handler_of handler r)) r.handlers;
      connections = erase fd r.connections;
    },
    close_fd fd ∷ [],
  )
  | none ↦ (
    record r { buffers = clear fd r.buffers; unknown_connections = erase fd r.unknown_connections },
    close_fd fd ∷ [],
  )
]

-- `m_sessions.erase(sessionID)`
unfoldable pub erase_key {ℓ} : {A : Type ℓ} → Bytes → List (Bytes × A) → List (Bytes × A)
erase_key key [] = []
erase_key key ((k, a) ∷ m) = if bytes_eq k key then m else (k, a) ∷ erase_key key m

-- ReaderThread::hasAcceptor
unfoldable pub has_acceptor : Bytes → ℕ → Reader → Bool
unfolding find sessions_of has_key
has_acceptor session_id fd r = elim (find fd r.acceptor_sockets) [
  | none ↦ false
  | some acceptor ↦ has_key session_id (sessions_of acceptor r)
]

-- ReaderThread::addAcceptor; `fresh` is the number of a new acceptor.
unfoldable pub add_acceptor : ℕ → ℕ → Bytes → ℕ → Reader → Reader
unfolding find put sessions_of change_key
add_acceptor fresh handler session_id fd r = elim (find fd r.acceptor_sockets) [
  | some acceptor ↦ record r {
    sessions =
        put acceptor (change_key handler (λ old. handler) session_id (sessions_of acceptor r))
          r.sessions;
  }
  | none ↦ record r {
    acceptor_sockets = put fd fresh r.acceptor_sockets;
    sessions = put fresh ((session_id, handler) ∷ []) r.sessions;
  }
]

-- ReaderThread::removeAcceptor, with whether the socket has no session any more.
unfoldable pub remove_acceptor : Bytes → ℕ → Reader → Reader × Bool
unfolding find put erase sessions_of erase_key
remove_acceptor session_id fd r = elim (find fd r.acceptor_sockets) [
  | none ↦ (r, true)
  | some acceptor ↦
      let left = erase_key session_id (sessions_of acceptor r) in
      let r' : Reader = record r { sessions = put acceptor left r.sessions } in
      if is_empty left
      then (record r' { acceptor_sockets = erase fd r.acceptor_sockets }, true)
      else (r', false)
]

unfoldable pub deliver : ℕ → List Bytes → List ReaderEvent
deliver handler [] = []
deliver handler (message ∷ messages) = gives handler message ∷ deliver handler messages

-- The first message of an unknown connection: the name of the session that it is for, seen from
-- here; `none` where a CompID is missing.
unfoldable pub counterparty : Bytes → Option Bytes
unfolding get_tag_value_view
counterparty message = elim (get_tag_value_view sender_comp_id_pattern message) [
  | none ↦ none
  | some (sender, next) ↦ elim (get_tag_value_view target_comp_id_pattern (internal_soh ∷ next)) [
    | none ↦ none
    | some (target, rest) ↦ some (target ++ codes ":" ++ sender)
  ]
]

-- The session of an acceptor that may take the connection.
unfoldable pub candidate : ℕ → Bytes → Reader → Option ℕ
unfolding counterparty find_key sessions_of handler_of
candidate acceptor message r = elim (counterparty message) [
  | none ↦ none
  | some name ↦ elim (find_key name (sessions_of acceptor r)) [
    | none ↦ none
    | some handler ↦ if (handler_of handler r).connected then none else some handler
  ]
]

-- An unknown connection with what was read: it stays unknown, it is closed, or it is adopted.
unfoldable pub adopt_unknown : ℕ → ℕ → List Bytes → Reader → Reader × List ReaderEvent
unfolding candidate add_connection deliver erase
adopt_unknown fd acceptor [] r = (r, [])
adopt_unknown fd acceptor (message ∷ messages) r =
    let r' : Reader = record r { unknown_connections = erase fd r.unknown_connections } in
    elim (candidate acceptor message r') [
      | none ↦ (r', close_fd fd ∷ [])
      | some handler ↦ (add_connection handler fd r', deliver handler (message ∷ messages))
    ]

-- What a step gives where reading throws SocketClosedError, which the thread only logs.
pub data Stepped : Type 0 where
  stepped : Reader → List ReaderEvent → Stepped
  socket_closed : Reader → Stepped

unfoldable pub with_messages :
    ℕ → List Bytes → ReadEnd → Reader → (List Bytes → Reader → Reader × List ReaderEvent) → Stepped
unfolding read
with_messages fd chunks end r f =
    let (messages, buffers) = read fd chunks end r.buffers in
    let r' : Reader = record r { buffers = buffers } in
    elim messages [
      | none ↦ socket_closed r'
      | some given ↦ let (r'', events) = f given r' in stepped r'' events
    ]

-- ReaderThread::processRead, with what the reads of the descriptor give.
unfoldable pub process_read : ℕ → List Bytes → ReadEnd → Reader → Stepped
unfolding find with_messages deliver adopt_unknown
process_read fd chunks end r = elim (find fd r.connections) [
  | some handler ↦ with_messages fd chunks end r (λ messages r'. (r', deliver handler messages))
  | none ↦ elim (find fd r.acceptor_sockets) [
    | some acceptor ↦ stepped r (accept_connection fd acceptor ∷ [])
    | none ↦ elim (find fd r.unknown_connections) [
      | some acceptor ↦ with_messages fd chunks end r (adopt_unknown fd acceptor)
      | none ↦ stepped r []
    ]
  ]
]
