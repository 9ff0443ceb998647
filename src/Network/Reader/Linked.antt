-- ===== src/Network/Reader/Linked.antt =====
-- class ReaderThread of src/Network.cpp: the connections of its table and the handlers they belong to.
use openfix.Prelude.{
  ℕ, true, false, some, List, [], ◌∷◌, ◌==◌, Bytes, ◌≡◌, ◌≢◌, inl, inr, refl, arith, Bool-cases,
  Option-cases,
}
use mathlib.Core.Path.{subst}
use openfix.LinkedHashMap.{find, put, erase}
use openfix.LinkedHashMap.Laws.{Distinct, find-put, find-erase, put-Distinct, erase-Distinct}
use openfix.Dictionary.{find_key}
use openfix.Network.Handler.{Handler, set_connection, invalidate}
use openfix.Network.Framing.{ReadEnd, read}
use openfix.Network.Reader.{
  Reader, ReaderEvent, handler_of, add_connection, accept, disconnect, add_acceptor,
  remove_acceptor, candidate, counterparty, deliver, sessions_of, adopt_unknown, Stepped, stepped,
  socket_closed, with_messages, process_read,
}

-- A descriptor of the table stands for a handler that is connected with it.
abbrev pub Linked : ℕ → ℕ → List (ℕ × Handler) → Type 0
Linked fd handler handlers =
    (h : Handler) × (find handler handlers ≡ some h)
    × (h.connected ≡ true)
    × (h.connection ≡ some fd)

pub record IsLinked (connections : List (ℕ × ℕ)) (handlers : List (ℕ × Handler)) : Type 0 where
  pub distinct : Distinct connections
  pub linked : (fd handler : ℕ) → find fd connections ≡ some handler → Linked fd handler handlers

-- The operations of a reader thread. An initiator calls `addConnection` for a handler that is not
-- connected.
pub data Step : Reader → Reader → Type 0 where
  reads :
      {r r' : Reader}
      → (fd : ℕ) → (chunks : List Bytes) → (end : ReadEnd) → (events : List ReaderEvent)
      → process_read fd chunks end r ≡ stepped r' events
      → Step r r'
  closes :
      {r r' : Reader}
      → (fd : ℕ) → (chunks : List Bytes) → (end : ReadEnd)
      → process_read fd chunks end r ≡ socket_closed r'
      → Step r r'
  connects :
      {r : Reader}
      → (handler fd : ℕ) → (handler_of handler r).connected ≡ false
      → Step r (add_connection handler fd r)
  accepts : {r : Reader} → (fd acceptor : ℕ) → Step r (accept fd acceptor r)
  disconnects : {r : Reader} → (fd : ℕ) → Step r (disconnect fd r).0
  adds :
      {r : Reader}
      → (fresh handler : ℕ) → (name : Bytes) → (fd : ℕ)
      → Step r (add_acceptor fresh handler name fd r)
  removes : {r : Reader} → (name : Bytes) → (fd : ℕ) → Step r (remove_acceptor name fd r).0

-- What a new reader thread comes to.
pub data Reached : Reader → Type 0 where
  starts : {r : Reader} → r.connections ≡ [] → Reached r
  goes_on : {r r' : Reader} → Reached r → Step r r' → Reached r'

handler_of-find :
    (handler : ℕ) (r : Reader) (h : Handler)
    → find handler r.handlers ≡ some h
    → handler_of handler r ≡ h
unfolding handler_of find
handler_of-find handler r h e = ground (arith, e)

add-IsLinked :
    (fd handler : ℕ) (h : Handler) (connections : List (ℕ × ℕ)) (handlers : List (ℕ × Handler))
    → ((h' : Handler) → find handler handlers ≡ some h' → h'.connected ≡ false)
    → IsLinked connections handlers
    → IsLinked (put fd handler connections) (put handler (set_connection fd h) handlers)
unfolding set_connection
add-IsLinked fd handler h connections handlers idle l = record {
  distinct = put-Distinct fd handler connections l.distinct;
  linked = λ j k e. elim (Bool-cases (fd == j)) [
    | inl same ↦ (
      set_connection fd h,
      ground (
        arith,
        find-put handler k (set_connection fd h) handlers,
        find-put fd j handler connections,
      ),
      refl,
      ground arith,
    )
    | inr other ↦
        let old : find j connections ≡ some k = ground (arith, find-put fd j handler connections) in
        let (h', found, up, at) = l.linked j k old in
        elim (Bool-cases (handler == k)) [
          | inl same ↦ ground (arith, idle h')
          | inr apart ↦
              (h', ground (arith, find-put handler k (set_connection fd h) handlers), up, at)
        ]
  ];
}

invalidate-IsLinked :
    (fd handler : ℕ) (h : Handler) (connections : List (ℕ × ℕ)) (handlers : List (ℕ × Handler))
    → find fd connections ≡ some handler
    → IsLinked connections handlers
    → IsLinked (erase fd connections) (put handler (invalidate h) handlers)
unfolding invalidate
invalidate-IsLinked fd handler h connections handlers here l = record {
  distinct = erase-Distinct fd connections l.distinct;
  linked = λ j k e.
      let apart : fd ≢ j = λ same. ground (arith, find-erase fd j connections l.distinct) in
      let old : find j connections ≡ some k =
        ground (arith, find-erase fd j connections l.distinct) in
      let (h', found, up, at) = l.linked j k old in
      let (h'', found', up', at') = l.linked fd handler here in
      elim (Bool-cases (handler == k)) [
        | inl same ↦ ground arith
        | inr other ↦ (h', ground (arith, find-put handler k (invalidate h) handlers), up, at)
      ];
}

abbrev AllLinked : Reader → Type 0
AllLinked r = IsLinked r.connections r.handlers

connect-AllLinked :
    (handler fd : ℕ) (r : Reader)
    → (handler_of handler r).connected ≡ false
    → AllLinked r
    → AllLinked (add_connection handler fd r)
unfolding add_connection
connect-AllLinked handler fd r idle l =
    add-IsLinked fd handler (handler_of handler r) r.connections r.handlers
      (λ h found. ground (arith, idle, handler_of-find handler r h found)) l

disconnect-AllLinked : (fd : ℕ) (r : Reader) → AllLinked r → AllLinked (disconnect fd r).0
unfolding disconnect
disconnect-AllLinked fd r l = elim (Option-cases (find fd r.connections)) [
  | inl none_there ↦ rw (none_there, disconnect) l
  | inr (handler, here) ↦
      rw (here, disconnect)
        (invalidate-IsLinked fd handler (handler_of handler r) r.connections r.handlers here l)
]

candidate-idle :
    (acceptor handler : ℕ) (message : Bytes) (r : Reader)
    → candidate acceptor message r ≡ some handler
    → (handler_of handler r).connected ≡ false
unfolding candidate
candidate-idle acceptor handler message r e = elim (Option-cases (counterparty message)) [
  | inl nobody ↦ ground (arith, e, nobody)
  | inr (name, named) ↦ elim (Option-cases (find_key name (sessions_of acceptor r))) [
    | inl unknown ↦ ground (arith, e, named, unknown)
    | inr (other, known) ↦ elim (Bool-cases (handler_of other r).connected) [
      | inl busy ↦ ground (arith, e, named, known, busy)
      | inr idle ↦ ground (arith, e, named, known, idle)
    ]
  ]
]

adopt_unknown-AllLinked :
    (fd acceptor : ℕ) (messages : List Bytes) (r : Reader)
    → AllLinked r
    → AllLinked (adopt_unknown fd acceptor messages r).0
unfolding adopt_unknown
adopt_unknown-AllLinked fd acceptor [] r l = l
adopt_unknown-AllLinked fd acceptor (message ∷ messages) r l =
    let r' : Reader = record r { unknown_connections = erase fd r.unknown_connections } in
    elim (Option-cases (candidate acceptor message r')) [
      | inl refused ↦ rw (refused, adopt_unknown) l
      | inr (handler, taken) ↦
          rw (taken, adopt_unknown)
            (connect-AllLinked handler fd r' (candidate-idle acceptor handler message r' taken) l)
    ]

-- The tables after a step, also after one that throws.
unfoldable reader_of : Stepped → Reader
reader_of (stepped r events) = r
reader_of (socket_closed r) = r

with_messages-AllLinked :
    (fd : ℕ) (chunks : List Bytes) (end : ReadEnd) (r : Reader)
    (f : List Bytes → Reader → Reader × List ReaderEvent)
    → ((messages : List Bytes) (q : Reader) → AllLinked q → AllLinked (f messages q).0)
    → AllLinked r
    → AllLinked (reader_of (with_messages fd chunks end r f))
unfolding with_messages reader_of
with_messages-AllLinked fd chunks end r f keeps l =
    let r' : Reader = record r { buffers = (read fd chunks end r.buffers).1 } in
    elim (Option-cases (read fd chunks end r.buffers).0) [
      | inl shut ↦ rw (shut, with_messages, reader_of) l
      | inr (messages, given) ↦ rw (given, with_messages, reader_of) (keeps messages r' l)
    ]

process_read-AllLinked :
    (fd : ℕ) (chunks : List Bytes) (end : ReadEnd) (r : Reader)
    → AllLinked r
    → AllLinked (reader_of (process_read fd chunks end r))
unfolding process_read reader_of
process_read-AllLinked fd chunks end r l = elim (Option-cases (find fd r.connections)) [
  | inr (handler, known) ↦
      rw (known, process_read)
        (with_messages-AllLinked fd chunks end r (λ messages q. (q, deliver handler messages))
          (λ messages q k. k) l)
  | inl unknown ↦ elim (Option-cases (find fd r.acceptor_sockets)) [
    | inr (acceptor, listens) ↦ rw (unknown, listens, process_read, reader_of) l
    | inl quiet ↦ elim (Option-cases (find fd r.unknown_connections)) [
      | inr (acceptor, accepted) ↦
          rw (unknown, quiet, accepted, process_read)
            (with_messages-AllLinked fd chunks end r (adopt_unknown fd acceptor)
              (adopt_unknown-AllLinked fd acceptor) l)
      | inl nowhere ↦ rw (unknown, quiet, nowhere, process_read, reader_of) l
    ]
  ]
]

step-AllLinked : (r r' : Reader) → Step r r' → AllLinked r → AllLinked r'
unfolding reader_of accept add_acceptor remove_acceptor
step-AllLinked r r' (reads fd chunks end events e) l =
    subst (λ s. AllLinked (reader_of s)) e (process_read-AllLinked fd chunks end r l)
step-AllLinked r r' (closes fd chunks end e) l =
    subst (λ s. AllLinked (reader_of s)) e (process_read-AllLinked fd chunks end r l)
step-AllLinked r r' (connects handler fd idle) l = connect-AllLinked handler fd r idle l
step-AllLinked r r' (accepts fd acceptor) l = l
step-AllLinked r r' (disconnects fd) l = disconnect-AllLinked fd r l
step-AllLinked r r' (adds fresh handler name fd) l = ground (arith, l)
step-AllLinked r r' (removes name fd) l = ground (arith, l)

Reached-AllLinked : (r : Reader) → Reached r → AllLinked r
unfolding find
Reached-AllLinked r (starts e) = record {
  distinct = rw e tt;
  linked = λ j k found. ground (arith, e, found);
}
Reached-AllLinked r' (goes_on {r} before step) =
    step-AllLinked r r' step (Reached-AllLinked r before)

-- In every state that a reader thread comes to, a descriptor of its table has a handler that is
-- connected, and connected with that descriptor; no two descriptors have the same handler.
pub Reached-HasOneEach :
    (r : Reader) (fd other handler : ℕ)
    → Reached r
    → find fd r.connections ≡ some handler
    → find other r.connections ≡ some handler
    → ((handler_of handler r).connected ≡ true)
      × ((handler_of handler r).connection ≡ some fd)
      × (fd ≡ other)
Reached-HasOneEach r fd other handler before here there =
    let l : AllLinked r = Reached-AllLinked r before in
    let (h, found, up, at) = l.linked fd handler here in
    let (h', found', up', at') = l.linked other handler there in
    let same : handler_of handler r ≡ h = handler_of-find handler r h found in
    (ground (arith, same, up), ground (arith, same, at), ground (arith, found, found', at, at'))
