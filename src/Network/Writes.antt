-- ===== src/Network/Writes.antt =====
-- The write path of a connection without TLS: ReaderThread::trySend, queueWrite and flushWrite of
-- src/Network.cpp, and WriteBuffer of src/Network.h. `wire` is what the socket has taken; how much
-- it takes is an argument. Callbacks are left out.
pub mod Drain
pub mod Stream
use openfix.Prelude.{
  ℕ, ◌+◌, ◌-◌, Bool, true, false, not, ◌&&◌, ◌||◌, Option, none, some, List, [], ◌∷◌, ◌++◌, ◌==◌,
  leb, if◌then◌else◌, Bytes, length, take, drop, is_empty,
}

-- struct WriteBuffer, with the socket.
pub record WriteBuffer : Type 0 where
  pub queue : List Bytes
  pub drain : List Bytes
  pub offset : ℕ
  pub valid : Bool
  pub wire : Bytes

-- The result of `writev`: bytes that were taken, EAGAIN or EWOULDBLOCK, or another error. `write`
-- gives at most `k` bytes, and at most those that it is handed.
pub data Written : Type 0 where
  takes : ℕ → Written
  again : Written
  failed : Written

unfoldable pub concat : List Bytes → Bytes
concat [] = []
concat (msg ∷ msgs) = msg ++ concat msgs

-- ReaderThread::trySend: whether all was sent, and what is left of the message. `locks` is that
-- the mutex was free.
unfoldable pub try_send : Bool → Written → Bytes → WriteBuffer → Bool × Bytes × WriteBuffer
try_send locks written msg w =
    if not locks
    then (false, msg, w)
    else if not w.valid
    then (false, msg, w)
    else if not (is_empty w.queue) || not (is_empty w.drain)
    then (false, msg, w)
    else elim written [
      | takes k ↦ (
        length (take k msg) == length msg,
        drop (length (take k msg)) msg,
        record w { wire = w.wire ++ take k msg },
      )
      | again ↦ (false, msg, w)
      | failed ↦ (false, msg, w)
    ]

-- ReaderThread::queueWrite
unfoldable pub queue_write : Bytes → WriteBuffer → WriteBuffer
queue_write msg w = record w { queue = w.queue ++ msg ∷ [] }

-- The write of NetworkHandler::send, under its mutex: at once, or what is left goes to the queue.
unfoldable pub send_packet : Bool → Written → Bytes → WriteBuffer → WriteBuffer
unfolding try_send queue_write
send_packet locks written msg w =
    let (done, left, w') = try_send locks written msg w in if done then w' else queue_write left w'

-- The vectors of `writev`: of the first `count` entries, the first one from the offset on.
unfoldable pub vectors : List Bytes → ℕ → Bytes
unfolding concat
vectors [] offset = []
vectors (msg ∷ msgs) offset = drop offset msg ++ concat msgs

-- The loop that accounts for the bytes that were sent.
unfoldable pub account : List Bytes → ℕ → ℕ → List Bytes × ℕ
account [] offset sent = ([], offset)
account (msg ∷ msgs) offset sent =
    let rest = account msgs 0 (sent - (length msg - offset)) in
    if sent == 0
    then (msg ∷ msgs, offset)
    else if leb (length msg - offset) sent
    then rest
    else (msg ∷ msgs, offset + sent)

-- The swap of the incoming queue into the drain.
unfoldable pub refill : WriteBuffer → WriteBuffer
refill w =
    if is_empty w.drain && not (is_empty w.queue)
    then record w { drain = w.queue; queue = []; offset = 0 }
    else w

-- The `writev` of up to MAX_WRITE_IOVECS entries. A result of 0 counts as EAGAIN.
unfoldable pub write_vectors : ℕ → WriteBuffer → WriteBuffer
unfolding vectors account
write_vectors k w =
    let bytes = take k (vectors (take 64 w.drain) w.offset) in
    let (drain, offset) = account w.drain w.offset (length bytes) in
    if is_empty bytes
    then w
    else record w { drain = drain; offset = offset; wire = w.wire ++ bytes }

-- ReaderThread::flushWrite
unfoldable pub flush_write : Written → WriteBuffer → WriteBuffer
unfolding refill write_vectors
flush_write written w =
    let w' = refill w in
    if is_empty w'.drain then w' else elim written [
      | takes k ↦ write_vectors k w'
      | again ↦ w'
      | failed ↦ record w' { drain = []; queue = [] }
    ]
