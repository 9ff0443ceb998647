-- ===== src/Network/Writes/Stream.antt =====
-- The bytes that a connection of src/Network.cpp carries, in their order.
use openfix.Prelude.{
  ℕ, Bool, true, false, List, [], ◌∷◌, ◌++◌, ◌==◌, ◌≡◌, refl, sym, ap, ◌∙◌, arith, Bytes, length,
  take, drop, is_empty, drop-append_self, append_assoc, append-nil, All, ◌⊎◌, inl, inr, Bool-cases,
  if◌then◌else◌,
}
use openfix.Network.Writes.{
  WriteBuffer, Written, takes, again, failed, concat, try_send, queue_write, send_packet, vectors,
  refill, flush_write,
}
use openfix.Network.Writes.Drain.{
  pending, stream, IsWithin, is_empty-nil, refill-stream, write_vectors-stream,
  write_vectors-IsWithin, concat_append, take-rest,
}

-- The stream and the bound together.
abbrev Keeps : WriteBuffer → WriteBuffer → Bytes → Type 0
Keeps w v msg = (stream v ≡ stream w ++ msg) × IsWithin v.drain v.offset

queue_write-Keeps :
    (msg : Bytes) (w : WriteBuffer) → IsWithin w.drain w.offset → Keeps w (queue_write msg w) msg
unfolding queue_write concat
queue_write-Keeps msg w h =
    let waiting = vectors w.drain w.offset in
    (
      ap (λ t. w.wire ++ (waiting ++ t))
            (concat_append w.queue (msg ∷ []) ∙ ap (λ t. concat w.queue ++ t) (append-nil msg))
          ∙ ap (λ t. w.wire ++ t) (sym (append_assoc waiting (concat w.queue) msg))
          ∙ sym (append_assoc w.wire (waiting ++ concat w.queue) msg),
      h,
    )

pending-nil : (w : WriteBuffer) → is_empty w.queue ≡ true → is_empty w.drain ≡ true → pending w ≡ []
unfolding vectors concat
pending-nil w e f = rw (is_empty-nil w.queue e, is_empty-nil w.drain f) refl

take-drop_taken : (k : ℕ) (msg : Bytes) → take k msg ++ drop (length (take k msg)) msg ≡ msg
take-drop_taken k msg = rw (append-nil msg) at (take-rest k msg [])

taken_all : (k : ℕ) (msg : Bytes) → (length (take k msg) == length msg) ≡ true → take k msg ≡ msg
taken_all k msg h =
    let same : length (take k msg) ≡ length msg = ground arith in
    let nothing_left : drop (length (take k msg)) msg ≡ [] =
      rw same (rw (append-nil msg) at (drop-append_self msg [])) in
    sym (append-nil (take k msg))
    ∙ ap (λ t. take k msg ++ t) (sym nothing_left)
    ∙ take-drop_taken k msg

-- The write at once: the socket takes a part or all of the message.
taken-Keeps :
    (k : ℕ) (msg : Bytes) (w : WriteBuffer)
    → IsWithin w.drain w.offset
    → pending w ≡ []
    → Keeps w
        (if length (take k msg) == length msg
          then record w { wire = w.wire ++ take k msg }
          else queue_write
              (drop (length (take k msg)) msg)
              (record w { wire = w.wire ++ take k msg }))
        msg
taken-Keeps k msg w h idle = elim (Bool-cases (length (take k msg) == length msg)) [
  | inl whole ↦
      rw whole
        (rw (taken_all k msg whole, idle, append-nil (w.wire ++ msg), append-nil w.wire) refl, h)
  | inr part ↦
      let (queued, within) =
        queue_write-Keeps (drop (length (take k msg)) msg)
          (record w { wire = w.wire ++ take k msg }) h in
      rw part (
        queued
            ∙ rw (idle, append-nil (w.wire ++ take k msg), append-nil w.wire)
                (append_assoc w.wire (take k msg) (drop (length (take k msg)) msg)
                  ∙ ap (λ t. w.wire ++ t) (take-drop_taken k msg)),
        within,
      )
]

-- What `trySend` does: nothing, or a write with nothing waiting.
try_send-cases :
    (locks : Bool) (written : Written) (msg : Bytes) (w : WriteBuffer)
    → (try_send locks written msg w ≡ (false, msg, w))
      ⊎ ((k : ℕ) × (pending w ≡ [])
          × (try_send locks written msg w ≡ (
            length (take k msg) == length msg,
            drop (length (take k msg)) msg,
            record w { wire = w.wire ++ take k msg },
          )))
unfolding try_send
try_send-cases false written msg w = inl refl
try_send-cases true again msg w = inl (ground arith)
try_send-cases true failed msg w = inl (ground arith)
try_send-cases true (takes k) msg w = elim (Bool-cases w.valid) [
  | inr broken ↦ inl (rw broken refl)
  | inl valid ↦ elim (Bool-cases (is_empty w.queue)) [
    | inr waits ↦ inl (rw (valid, waits) refl)
    | inl clear ↦ elim (Bool-cases (is_empty w.drain)) [
      | inr waits ↦ inl (rw (valid, clear, waits) refl)
      | inl idle ↦ inr (k, pending-nil w clear idle, rw (valid, clear, idle) refl)
    ]
  ]
]

send_packet-Keeps :
    (locks : Bool) (written : Written) (msg : Bytes) (w : WriteBuffer)
    → IsWithin w.drain w.offset
    → Keeps w (send_packet locks written msg w) msg
unfolding send_packet
send_packet-Keeps locks written msg w h = elim (try_send-cases locks written msg w) [
  | inl kept ↦ rw kept (queue_write-Keeps msg w h)
  | inr (k, idle, taken) ↦ rw taken (taken-Keeps k msg w h idle)
]

-- Whether a write did not fail.
abbrev pub IsTaken : Written → Type 0
IsTaken failed = ⊥
IsTaken _ = Unit {0}

flush_write-Keeps :
    (written : Written) (w : WriteBuffer)
    → IsTaken written
    → IsWithin w.drain w.offset
    → (stream (flush_write written w) ≡ stream w)
      × IsWithin (flush_write written w).drain (flush_write written w).offset
unfolding flush_write
flush_write-Keeps failed w t h = absurd t
flush_write-Keeps again w t h =
    let kept = refill-stream w h in
    elim (Bool-cases (is_empty (refill w).drain)) [ inl e ↦ rw e kept | inr e ↦ rw e kept ]
flush_write-Keeps (takes k) w t h =
    let (same, within) = refill-stream w h in
    elim (Bool-cases (is_empty (refill w).drain)) [
      | inl e ↦ rw e (same, within)
      | inr e ↦ rw e (
        write_vectors-stream k (refill w) within ∙ same,
        write_vectors-IsWithin k (refill w) within,
      )
    ]

-- What happens to a connection: a packet is handed over, or the reader thread flushes.
pub data Step : Type 0 where
  hands : Bool → Written → Bytes → Step
  flushes : Written → Step

abbrev pub step : Step → WriteBuffer → WriteBuffer
step (hands locks written msg) w = send_packet locks written msg w
step (flushes written) w = flush_write written w

unfoldable pub steps : List Step → WriteBuffer → WriteBuffer
steps [] w = w
steps (s ∷ rest) w = steps rest (step s w)

-- The bytes of the packets.
unfoldable pub handed : List Step → Bytes
handed [] = []
handed (hands locks written msg ∷ rest) = msg ++ handed rest
handed (flushes written ∷ rest) = handed rest

-- No flush fails. A write at once may fail: the packet is queued then.
abbrev pub IsHealthy : Step → Type 0
IsHealthy (hands locks written msg) = Unit {0}
IsHealthy (flushes written) = IsTaken written

-- The peer gets a stream: after any packets and flushes, each write taking any part of what it is
-- handed, what the socket has taken and then what waits is what that was before and then the
-- packets, in their order, whole and once, as long as no flush fails.
pub steps-stream :
    (ss : List Step) (w : WriteBuffer)
    → All IsHealthy ss
    → IsWithin w.drain w.offset
    → stream (steps ss w) ≡ stream w ++ handed ss
unfolding steps handed
steps-stream [] w t h = sym (append-nil (stream w))
steps-stream (hands locks written msg ∷ ss) w t h =
    let (sent, within) = send_packet-Keeps locks written msg w h in
    steps-stream ss _ t.1 within
    ∙ ap (λ u. u ++ handed ss) sent
    ∙ append_assoc (stream w) msg (handed ss)
steps-stream (flushes written ∷ ss) w t h =
    let (same, within) = flush_write-Keeps written w t.0 h in
    steps-stream ss _ t.1 within ∙ ap (λ u. u ++ handed ss) same
