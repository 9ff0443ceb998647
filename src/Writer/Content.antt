-- ===== src/Writer/Content.antt =====
-- What the writer of lib/FileUtils.cpp makes of the texts that are handed to it.
use openfix.Prelude.{
  ℕ, true, false, inl, inr, Bool-cases, List, [], ◌∷◌, ◌++◌, ◌≡◌, refl, sym, arith, Bytes, is_empty,
  append-nil, append_assoc,
}
use openfix.Writer.{
  WriterInstance, Disk, works, no_opening, put_buffer, write, write_raw, reset, swap_queue,
  swap_log_entries, format_entries, format_buffer, write_out, prepare, write_buffer, flush_instance,
}

-- A writer of raw data that owes nothing from earlier flushes: no log entries, no replacement of
-- SOH, no reset, and an empty buffer.
pub record IsDataFile (w : WriterInstance) : Type 0 where
  pub raw : w.format_fix_messages ≡ false
  pub no_queued : w.log_entry_queue ≡ []
  pub no_entries : w.log_entry_buffer ≡ []
  pub drained : w.buffer ≡ []
  pub no_reset : w.should_reset ≡ false
  pub flagged : is_empty w.queue ≡ false → w.dirty ≡ true

-- What has been handed over: on disk, then waiting.
abbrev pub content : WriterInstance → Bytes
content w = w.file ++ w.queue

pub write-IsDataFile :
    (text : Bytes) (w : WriterInstance) → IsDataFile w → IsDataFile (write text w)
unfolding write
write-IsDataFile text w d = ground arith

pub content-write : (text : Bytes) (w : WriterInstance) → content (write text w) ≡ content w ++ text
unfolding write
content-write text w = sym (append_assoc w.file w.queue text)

write_raw-IsDataFile :
    (prefix body : Bytes) (w : WriterInstance) → IsDataFile w → IsDataFile (write_raw prefix body w)
unfolding write_raw
write_raw-IsDataFile prefix body w d = ground arith

pub content-write_raw :
    (prefix body : Bytes) (w : WriterInstance)
    → content (write_raw prefix body w) ≡ (content w ++ prefix) ++ body
unfolding write_raw
content-write_raw prefix body w =
    rw (append_assoc w.file w.queue prefix, append_assoc w.file (w.queue ++ prefix) body)

-- What happens to the writer of a data file, each step one critical section: a text is handed to
-- it, or the writer thread flushes it and can open and write the file.
pub data Step : Type 0 where
  writes : Bytes → Step
  writes_raw : Bytes → Bytes → Step
  flushes : Step

-- The texts that are handed over.
unfoldable pub texts : List Step → Bytes
texts [] = []
texts (writes text ∷ steps) = text ++ texts steps
texts (writes_raw prefix body ∷ steps) = prefix ++ body ++ texts steps
texts (flushes ∷ steps) = texts steps

module _ (format_timestamp_micros : ℕ → Bytes) where
  unfoldable pub run : List Step → WriterInstance → WriterInstance
  run [] w = w
  run (writes text ∷ steps) w = run steps (write text w)
  run (writes_raw prefix body ∷ steps) w = run steps (write_raw prefix body w)
  run (flushes ∷ steps) w = run steps (flush_instance format_timestamp_micros works w)

  flush_instance-waiting :
      (w : WriterInstance)
      → IsDataFile w
      → is_empty w.queue ≡ false
      → flush_instance format_timestamp_micros works w ≡ record w {
        dirty = false;
        file = w.file ++ w.queue;
        buffer = [];
        queue = [];
        log_entry_buffer = [];
        is_open = true;
      }
  unfolding flush_instance write_buffer prepare swap_queue swap_log_entries format_buffer
      format_entries write_out put_buffer
  flush_instance-waiting w d h = rw (
    d.flagged h,
    d.no_reset,
    h,
    d.no_queued,
    d.no_entries,
    d.raw,
    d.drained,
    append-nil w.queue,
    h,
  )

  flush_instance-failed :
      (w : WriterInstance)
      → is_empty w.queue ≡ false
      → IsDataFile w
      → w.is_open ≡ false
      → flush_instance format_timestamp_micros no_opening w
        ≡ record w { dirty = false; buffer = w.queue; queue = [] }
  unfolding flush_instance write_buffer prepare swap_queue swap_log_entries format_buffer
      format_entries write_out put_buffer
  flush_instance-failed w h d o = rw (
    d.flagged h,
    d.no_reset,
    h,
    d.no_queued,
    d.no_entries,
    d.raw,
    d.drained,
    append-nil w.queue,
    h,
    o,
  )

  -- The next flush of a writer whose buffer was kept writes the queue and gets the buffer back
  -- into the queue.
  flush_instance-swap :
      (b : Bytes) (w : WriterInstance)
      → IsDataFile w
      → is_empty b ≡ false
      → w.queue ≡ []
      → (a : Bytes)
      → flush_instance format_timestamp_micros works (write b (record w { buffer = a }))
        ≡ record w { dirty = false; file = w.file ++ b; queue = a; is_open = true }
  unfolding flush_instance write_buffer prepare swap_queue swap_log_entries format_buffer
      format_entries write_out put_buffer write
  flush_instance-swap b w d h e a =
      rw (d.no_reset, e, h, d.no_queued, d.no_entries, d.raw, append-nil b, h, d.drained)

  flush_instance-idle :
      (w : WriterInstance)
      → IsDataFile w
      → is_empty w.queue ≡ true
      → flush_instance format_timestamp_micros works w ≡ record w { dirty = false }
  unfolding flush_instance write_buffer prepare swap_queue swap_log_entries format_buffer
      format_entries write_out put_buffer
  flush_instance-idle w d h = elim (Bool-cases w.dirty) [
    | inl o ↦ rw (o, d.no_reset, h, d.no_queued, d.no_entries, d.raw, d.drained)
    | inr o ↦ rw (o, d.no_reset)
  ]

  pub content-flush :
      (w : WriterInstance)
      → IsDataFile w
      → content (flush_instance format_timestamp_micros works w) ≡ content w
  content-flush w d = elim (Bool-cases (is_empty w.queue)) [
    | inl h ↦ rw (flush_instance-idle w d h)
    | inr h ↦ rw (flush_instance-waiting w d h, append-nil (w.file ++ w.queue))
  ]

  pub flush-IsDataFile :
      (w : WriterInstance)
      → IsDataFile w
      → IsDataFile (flush_instance format_timestamp_micros works w)
  flush-IsDataFile w d = elim (Bool-cases (is_empty w.queue)) [
    | inl h ↦ rw (flush_instance-idle w d h) record {
      raw = d.raw;
      no_queued = d.no_queued;
      no_entries = d.no_entries;
      drained = d.drained;
      no_reset = d.no_reset;
      flagged = λ e. absurd (ground arith);
    }
    | inr h ↦ rw (flush_instance-waiting w d h) record {
      raw = d.raw;
      no_queued = d.no_queued;
      no_entries = refl;
      drained = refl;
      no_reset = d.no_reset;
      flagged = λ e. absurd (ground arith);
    }
  ]

  -- Nothing that is handed over to the writer of a data file is lost, doubled or reordered, as long
  -- as the file can be opened and written, and no reset is pending at the start or asked for on the
  -- way: after any such steps, the file and then what waits are the file and what
  -- waited at the start, and then the texts of the steps in their order.
  pub content-run :
      (steps : List Step) (w : WriterInstance)
      → IsDataFile w
      → content (run steps w) ≡ content w ++ texts steps
  unfolding run texts
  content-run [] w d = sym (append-nil (content w))
  content-run (writes text ∷ steps) w d = rw (
    content-run steps (write text w) (write-IsDataFile text w d),
    content-write text w,
    append_assoc (content w) text (texts steps),
  )
  content-run (writes_raw prefix body ∷ steps) w d = rw (
    content-run steps (write_raw prefix body w) (write_raw-IsDataFile prefix body w d),
    content-write_raw prefix body w,
    append_assoc (content w ++ prefix) body (texts steps),
    append_assoc (content w) prefix (body ++ texts steps),
    append_assoc prefix body (texts steps),
  )
  content-run (flushes ∷ steps) w d = rw (
    content-run steps (flush_instance format_timestamp_micros works w) (flush-IsDataFile w d),
    content-flush w d,
  )

  -- What is handed over after a reset and before the next flush is lost: the flush truncates the
  -- file and drops the queue, whatever was written since the reset.
  pub flush-write-reset :
      (disk : Disk) (text : Bytes) (w : WriterInstance)
      → content (flush_instance format_timestamp_micros disk (write text (reset w))) ≡ []
  unfolding flush_instance reset write
  flush-write-reset disk text w = refl

  -- A failed opening of a data file turns the order of two texts around: of a first text whose
  -- flush could not open the file and a second one that is handed over then, the next flush
  -- writes the second one, and the first one is behind it in the queue.
  pub flush-write-failed :
      (a b : Bytes) (w : WriterInstance)
      → IsDataFile w
      → w.is_open ≡ false
      → w.queue ≡ []
      → is_empty a ≡ false
      → is_empty b ≡ false
      → ((run
            (flushes ∷ [])
            (write b (flush_instance format_timestamp_micros no_opening (write a w)))).file
          ≡ w.file ++ b)
        × ((run
              (flushes ∷ [])
              (write b (flush_instance format_timestamp_micros no_opening (write a w)))).queue
            ≡ a)
  unfolding run write
  flush-write-failed a b w d closed empty ha hb =
      let failed : flush_instance format_timestamp_micros no_opening (write a w)
          ≡ record w { dirty = false; buffer = a } =
        rw (
          flush_instance-failed (write a w) (rw empty ha) (write-IsDataFile a w d) closed,
          empty,
        ) in
      rw (failed, flush_instance-swap b w d hb empty a) (refl, refl)
