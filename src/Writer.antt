-- ===== src/Writer.antt =====
-- lib/FileUtils.h and lib/FileUtils.cpp: one writer instance of the file writer. The producers
-- append to the queue under the mutex; the writer thread's `flushInstances` swaps the queue into
-- its buffer and writes that. Each function is one critical section, and `file` is what the file
-- on disk holds. What the file system does is an argument.
pub mod Content
use openfix.Prelude.{
  ℕ, Bool, true, false, not, ◌&&◌, List, [], ◌∷◌, ◌++◌, ◌==◌, if◌then◌else◌, Bytes, codes, is_empty,
  take,
}

-- struct LogEntry
pub record LogEntry : Type 0 where
  pub epoch_us : ℕ
  pub inbound : Bool
  pub msg : Bytes

-- class WriterInstance, with the content of the file at `m_path`; `is_open` is that `m_stream` is
-- open and good.
pub record WriterInstance : Type 0 where
  pub buffer : Bytes
  pub queue : Bytes
  pub log_entry_queue : List LogEntry
  pub log_entry_buffer : List LogEntry
  pub should_reset : Bool
  pub dirty : Bool
  pub format_fix_messages : Bool
  pub is_open : Bool
  pub file : Bytes

-- FileWriter::createInstance for a file name that has no instance yet.
unfoldable pub create_instance : Bytes → Bool → WriterInstance
create_instance file format = record {
  buffer = [];
  queue = [];
  log_entry_queue = [];
  log_entry_buffer = [];
  should_reset = false;
  dirty = false;
  format_fix_messages = format;
  is_open = false;
  file = file;
}

-- WriterInstance::write
unfoldable pub write : Bytes → WriterInstance → WriterInstance
write text w = record w { queue = w.queue ++ text; dirty = true }

-- WriterInstance::writeRaw
unfoldable pub write_raw : Bytes → Bytes → WriterInstance → WriterInstance
write_raw prefix body w = record w { queue = (w.queue ++ prefix) ++ body; dirty = true }

-- WriterInstance::writeMessage
unfoldable pub write_message : ℕ → Bool → Bytes → WriterInstance → WriterInstance
write_message epoch_us inbound msg w = record w {
  log_entry_queue = w.log_entry_queue ++ entry ∷ [];
  dirty = true;
}
  where
    entry : LogEntry
    entry = record { epoch_us = epoch_us; inbound = inbound; msg = msg }

-- WriterInstance::reset
unfoldable pub reset : WriterInstance → WriterInstance
reset w = record w { should_reset = true; dirty = true }

-- `std::replace(begin, end, '\x01', '|')`
unfoldable pub replace_soh : Bytes → Bytes
replace_soh [] = []
replace_soh (c ∷ s) = (if c == 1 then 124 else c) ∷ replace_soh s

-- The swap of the queue and the buffer, where the queue is not empty.
unfoldable pub swap_queue : WriterInstance → WriterInstance
swap_queue w = if is_empty w.queue then w else record w { queue = w.buffer; buffer = w.queue }

unfoldable pub swap_log_entries : WriterInstance → WriterInstance
swap_log_entries w =
    if is_empty w.log_entry_queue
    then w
    else record w { log_entry_queue = w.log_entry_buffer; log_entry_buffer = w.log_entry_queue }

-- What the file system does in a flush: whether the file can be opened where the stream is not open
-- and good, and, where the writing or its flush fails, how much of the text reaches the file.
pub data Disk : Type 0 where
  works no_opening : Disk
  no_writing : ℕ → Disk

-- `m_stream << m_buffer`, `flush` and the clearing of the buffer, which does not depend on how they
-- end; after a failure the stream is not good.
unfoldable pub put_buffer : Disk → WriterInstance → WriterInstance
put_buffer (no_writing n) w = record w {
  file = w.file ++ take n w.buffer;
  buffer = [];
  is_open = false;
}
put_buffer disk w = record w { file = w.file ++ w.buffer; buffer = []; is_open = true }

-- The write: the stream is opened in append mode where it is not open or not good; where that fails
-- the buffer is kept.
unfoldable pub write_out : Disk → WriterInstance → WriterInstance
unfolding put_buffer
write_out no_opening w = if w.is_open then put_buffer works w else record w { is_open = false }
write_out disk w = put_buffer disk w

-- The timestamp text is `Utils::formatTimestampMicros`, which rests on gmtime_r and strftime.
module _ (format_timestamp_micros : ℕ → Bytes) where
  unfoldable pub format_entries : List LogEntry → Bytes
  format_entries [] = []
  format_entries (e ∷ entries) =
      format_timestamp_micros e.epoch_us
      ++ (if e.inbound then codes " RECV: " else codes " SENT: ")
      ++ e.msg
      ++ (10 ∷ [])
      ++ format_entries entries

  -- The formatting of the deferred entries, and the replacement of SOH where it is asked for.
  unfoldable pub format_buffer : WriterInstance → WriterInstance
  unfolding format_entries replace_soh
  format_buffer w =
      let text = w.buffer ++ format_entries w.log_entry_buffer in
      record w {
        buffer = if w.format_fix_messages then replace_soh text else text;
        log_entry_buffer = [];
      }

  -- What FileWriter::flushInstances does to an instance before the write.
  unfoldable pub prepare : WriterInstance → WriterInstance
  prepare w = format_buffer (swap_log_entries (swap_queue (record w { dirty = false })))

  unfoldable pub write_buffer : Disk → WriterInstance → WriterInstance
  write_buffer disk w = if is_empty w.buffer then w else write_out disk w

  -- FileWriter::flushInstances, the body for one instance.
  unfoldable pub flush_instance : Disk → WriterInstance → WriterInstance
  flush_instance disk w =
      if not w.dirty
      then w
      else if w.should_reset
      then record w {
        dirty = false;
        should_reset = false;
        queue = [];
        buffer = [];
        log_entry_queue = [];
        log_entry_buffer = [];
        is_open = false;
        file = [];
      }
      else write_buffer disk (prepare w)
