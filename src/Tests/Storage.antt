-- ===== src/Tests/Storage.antt =====
-- The theorems on the storage at concrete inputs.
use openfix.Prelude.{
  ℕ, ◌≡◌, ◌≢◌, [], ◌∷◌, ◌++◌, Bytes, refl, arith, codes, none, int, if◌then◌else◌,
}
use openfix.LinkedHashMap.{find, has}
use openfix.Writer.{
  works, no_opening, no_writing, write_buffer, prepare, swap_queue, swap_log_entries, format_buffer,
  format_entries, write_out, put_buffer, write, reset, flush_instance,
}
use openfix.Writer.Content.{
  IsDataFile, content, writes, writes_raw, flushes, texts, run, content-run, flush-write-reset,
  flush-write-failed,
}
use openfix.Store.{load_file, load_loop, loaded, stuck, new_session_data}
use openfix.Store.RoundTrip.{
  message, sender, target, encode_all, replay, load_file-encode_all, load_loop-ne-stuck,
}
use openfix.Cache.{Cache, flush_seq_nums, new_cache, get_messages}
use openfix.LinkedHashMap.Sort.{Ascending}
use openfix.Cache.Replay.{in_range, get_messages-Ascending}
use openfix.Cache.Mirror.{Restores}
use openfix.Cache.Changes.{caches, sends, receives, changes, changes-Restores}
use openfix.Tests.Fixture.{empty_writer}

load_file-encode_all_example :
    load_file (encode_all (sender (int 3) ∷ message (int 2) (codes "8=FIX") ∷ target (int 7) ∷ []))
    ≡ loaded (
        replay new_session_data
          (sender (int 3) ∷ message (int 2) (codes "8=FIX") ∷ target (int 7) ∷ []))
load_file-encode_all_example =
    load_file-encode_all (sender (int 3) ∷ message (int 2) (codes "8=FIX") ∷ target (int 7) ∷ [])
      (omega arith)

-- A truncated number: the file is refused, and the loop ends.
load_loop-ne-stuck_example : load_loop 4 (1 ∷ 5 ∷ 0 ∷ []) new_session_data ≢ stuck
load_loop-ne-stuck_example = load_loop-ne-stuck 4 (1 ∷ 5 ∷ 0 ∷ []) new_session_data (omega arith)

empty_writer-IsDataFile : IsDataFile empty_writer
empty_writer-IsDataFile = ground arith

abbrev timestamp : ℕ → Bytes
timestamp micros = codes "20240101-00:00:05.000000"

content-run_example :
    content (
      run timestamp
        (writes (codes "ab") ∷ flushes ∷ writes_raw (codes "c") (codes "d") ∷ [])
        empty_writer)
    ≡ content empty_writer
      ++ texts (writes (codes "ab") ∷ flushes ∷ writes_raw (codes "c") (codes "d") ∷ [])
content-run_example =
    content-run timestamp (writes (codes "ab") ∷ flushes ∷ writes_raw (codes "c") (codes "d") ∷ [])
      empty_writer empty_writer-IsDataFile

flush-write-reset_example :
    content (flush_instance timestamp works (write (codes "ab") (reset empty_writer))) ≡ []
flush-write-reset_example = flush-write-reset timestamp works (codes "ab") empty_writer

-- A text whose writing fails is cleared, and is lost.
failed_writing :
    content (flush_instance timestamp (no_writing 1) (write (codes "ab") empty_writer)) ≡ codes "a"
unfolding flush_instance write_buffer prepare swap_queue swap_log_entries format_buffer
    format_entries write_out put_buffer write
failed_writing = refl

flush-write-failed_example :
    ((run timestamp (flushes ∷ []) (
        write
          (codes "b")
          (flush_instance timestamp no_opening (write (codes "a") empty_writer)))).file
      ≡ empty_writer.file ++ codes "b")
    × ((run timestamp (flushes ∷ []) (
          write
            (codes "b")
            (flush_instance timestamp no_opening (write (codes "a") empty_writer)))).queue
        ≡ codes "a")
flush-write-failed_example =
    flush-write-failed timestamp (codes "a") (codes "b") empty_writer empty_writer-IsDataFile refl
      refl refl refl

changes-Restores_example :
    Restores
      (changes (caches (int 1) (codes "8=FIX") ∷ sends ∷ receives ∷ []) (new_cache empty_writer))
      (content
        (flush_seq_nums (
          changes
            (caches (int 1) (codes "8=FIX") ∷ sends ∷ receives ∷ [])
            (new_cache empty_writer))).writer)
changes-Restores_example =
    changes-Restores (caches (int 1) (codes "8=FIX") ∷ sends ∷ receives ∷ []) empty_writer refl
      (omega arith)

abbrev filled_cache : Cache
filled_cache = record (new_cache empty_writer) {
  messages = (int 3, codes "c") ∷ (int 1, codes "a") ∷ [];
}

get_messages-Ascending_example :
    Ascending (get_messages (int 1) (int 0) filled_cache)
    × ((k : ℕ)
        → find k (get_messages (int 1) (int 0) filled_cache)
          ≡ (if in_range (int 1) (int 0) k then find k filled_cache.messages else none))
unfolding has
get_messages-Ascending_example =
    get_messages-Ascending (int 1) (int 0) filled_cache (refl, (refl, tt))
