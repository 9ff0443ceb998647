-- ===== src/Cache/Mirror.antt =====
-- The cache of src/FIXCache.cpp and its data file: what `load` reads back after `flushSeqNums`.
use openfix.Prelude.{
  ℕ, Bool, true, false, some, List, [], ◌∷◌, ◌++◌, ◌==◌, if◌then◌else◌, ◌≡◌, refl, sym, ap, ◌∙◌,
  arith, Bytes, ◌<◌, All, IsInt, length, All-append, Option-cases, inl, inr, Bool-cases,
}
use openfix.LinkedHashMap.{find, has}
use openfix.LinkedHashMap.Laws.{find-put, find-none}
use openfix.Writer.Content.{content}
use openfix.Store.{SessionData, new_session_data, load_file, loaded, add_message}
use openfix.Store.RoundTrip.{Record, encode_all, apply, replay, Fits, load_file-encode_all}
use openfix.Cache.{Cache, flush_messages, flush_seq_nums}
use openfix.Cache.Durable.{
  pending_records, number_records, content-flush_seq_nums, encode_all_append,
}

-- A message is among those that wait to be stored.
unfoldable pub waits : ℕ → List ℕ → Bool
waits k [] = false
waits k (seq ∷ pending) = if seq == k then true else waits k pending

same_key : (i j : ℕ) → (i == j) ≡ true → i ≡ j
same_key i j h = ground arith

replay_append :
    (rs ss : List Record) (d : SessionData) → replay d (rs ++ ss) ≡ replay (replay d rs) ss
unfolding replay
replay_append [] ss d = refl
replay_append (r ∷ rs) ss d = replay_append rs ss (apply d r)

-- The waiting messages are cached.
abbrev pub Cached : List (ℕ × Bytes) → List ℕ → Type 0
Cached messages pending = All (λ k. has k messages ≡ true) pending

replay-pending_messages :
    (messages : List (ℕ × Bytes)) (pending : List ℕ) (d : SessionData)
    → Cached messages pending
    → ((k : ℕ) → waits k pending ≡ false → find k d.messages ≡ find k messages)
    → (k : ℕ) → find k (replay d (pending_records messages pending)).messages ≡ find k messages
unfolding replay pending_records waits apply
replay-pending_messages messages [] d c h k = h k refl
replay-pending_messages messages (seq ∷ pending) d c h k = elim (Option-cases (find seq messages)) [
  | inl e ↦ absurd (ground (arith, c.0, find-none seq messages e))
  | inr (msg, e) ↦
      rw (pending_records, e)
        (replay-pending_messages messages pending (add_message seq msg d) c.1
          (λ j out. elim (Bool-cases (seq == j)) [
            | inl same ↦
                rw (find-put seq j msg d.messages, same)
                  (sym e ∙ ap (λ i. find i messages) (same_key seq j same))
            | inr other ↦ rw (find-put seq j msg d.messages, other) (h j (rw other out))
          ])
          k)
]

replay-pending_numbers :
    (messages : List (ℕ × Bytes)) (pending : List ℕ) (d : SessionData)
    → ((replay d (pending_records messages pending)).sender_seq_num ≡ d.sender_seq_num)
      × ((replay d (pending_records messages pending)).target_seq_num ≡ d.target_seq_num)
unfolding replay pending_records apply
replay-pending_numbers messages [] d = (refl, refl)
replay-pending_numbers messages (seq ∷ pending) d = elim (Option-cases (find seq messages)) [
  | inl e ↦ rw (pending_records, e) (replay-pending_numbers messages pending d)
  | inr (msg, e) ↦
      rw (pending_records, e) (replay-pending_numbers messages pending (add_message seq msg d))
]

-- The records `rs` were handed to the writer of the cache `c`; they give its numbers, unless these
-- are dirty, and its messages, but for those that wait to be stored.
pub record Mirrors (rs : List Record) (c : Cache) : Type 0 where
  pub written : content c.writer ≡ encode_all rs
  pub fits : All Fits rs
  pub cached : Cached c.messages c.pending_store_seq_nums
  pub settled :
      (k : ℕ)
      → waits k c.pending_store_seq_nums ≡ false
      → find k (replay new_session_data rs).messages ≡ find k c.messages
  pub senders :
      c.seq_nums_dirty ≡ false → (replay new_session_data rs).sender_seq_num ≡ c.sender_seq_num
  pub targets :
      c.seq_nums_dirty ≡ false → (replay new_session_data rs).target_seq_num ≡ c.target_seq_num
  pub is_sender : IsInt c.sender_seq_num
  pub is_target : IsInt c.target_seq_num
  pub sized :
      (k : ℕ) (msg : Bytes)
      → find k c.messages ≡ some msg
      → IsInt k × (length msg < 18446744073709551616)

-- The data that a file gives are those of the cache.
pub record Restores (c : Cache) (file : Bytes) : Type 0 where
  pub data_read : SessionData
  pub loads : load_file file ≡ loaded data_read
  pub same_sender : data_read.sender_seq_num ≡ c.sender_seq_num
  pub same_target : data_read.target_seq_num ≡ c.target_seq_num
  pub same_messages : (k : ℕ) → find k data_read.messages ≡ find k c.messages

pending-Fits :
    (messages : List (ℕ × Bytes)) (pending : List ℕ)
    → ((k : ℕ) (msg : Bytes)
        → find k messages ≡ some msg
        → IsInt k × (length msg < 18446744073709551616))
    → All Fits (pending_records messages pending)
unfolding pending_records
pending-Fits messages [] sized = tt
pending-Fits messages (seq ∷ pending) sized = elim (Option-cases (find seq messages)) [
  | inl e ↦ rw (pending_records, e) (pending-Fits messages pending sized)
  | inr (msg, e) ↦ rw (pending_records, e) (sized seq msg e, pending-Fits messages pending sized)
]

number-Fits : (rs : List Record) (c : Cache) → Mirrors rs c → All Fits (number_records c)
unfolding number_records
number-Fits rs c m = elim (Bool-cases c.seq_nums_dirty) [
  | inl e ↦ rw e (m.is_sender, (m.is_target, tt))
  | inr e ↦ rw e tt
]

replay-number_messages :
    (c : Cache) (d : SessionData) → (replay d (number_records c)).messages ≡ d.messages
unfolding number_records replay apply
replay-number_messages c d = elim (Bool-cases c.seq_nums_dirty) [
  | inl e ↦ rw e refl
  | inr e ↦ rw e refl
]

replay-number_sender :
    (c : Cache) (d : SessionData)
    → (c.seq_nums_dirty ≡ false → d.sender_seq_num ≡ c.sender_seq_num)
    → (replay d (number_records c)).sender_seq_num ≡ c.sender_seq_num
unfolding number_records replay apply
replay-number_sender c d h = elim (Bool-cases c.seq_nums_dirty) [
  | inl e ↦ rw e refl
  | inr e ↦ rw e (h e)
]

replay-number_target :
    (c : Cache) (d : SessionData)
    → (c.seq_nums_dirty ≡ false → d.target_seq_num ≡ c.target_seq_num)
    → (replay d (number_records c)).target_seq_num ≡ c.target_seq_num
unfolding number_records replay apply
replay-number_target c d h = elim (Bool-cases c.seq_nums_dirty) [
  | inl e ↦ rw e refl
  | inr e ↦ rw e (h e)
]

abbrev flushed : List Record → Cache → List Record
flushed rs c = rs ++ (pending_records c.messages c.pending_store_seq_nums ++ number_records c)

flush_seq_nums-fields :
    (c : Cache)
    → ((flush_seq_nums c).messages ≡ c.messages)
      × ((flush_seq_nums c).sender_seq_num ≡ c.sender_seq_num)
      × ((flush_seq_nums c).target_seq_num ≡ c.target_seq_num)
      × ((flush_seq_nums c).pending_store_seq_nums ≡ [])
unfolding flush_seq_nums flush_messages
flush_seq_nums-fields c = ground arith

module _ (rs : List Record) (c : Cache) (m : Mirrors rs c) where
  stored : SessionData
  stored = replay (replay new_session_data rs) (pending_records c.messages c.pending_store_seq_nums)

  replay-flushed : replay new_session_data (flushed rs c) ≡ replay stored (number_records c)
  unfolding stored
  replay-flushed =
      replay_append rs _ new_session_data
      ∙ replay_append (pending_records c.messages c.pending_store_seq_nums) _ _

  flushed-messages :
      (k : ℕ) → find k (replay new_session_data (flushed rs c)).messages ≡ find k c.messages
  unfolding stored
  flushed-messages k =
      rw (replay-flushed, replay-number_messages c stored)
        (replay-pending_messages c.messages c.pending_store_seq_nums _ m.cached m.settled k)

  flushed-sender : (replay new_session_data (flushed rs c)).sender_seq_num ≡ c.sender_seq_num
  unfolding stored
  flushed-sender = rw replay-flushed (
      replay-number_sender c stored
        (λ e. (replay-pending_numbers c.messages c.pending_store_seq_nums _).0 ∙ m.senders e))

  flushed-target : (replay new_session_data (flushed rs c)).target_seq_num ≡ c.target_seq_num
  unfolding stored
  flushed-target = rw replay-flushed (
      replay-number_target c stored
        (λ e. (replay-pending_numbers c.messages c.pending_store_seq_nums _).1 ∙ m.targets e))

  flushed-Fits : All Fits (flushed rs c)
  flushed-Fits = All-append Fits rs _ m.fits (
      All-append Fits (pending_records c.messages c.pending_store_seq_nums) (number_records c)
        (pending-Fits c.messages c.pending_store_seq_nums m.sized) (number-Fits rs c m))

  flushed-written : content (flush_seq_nums c).writer ≡ encode_all (flushed rs c)
  flushed-written =
      content-flush_seq_nums c
      ∙ ap
          (λ t.
            t
            ++ encode_all (pending_records c.messages c.pending_store_seq_nums ++ number_records c))
          m.written
      ∙ sym (encode_all_append rs _)

  -- Flushing keeps the correspondence of a cache and its records.
  pub flush_seq_nums-Mirrors : Mirrors (flushed rs c) (flush_seq_nums c)
  flush_seq_nums-Mirrors =
      let (messages, senders, targets, pending) = flush_seq_nums-fields c in
      record {
        written = flushed-written;
        fits = flushed-Fits;
        cached = rw pending tt;
        settled = λ k out. flushed-messages k ∙ ap (λ ms. find k ms) (sym messages);
        senders = λ e. flushed-sender ∙ sym senders;
        targets = λ e. flushed-target ∙ sym targets;
        is_sender = rw senders m.is_sender;
        is_target = rw targets m.is_target;
        sized = rw messages m.sized;
      }

  -- What is loaded from the texts that a cache has handed to its writer, after `flushSeqNums`: its
  -- sequence numbers and its messages.
  pub flush_seq_nums-Restores : Restores c (content (flush_seq_nums c).writer)
  flush_seq_nums-Restores = record {
    data_read = replay new_session_data (flushed rs c);
    loads = rw flushed-written (load_file-encode_all (flushed rs c) flushed-Fits);
    same_sender = flushed-sender;
    same_target = flushed-target;
    same_messages = flushed-messages;
  }
