-- ===== src/Cache.antt =====
-- src/FIXCache.h and src/FIXCache.cpp: the memory cache of a session, its sequence numbers, its
-- outbound messages and its inbound queue. Maps are lists of entries by key; the inbound queue is
-- a `std::map`, kept in the order of its keys.
pub mod Durable
pub mod Mirror
pub mod Replay
pub mod Changes
use openfix.LinkedHashMap.Sort.{sort_entries}
use openfix.Prelude.{
  ℕ, Bool, true, false, not, ◌&&◌, ◌||◌, Option, none, some, List, [], ◌∷◌, ◌++◌, ◌==◌, ltb, leb,
  if◌then◌else◌, Bytes, is_empty, int, int_zero, int_suc,
}
use openfix.LinkedHashMap.{find, put}
use openfix.Message.{Message}
use openfix.Writer.{WriterInstance}
use openfix.Writer
use openfix.Store.{SessionData, LoadResult, loaded, set_sender_seq_num, set_target_seq_num}
use openfix.Store

-- class MemoryCache; the store handle is its writer.
pub record Cache : Type 0 where
  pub sender_seq_num : ℕ
  pub target_seq_num : ℕ
  pub messages : List (ℕ × Bytes)
  pub seq_nums_dirty : Bool
  pub pending_store_seq_nums : List ℕ
  pub inbound_queue : List (ℕ × Message)
  pub writer : WriterInstance

-- The constructor.
unfoldable pub new_cache : WriterInstance → Cache
new_cache w = record {
  sender_seq_num = int 1;
  target_seq_num = int 1;
  messages = [];
  seq_nums_dirty = false;
  pending_store_seq_nums = [];
  inbound_queue = [];
  writer = w;
}

-- MemoryCache::load, from the result of `m_store.load()`; where that throws nothing is changed.
unfoldable pub load : LoadResult → Cache → Option Cache
load (loaded d) c = some (record c {
  sender_seq_num = d.sender_seq_num;
  target_seq_num = d.target_seq_num;
  messages = d.messages;
  seq_nums_dirty = false;
  pending_store_seq_nums = [];
})
load _ c = none

-- MemoryCache::reset
unfoldable pub reset : Cache → Cache
unfolding Writer.reset
reset c = record c {
  messages = [];
  inbound_queue = [];
  pending_store_seq_nums = [];
  sender_seq_num = int_zero;
  target_seq_num = int_zero;
  seq_nums_dirty = false;
  writer = Writer.reset c.writer;
}

-- MemoryCache::setSenderSeqNum, setTargetSeqNum, nextSenderSeqNum, nextTargetSeqNum
unfoldable pub set_sender : ℕ → Cache → Cache
set_sender num c = record c { sender_seq_num = num; seq_nums_dirty = true }

unfoldable pub set_target : ℕ → Cache → Cache
set_target num c = record c { target_seq_num = num; seq_nums_dirty = true }

unfoldable pub next_sender : Cache → Cache
next_sender c = record c { sender_seq_num = int_suc c.sender_seq_num; seq_nums_dirty = true }

unfoldable pub next_target : Cache → Cache
next_target c = record c { target_seq_num = int_suc c.target_seq_num; seq_nums_dirty = true }

-- MemoryCache::cache
unfoldable pub cache : ℕ → Bytes → Cache → Cache
cache seqnum wire c = record c {
  messages = put seqnum wire c.messages;
  pending_store_seq_nums = c.pending_store_seq_nums ++ seqnum ∷ [];
}

-- The loop of flushSeqNums over the pending sequence numbers.
unfoldable pub store_pending : List (ℕ × Bytes) → List ℕ → WriterInstance → WriterInstance
store_pending messages [] w = w
store_pending messages (seq ∷ pending) w =
    store_pending messages pending
      (elim (find seq messages) [ none ↦ w | some msg ↦ Store.store seq msg w ])

-- MemoryCache::flushSeqNums
unfoldable pub flush_messages : Cache → Cache
unfolding store_pending
flush_messages c = record c {
  writer = store_pending c.messages c.pending_store_seq_nums c.writer;
  pending_store_seq_nums = [];
}

unfoldable pub flush_seq_nums : Cache → Cache
unfolding flush_messages
flush_seq_nums c =
    let c' = flush_messages c in
    if not c.seq_nums_dirty then c' else record c' {
      seq_nums_dirty = false;
      writer = set_target_seq_num c.target_seq_num (set_sender_seq_num c.sender_seq_num c'.writer);
    }

-- The entries that getMessages collects.
unfoldable pub collect : ℕ → ℕ → List (ℕ × Bytes) → List (ℕ × Bytes)
collect from to [] = []
collect from to ((seq, wire) ∷ m) =
    let rest = collect from to m in
    if leb from seq && ((to == int_zero) || leb seq to) then (seq, wire) ∷ rest else rest

-- MemoryCache::getMessages, up to the parsing: what the consumer is called with, in order.
unfoldable pub get_messages : ℕ → ℕ → Cache → List (ℕ × Bytes)
unfolding collect sort_entries
get_messages from to c = sort_entries (collect from to c.messages)

-- `getInboundQueue()[seqNum] = msg`
unfoldable pub enqueue : ℕ → Message → List (ℕ × Message) → List (ℕ × Message)
enqueue seq msg [] = (seq, msg) ∷ []
enqueue seq msg ((s, m) ∷ queue) =
    if ltb seq s
    then (seq, msg) ∷ (s, m) ∷ queue
    else if seq == s
    then (seq, msg) ∷ queue
    else (s, m) ∷ enqueue seq msg queue

-- `queue.erase(queue.begin())` on the inbound queue. On an empty map the source's call is
-- undefined; here it changes nothing.
unfoldable pub erase_first : Cache → Cache
erase_first c = record c { inbound_queue = elim c.inbound_queue [ [] ↦ [] | entry ∷ rest ↦ rest ] }
