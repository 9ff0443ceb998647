-- ===== src/Store.antt =====
-- src/FIXStore.h and src/FIXStore.cpp: the data file of a session, as the bytes of its records,
-- and the loading of it. Integers are written as they stand in memory, little-endian.
pub mod RoundTrip
use openfix.Prelude.{
  ℕ, zero, suc, ◌+◌, ◌*◌, ◌/◌, ◌%◌, Bool, true, false, Option, none, some, List, [], ◌∷◌, ◌++◌,
  ◌==◌, ltb, if◌then◌else◌, Bytes, length, take, drop, int,
}
use openfix.LinkedHashMap.{put}
use openfix.Writer.{WriterInstance, write, write_raw}

-- struct SessionData; the `std::map` is a map by key.
pub record SessionData : Type 0 where
  pub messages : List (ℕ × Bytes)
  pub sender_seq_num : ℕ
  pub target_seq_num : ℕ

abbrev pub new_session_data : SessionData
new_session_data = record { messages = []; sender_seq_num = int 1; target_seq_num = int 1 }

-- The bytes of a number in `width` bytes, and the number that bytes stand for.
unfoldable pub to_le : ℕ → ℕ → Bytes
to_le zero n = []
to_le (suc width) n = n % 256 ∷ to_le width (n / 256)

unfoldable pub from_le : Bytes → ℕ
from_le [] = 0
from_le (b ∷ s) = b + 256 * from_le s

-- An `int` in memory: two's complement.
unfoldable pub int_bytes : ℕ → Bytes
unfolding to_le
int_bytes v = to_le 4 ((v + 2147483648) % 4294967296)

unfoldable pub bytes_int : Bytes → ℕ
unfolding from_le
bytes_int s = (from_le s + 2147483648) % 4294967296

-- The header of a message record: type, sequence number and length, 13 bytes.
unfoldable pub message_header : ℕ → Bytes → Bytes
unfolding int_bytes to_le
message_header seqnum msg = 0 ∷ int_bytes seqnum ++ to_le 8 (length msg)

-- StoreHandle::store
unfoldable pub store : ℕ → Bytes → WriterInstance → WriterInstance
unfolding message_header write_raw
store seqnum msg w = write_raw (message_header seqnum msg) msg w

-- StoreHandle::setSenderSeqNum
unfoldable pub set_sender_seq_num : ℕ → WriterInstance → WriterInstance
unfolding int_bytes write
set_sender_seq_num num w = write (1 ∷ int_bytes num) w

-- StoreHandle::setTargetSeqNum
unfoldable pub set_target_seq_num : ℕ → WriterInstance → WriterInstance
unfolding int_bytes write
set_target_seq_num num w = write (2 ∷ int_bytes num) w

-- FileStoreLoadError, by its four messages. `stuck` is no outcome of the code: the fuel ran out.
pub data LoadResult : Type 0 where
  loaded : SessionData → LoadResult
  bad_seqnum : LoadResult
  bad_message_seqnum : LoadResult
  bad_message_length : LoadResult
  incomplete_message : LoadResult
  stuck : LoadResult

-- `storeFile.read(…, n)`: the bytes and the rest, or the failure where fewer are left.
unfoldable pub read : ℕ → Bytes → Option (Bytes × Bytes)
read n s = if ltb (length s) n then none else some (take n s, drop n s)

abbrev pub add_message : ℕ → Bytes → SessionData → SessionData
add_message seqnum msg d = record d { messages = put seqnum msg d.messages }

-- StoreHandle::load, the loop over the records of an existing file. A byte that is no record type
-- is passed over.
unfoldable pub load_loop : ℕ → Bytes → SessionData → LoadResult
load_loop zero s d = stuck
load_loop (suc fuel) [] d = loaded d
load_loop (suc fuel) (type ∷ s) d = elim (type == 1) [
  | true ↦ elim (read 4 s) [
    | none ↦ bad_seqnum
    | some (n, rest) ↦ load_loop fuel rest (record d { sender_seq_num = bytes_int n })
  ]
  | false ↦ elim (type == 2) [
    | true ↦ elim (read 4 s) [
      | none ↦ bad_seqnum
      | some (n, rest) ↦ load_loop fuel rest (record d { target_seq_num = bytes_int n })
    ]
    | false ↦ elim (type == 0) [
      | true ↦ elim (read 4 s) [
        | none ↦ bad_message_seqnum
        | some (n, rest) ↦ elim (read 8 rest) [
          | none ↦ bad_message_length
          | some (l, rest') ↦ elim (read (from_le l) rest') [
            | none ↦ incomplete_message
            | some (msg, rest'') ↦ load_loop fuel rest'' (add_message (bytes_int n) msg d)
          ]
        ]
      ]
      | false ↦ load_loop fuel s d
    ]
  ]
]

-- Each round takes a byte at least, so one round more than there are bytes is enough.
unfoldable pub load_file : Bytes → LoadResult
unfolding load_loop
load_file s = load_loop (suc (length s)) s new_session_data

-- StoreHandle::load: `none` is that the file does not exist.
unfoldable pub load : Option Bytes → LoadResult
unfolding load_file
load none = loaded new_session_data
load (some s) = load_file s
