-- ===== src/Network/Framing.antt =====
-- class ReadBuffer of src/Network.cpp, with the searches of src/lib/Utils.h: the messages that are
-- cut out of the bytes of a connection. A position in the buffer is the text behind it.
pub mod Chunks
pub mod Grows
pub mod Search
pub mod Whole
use openfix.Prelude.{
  ℕ, zero, suc, ◌-◌, Bool, true, false, ◌&&◌, Option, none, some, List, [], ◌∷◌, ◌++◌, ◌==◌, ltb,
  leb, if◌then◌else◌, Bytes, codes, length, take, drop, is_empty, is_digit, leading,
}
use openfix.LinkedHashMap.{find, put, erase}
use openfix.Message.Serialize.{internal_soh}
use openfix.Dictionary.Parse.{split_at}

-- BEGIN_STRING_TAG, BODY_LENGTH_PATTERN and CHECKSUM_PATTERN.
abbrev pub begin_string_tag : Bytes
begin_string_tag = codes "8="

abbrev pub body_length_pattern : Bytes
body_length_pattern = internal_soh ∷ codes "9="

abbrev pub checksum_pattern : Bytes
checksum_pattern = internal_soh ∷ codes "10="

-- What follows a pattern at the start of a text.
unfoldable pub strip : Bytes → Bytes → Option Bytes
strip [] s = some s
strip (p ∷ pattern) [] = none
strip (p ∷ pattern) (c ∷ s) = let rest = strip pattern s in if p == c then rest else none

-- `std::string::find`: what stands before and behind the first occurrence.
unfoldable pub find_text : Bytes → Bytes → Option (Bytes × Bytes)
unfolding strip
find_text pattern [] = elim (strip pattern []) [ none ↦ none | some back ↦ some ([], back) ]
find_text pattern (c ∷ s) =
    let later = find_text pattern s in
    elim (strip pattern (c ∷ s)) [
      | some back ↦ some ([], back)
      | none ↦ elim later [ none ↦ none | some (front, back) ↦ some (c ∷ front, back) ]
    ]

-- Utils::getTagValueView: the value, and what follows its separator; `none` where the value is
-- empty, which the callers do not tell from a value that is not there.
unfoldable pub get_tag_value_view : Bytes → Bytes → Option (Bytes × Bytes)
unfolding find_text split_at
get_tag_value_view pattern s = elim (find_text pattern s) [
  | none ↦ none
  | some (front, back) ↦ elim (split_at internal_soh back) [
    | none ↦ none
    | some (value, next) ↦ if is_empty value then none else some (value, next)
  ]
]

-- The digits behind a minus sign.
unfoldable minus_zero : Bytes → Option ℕ
unfolding leading
minus_zero [] = none
minus_zero (b ∷ s) = if is_digit b && (leading (b ∷ s) 0 == 0) then some 0 else none

-- `std::from_chars` of an int that is not negative; `none` is an error or a negative number.
unfoldable pub from_chars_length : Bytes → Option ℕ
unfolding leading minus_zero
from_chars_length [] = none
from_chars_length (c ∷ s) =
    let n = leading (c ∷ s) 0 in
    let minus = minus_zero s in
    if c == 45 then minus else if is_digit c && leb n 2147483647 then some n else none

-- One round of the loop over the buffer: it stops with the text that stays, goes on behind a bad
-- body length, or cuts out a message.
pub data Round : Type 0 where
  waits : Bytes → Round
  skips : Bytes → Round
  cuts : Bytes → Bytes → Round

-- The part of the round that looks for the checksum; `message` is the text from its start.
unfoldable pub cut : Bytes → ℕ → Bytes → Round
unfolding get_tag_value_view
cut message n next = elim (get_tag_value_view checksum_pattern (drop n (internal_soh ∷ next))) [
  | none ↦ waits message
  | some (sum, rest) ↦ cuts (take (length message - length rest) message) rest
]

unfoldable pub frame : Bytes → Round
unfolding cut from_chars_length
frame message = elim (get_tag_value_view body_length_pattern message) [
  | none ↦ waits message
  | some (value, next) ↦ elim (from_chars_length value) [
    | none ↦ skips next
    | some n ↦ cut message n next
  ]
]

unfoldable pub extract_one : Bytes → Round
unfolding frame find_text
extract_one s = elim (find_text begin_string_tag s) [
  | none ↦ waits s
  | some (garbage, back) ↦ frame (begin_string_tag ++ back)
]

-- The loop, on fuel: the messages, and what stays in the buffer.
unfoldable pub extract_loop : ℕ → Bytes → List Bytes × Bytes
unfolding extract_one
extract_loop zero s = ([], s)
extract_loop (suc fuel) s = elim (extract_one s) [
  | waits rest ↦ ([], rest)
  | skips rest ↦ extract_loop fuel rest
  | cuts message rest ↦ let (messages, end) = extract_loop fuel rest in (message ∷ messages, end)
]

unfoldable pub extract : Bytes → List Bytes × Bytes
unfolding extract_loop
extract s = extract_loop (suc (length s)) s

-- The loop of ReadBuffer::read over what readConnection gives.
unfoldable pub read_chunks : List Bytes → Bytes → List Bytes × Bytes
unfolding extract
read_chunks [] buffer = ([], buffer)
read_chunks (chunk ∷ chunks) buffer =
    let (messages, rest) = extract (buffer ++ chunk) in
    let (more, end) = read_chunks chunks rest in (messages ++ more, end)

-- How the reads end: nothing more for now, an error, or the socket is closed.
pub data ReadEnd : Type 0 where
  would_block failed closed : ReadEnd

-- The buffers by descriptor, with the messages that are returned; `none` is SocketClosedError.
unfoldable pub read :
    ℕ → List Bytes → ReadEnd → List (ℕ × Bytes) → Option (List Bytes) × List (ℕ × Bytes)
unfolding read_chunks
read fd chunks end buffers =
    let buffer : Bytes = elim (find fd buffers) [ none ↦ [] | some b ↦ b ] in
    let (messages, rest) = read_chunks chunks buffer in
    elim end [
      | ReadEnd.would_block ↦ (some messages, put fd rest buffers)
      | ReadEnd.failed ↦ (some messages, put fd [] buffers)
      | ReadEnd.closed ↦ (none, put fd rest buffers)
    ]

-- ReadBuffer::clear, for one descriptor.
unfoldable pub clear : ℕ → List (ℕ × Bytes) → List (ℕ × Bytes)
clear fd buffers = erase fd buffers
