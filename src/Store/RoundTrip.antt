-- ===== src/Store/RoundTrip.antt =====
-- The records of a data file of src/FIXStore.cpp, written and loaded.
use openfix.Prelude.{
  ℕ, zero, suc, ◌+◌, ◌*◌, ◌/◌, ◌%◌, ◌^◌, ◌<◌, ◌≤◌, some, List, [], ◌∷◌, ◌++◌, ◌≡◌, refl, ap, sym,
  ◌∙◌, ◌≢◌, arith, Bytes, length, length-append, length-drop, take-append_self, drop-append_self,
  All, IsInt, append_assoc, append-nil,
}
use native.Mathlib.Nat.{pow-suc, zero-add, suc-add}
use openfix.Store.{
  SessionData, new_session_data, to_le, from_le, int_bytes, bytes_int, message_header, read,
  add_message, loaded, stuck, load_loop, load_file,
}

-- The records of a data file.
pub data Record : Type 0 where
  message : ℕ → Bytes → Record
  sender : ℕ → Record
  target : ℕ → Record

unfoldable pub encode : Record → Bytes
encode (message n msg) = message_header n msg ++ msg
encode (sender n) = 1 ∷ int_bytes n
encode (target n) = 2 ∷ int_bytes n

unfoldable pub encode_all : List Record → Bytes
encode_all [] = []
encode_all (r ∷ rs) = encode r ++ encode_all rs

unfoldable pub apply : SessionData → Record → SessionData
apply d (message n msg) = add_message n msg d
apply d (sender n) = record d { sender_seq_num = n }
apply d (target n) = record d { target_seq_num = n }

unfoldable pub replay : SessionData → List Record → SessionData
replay d [] = d
replay d (r ∷ rs) = replay (apply d r) rs

-- The numbers of a record are ints, and the length of its message is a size_t.
abbrev pub Fits : Record → Type 0
Fits (message n msg) = IsInt n × (length msg < 18446744073709551616)
Fits (sender n) = IsInt n
Fits (target n) = IsInt n

length-to_le : (w n : ℕ) → length (to_le w n) ≡ w
unfolding to_le
length-to_le zero n = refl
length-to_le (suc w) n = ap suc (length-to_le w (n / 256))

from_le-to_le : (w n : ℕ) → n < 256 ^ w → from_le (to_le w n) ≡ n
unfolding to_le from_le
from_le-to_le zero n h = omega arith
from_le-to_le (suc w) n h =
    let small : n < 256 ^ w * 256 = rw (pow-suc 256 w) at h in
    omega (arith, from_le-to_le w (n / 256) (omega arith))

bytes_int-int_bytes : (n : ℕ) → IsInt n → bytes_int (int_bytes n) ≡ n
unfolding bytes_int int_bytes
bytes_int-int_bytes n h =
    omega (arith, from_le-to_le 4 ((n + 2147483648) % 4294967296) (omega arith))

read_append : (s t : Bytes) → read (length s) (s ++ t) ≡ some (s, t)
unfolding read
read_append s t = rw (length-append s t, take-append_self s t, drop-append_self s t) (ground arith)

read-to_le : (w n : ℕ) (t : Bytes) → read w (to_le w n ++ t) ≡ some (to_le w n, t)
read-to_le w n t = (rw (length-to_le w n) at (read_append (to_le w n) t))

read_int : (n : ℕ) (t : Bytes) → read 4 (int_bytes n ++ t) ≡ some (int_bytes n, t)
unfolding int_bytes
read_int n t = read-to_le 4 _ t

-- One round of the loop takes one whole record.
load_loop-encode :
    (fuel : ℕ) (r : Record) (tail : Bytes) (d : SessionData)
    → Fits r
    → load_loop (suc fuel) (encode r ++ tail) d ≡ load_loop fuel tail (apply d r)
unfolding load_loop encode apply message_header
load_loop-encode fuel (sender n) tail d h = rw (read_int n tail, bytes_int-int_bytes n h, load_loop)
load_loop-encode fuel (target n) tail d h = rw (read_int n tail, bytes_int-int_bytes n h, load_loop)
load_loop-encode fuel (message n msg) tail d h = rw (
  append_assoc (int_bytes n ++ to_le 8 (length msg)) msg tail,
  append_assoc (int_bytes n) (to_le 8 (length msg)) (msg ++ tail),
  read_int n (to_le 8 (length msg) ++ (msg ++ tail)),
  read-to_le 8 (length msg) (msg ++ tail),
  from_le-to_le 8 (length msg) h.1,
  read_append msg tail,
  bytes_int-int_bytes n h.0,
  load_loop,
)

pub load_loop-encode_all :
    (fuel : ℕ) (rs : List Record) (tail : Bytes) (d : SessionData)
    → All Fits rs
    → load_loop (length rs + fuel) (encode_all rs ++ tail) d ≡ load_loop fuel tail (replay d rs)
unfolding encode_all replay
load_loop-encode_all fuel [] tail d h = rw zero-add
load_loop-encode_all fuel (r ∷ rs) tail d h =
    rw (append_assoc (encode r) (encode_all rs) tail, suc-add (length rs) fuel)
      (load_loop-encode (length rs + fuel) r (encode_all rs ++ tail) d h.0
        ∙ load_loop-encode_all fuel rs tail (apply d r) h.1)

read_shrinks : (n : ℕ) (s a b : Bytes) → read n s ≡ some (a, b) → length b ≤ length s
unfolding read
read_shrinks n s a b h = ground (arith, length-drop n s)

-- Fuel above the length of what is left makes no difference.
pub load_loop_fuel :
    (f g : ℕ) (s : Bytes) (d : SessionData)
    → length s < f
    → length s < g
    → load_loop f s d ≡ load_loop g s d
unfolding load_loop
load_loop_fuel zero g s d hf hg = absurd (omega arith)
load_loop_fuel (suc f) zero s d hf hg = absurd (omega arith)
load_loop_fuel (suc f) (suc g) [] d hf hg = refl
load_loop_fuel (suc f) (suc g) (type ∷ s) d hf hg = grind (arith, load_loop_fuel f g, read_shrinks)

-- Loading a data file always ends: the fuel of `load_file` never runs out.
pub load_loop-ne-stuck :
    (f : ℕ) (s : Bytes) (d : SessionData) → length s < f → load_loop f s d ≢ stuck
unfolding load_loop
load_loop-ne-stuck zero s d h = absurd (omega arith)
load_loop-ne-stuck (suc f) [] d h = ground arith
load_loop-ne-stuck (suc f) (type ∷ s) d h = grind (arith, load_loop-ne-stuck f, read_shrinks)

-- Loading a data file whose records are `rs`, with numbers that are ints and messages whose size is
-- a size_t, gives the data after those writes, in their order: the last numbers that were written,
-- and for each sequence number the last message.
pub load_file-encode_all :
    (rs : List Record)
    → All Fits rs
    → load_file (encode_all rs) ≡ loaded (replay new_session_data rs)
unfolding load_file load_loop
load_file-encode_all rs h =
    let s = encode_all rs in
    load_loop_fuel (suc (length s)) (length rs + suc (length s)) s new_session_data (omega arith)
      (omega arith)
    ∙ ap (λ t. load_loop (length rs + suc (length s)) t new_session_data) (sym (append-nil s))
    ∙ load_loop-encode_all (suc (length s)) rs [] new_session_data h
    ∙ load_loop-nil (length s) (replay new_session_data rs)
  where
    load_loop-nil : (f : ℕ) (d : SessionData) → load_loop (suc f) [] d ≡ loaded d
    load_loop-nil f d = refl
