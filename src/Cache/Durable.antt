-- ===== src/Cache/Durable.antt =====
-- What the cache of src/FIXCache.cpp leaves in its data file: the records of `flushSeqNums`.
use openfix.Prelude.{
  ℕ, not, none, some, List, [], ◌∷◌, ◌++◌, if◌then◌else◌, ◌≡◌, refl, sym, ap, ◌∙◌, Bytes,
  append_assoc, append-nil, Option-cases, inl, inr, Bool-cases,
}
use openfix.LinkedHashMap.{find}
use openfix.Writer.{WriterInstance}
use openfix.Writer.Content.{content, content-write, content-write_raw}
use openfix.Store.{message_header, store, set_sender_seq_num, set_target_seq_num}
use openfix.Store.RoundTrip.{Record, message, sender, target, encode, encode_all}
use openfix.Cache.{Cache, store_pending, flush_messages, flush_seq_nums}

-- The records of the pending messages.
unfoldable pub pending_records : List (ℕ × Bytes) → List ℕ → List Record
pending_records messages [] = []
pending_records messages (seq ∷ pending) =
    let rest = pending_records messages pending in
    elim (find seq messages) [ none ↦ rest | some msg ↦ message seq msg ∷ rest ]

-- The records of the sequence numbers.
unfoldable pub number_records : Cache → List Record
number_records c =
    if not c.seq_nums_dirty then [] else sender c.sender_seq_num ∷ target c.target_seq_num ∷ []

content-store :
    (seq : ℕ) (msg : Bytes) (w : WriterInstance)
    → content (store seq msg w) ≡ content w ++ encode (message seq msg)
unfolding store encode
content-store seq msg w =
    content-write_raw (message_header seq msg) msg w
    ∙ append_assoc (content w) (message_header seq msg) msg

pub encode_all_append :
    (rs ss : List Record) → encode_all (rs ++ ss) ≡ encode_all rs ++ encode_all ss
unfolding encode_all
encode_all_append [] ss = refl
encode_all_append (r ∷ rs) ss =
    rw (encode_all_append rs ss, append_assoc (encode r) (encode_all rs) (encode_all ss))

content-store_pending :
    (messages : List (ℕ × Bytes)) (pending : List ℕ) (w : WriterInstance)
    → content (store_pending messages pending w)
      ≡ content w ++ encode_all (pending_records messages pending)
unfolding store_pending pending_records encode_all
content-store_pending messages [] w = sym (append-nil (content w))
content-store_pending messages (seq ∷ pending) w = elim (Option-cases (find seq messages)) [
  | inl e ↦
      rw (store_pending, encode_all, pending_records, e) (content-store_pending messages pending w)
  | inr (msg, e) ↦
      rw (store_pending, encode_all, pending_records, e)
        (content-store_pending messages pending (store seq msg w)
          ∙ ap (λ t. t ++ encode_all (pending_records messages pending)) (content-store seq msg w)
          ∙ append_assoc (content w) (encode (message seq msg))
              (encode_all (pending_records messages pending)))
]

content-sender :
    (n : ℕ) (w : WriterInstance) → content (set_sender_seq_num n w) ≡ content w ++ encode (sender n)
unfolding set_sender_seq_num encode
content-sender n w = content-write (encode (sender n)) w

content-target :
    (n : ℕ) (w : WriterInstance) → content (set_target_seq_num n w) ≡ content w ++ encode (target n)
unfolding set_target_seq_num encode
content-target n w = content-write (encode (target n)) w

content-numbers :
    (c : Cache) (w : WriterInstance)
    → content (set_target_seq_num c.target_seq_num (set_sender_seq_num c.sender_seq_num w))
      ≡ content w ++ encode_all (sender c.sender_seq_num ∷ target c.target_seq_num ∷ [])
unfolding encode_all
content-numbers c w =
    rw
      (
        content-target c.target_seq_num (set_sender_seq_num c.sender_seq_num w),
        content-sender c.sender_seq_num w,
        append-nil (encode (target c.target_seq_num)),
      )
      (append_assoc (content w) (encode (sender c.sender_seq_num))
        (encode (target c.target_seq_num)))

-- `flushSeqNums` adds these records to what has been handed to the writer.
pub content-flush_seq_nums :
    (c : Cache)
    → content (flush_seq_nums c).writer
      ≡ content c.writer
        ++ encode_all (pending_records c.messages c.pending_store_seq_nums ++ number_records c)
unfolding flush_seq_nums flush_messages number_records set_sender_seq_num set_target_seq_num
content-flush_seq_nums c =
    let rs = pending_records c.messages c.pending_store_seq_nums in
    let w = store_pending c.messages c.pending_store_seq_nums c.writer in
    let stored = content-store_pending c.messages c.pending_store_seq_nums c.writer in
    elim (Bool-cases c.seq_nums_dirty) [
      | inl e ↦ rw e (
          content-numbers c w
          ∙ ap (λ t. t ++ encode_all (sender c.sender_seq_num ∷ target c.target_seq_num ∷ []))
              stored
          ∙ append_assoc (content c.writer) (encode_all rs) _
          ∙ ap (λ t. content c.writer ++ t)
              (sym (encode_all_append rs (sender c.sender_seq_num ∷ target c.target_seq_num ∷ []))))
      | inr e ↦ rw (e, append-nil rs) stored
    ]
