-- ===== src/Cache/Changes.antt =====
-- Sequences of changes of the cache of src/FIXCache.cpp, and what its data file has after them.
use openfix.Prelude.{
  ℕ, true, List, [], ◌∷◌, ◌++◌, ◌==◌, if◌then◌else◌, ◌≡◌, refl, sym, ◌∙◌, arith, Bytes, ◌<◌, All,
  IsInt, length, inl, inr, Bool-cases, int_suc,
}
use openfix.LinkedHashMap.{find, put}
use openfix.LinkedHashMap.Laws.{find-put, has-put}
use openfix.Writer.{WriterInstance}
use openfix.Writer.Content.{content}
use openfix.Store.RoundTrip.{Record, encode_all, replay}
use openfix.Cache
use openfix.Cache.{
  Cache, new_cache, set_sender, set_target, next_sender, next_target, cache, flush_seq_nums,
}
use openfix.Cache.Mirror.{
  waits, Cached, Mirrors, Restores, flush_seq_nums-Mirrors, flush_seq_nums-Restores,
}

-- The changes but a reset and the inbound queue.
pub data Change : Type 0 where
  sets_sender : ℕ → Change
  sets_target : ℕ → Change
  sends : Change
  receives : Change
  caches : ℕ → Bytes → Change
  flushes : Change

unfoldable pub change : Change → Cache → Cache
change (sets_sender n) c = set_sender n c
change (sets_target n) c = set_target n c
change sends c = next_sender c
change receives c = next_target c
change (caches seqnum wire) c = cache seqnum wire c
change flushes c = flush_seq_nums c

unfoldable pub changes : List Change → Cache → Cache
changes [] c = c
changes (step ∷ steps) c = changes steps (change step c)

-- Numbers are ints and the size of a message is a size_t.
abbrev pub IsSized : Change → Type 0
IsSized (sets_sender n) = IsInt n
IsSized (sets_target n) = IsInt n
IsSized (caches seqnum wire) = IsInt seqnum × (length wire < 18446744073709551616)
IsSized _ = Unit {0}

int_suc-IsInt : (n : ℕ) → IsInt (int_suc n)
unfolding int_suc
int_suc-IsInt n = omega arith

waits_append :
    (k seq : ℕ) (pending : List ℕ)
    → waits k (pending ++ seq ∷ []) ≡ (if seq == k then true else waits k pending)
unfolding waits
waits_append k seq [] = ground arith
waits_append k seq (p ∷ pending) = ground (arith, waits_append k seq pending)

put-Cached :
    (seq : ℕ) (wire : Bytes) (messages : List (ℕ × Bytes)) (pending : List ℕ)
    → Cached messages pending
    → Cached (put seq wire messages) (pending ++ seq ∷ [])
put-Cached seq wire messages [] c = (ground (arith, has-put seq seq wire messages), tt)
put-Cached seq wire messages (p ∷ pending) c =
    (ground (arith, c.0, has-put seq p wire messages), put-Cached seq wire messages pending c.1)

caches-Mirrors :
    (rs : List Record) (c : Cache) (seq : ℕ) (wire : Bytes)
    → IsSized (caches seq wire)
    → Mirrors rs c
    → Mirrors rs (cache seq wire c)
unfolding Cache.cache
caches-Mirrors rs c seq wire h m = record {
  written = m.written;
  fits = m.fits;
  cached = put-Cached seq wire c.messages c.pending_store_seq_nums m.cached;
  settled = λ k out. elim (Bool-cases (seq == k)) [
    | inl same ↦
        absurd (ground (arith, same, sym (waits_append k seq c.pending_store_seq_nums) ∙ out))
    | inr other ↦
        m.settled k (ground (arith, other, sym (waits_append k seq c.pending_store_seq_nums) ∙ out))
        ∙ ground (arith, other, find-put seq k wire c.messages)
  ];
  senders = m.senders;
  targets = m.targets;
  is_sender = m.is_sender;
  is_target = m.is_target;
  sized = λ k msg found. elim (Bool-cases (seq == k)) [
    | inl same ↦ ground (arith, h.0, h.1, same, found, find-put seq k wire c.messages)
    | inr other ↦ m.sized k msg (ground (arith, other, found, find-put seq k wire c.messages))
  ];
}

change-Mirrors :
    (step : Change) (rs : List Record) (c : Cache)
    → IsSized step
    → Mirrors rs c
    → (ss : List Record) × Mirrors ss (change step c)
unfolding change set_sender set_target next_sender next_target
change-Mirrors (sets_sender n) rs c h m = (
  rs,
  record {
    written = m.written;
    fits = m.fits;
    cached = m.cached;
    settled = m.settled;
    senders = λ e. absurd (ground arith);
    targets = λ e. absurd (ground arith);
    is_sender = h;
    is_target = m.is_target;
    sized = m.sized;
  },
)
change-Mirrors (sets_target n) rs c h m = (
  rs,
  record {
    written = m.written;
    fits = m.fits;
    cached = m.cached;
    settled = m.settled;
    senders = λ e. absurd (ground arith);
    targets = λ e. absurd (ground arith);
    is_sender = m.is_sender;
    is_target = h;
    sized = m.sized;
  },
)
change-Mirrors sends rs c h m = (
  rs,
  record {
    written = m.written;
    fits = m.fits;
    cached = m.cached;
    settled = m.settled;
    senders = λ e. absurd (ground arith);
    targets = λ e. absurd (ground arith);
    is_sender = int_suc-IsInt c.sender_seq_num;
    is_target = m.is_target;
    sized = m.sized;
  },
)
change-Mirrors receives rs c h m = (
  rs,
  record {
    written = m.written;
    fits = m.fits;
    cached = m.cached;
    settled = m.settled;
    senders = λ e. absurd (ground arith);
    targets = λ e. absurd (ground arith);
    is_sender = m.is_sender;
    is_target = int_suc-IsInt c.target_seq_num;
    sized = m.sized;
  },
)
change-Mirrors (caches seqnum wire) rs c h m = (rs, caches-Mirrors rs c seqnum wire h m)
change-Mirrors flushes rs c h m = (_, flush_seq_nums-Mirrors rs c m)

changes-Mirrors :
    (steps : List Change) (rs : List Record) (c : Cache)
    → All IsSized steps
    → Mirrors rs c
    → (ss : List Record) × Mirrors ss (changes steps c)
unfolding changes
changes-Mirrors [] rs c h m = (rs, m)
changes-Mirrors (step ∷ steps) rs c h m =
    let (ss, n) = change-Mirrors step rs c h.0 m in changes-Mirrors steps ss (change step c) h.1 n

new_cache-Mirrors : (w : WriterInstance) → content w ≡ [] → Mirrors [] (new_cache w)
unfolding new_cache encode_all waits replay find
new_cache-Mirrors w empty = record {
  written = empty;
  fits = tt;
  cached = tt;
  settled = λ k out. refl;
  senders = λ e. refl;
  targets = λ e. refl;
  is_sender = omega arith;
  is_target = omega arith;
  sized = λ k msg found. absurd (ground (arith, found));
}

-- The persistence of a session: after any changes of a new cache over an empty data file (its
-- numbers set or counted up, messages cached, `flushSeqNums` called; no reset; numbers that are
-- ints and messages whose size is a size_t), and one more `flushSeqNums`, loading what was handed to
-- the writer gives the sequence numbers of the cache and for each sequence number the message of
-- the cache.
pub changes-Restores :
    (steps : List Change) (w : WriterInstance)
    → content w ≡ []
    → All IsSized steps
    → Restores
        (changes steps (new_cache w))
        (content (flush_seq_nums (changes steps (new_cache w))).writer)
changes-Restores steps w empty h =
    let (ss, m) = changes-Mirrors steps [] (new_cache w) h (new_cache-Mirrors w empty) in
    flush_seq_nums-Restores ss (changes steps (new_cache w)) m
