-- ===== src/Cache/Replay.antt =====
-- What `getMessages` of src/FIXCache.cpp gives to a message recovery.
use openfix.Prelude.{
  ℕ, Bool, false, ◌&&◌, ◌||◌, none, List, [], ◌∷◌, ◌==◌, leb, if◌then◌else◌, ◌≡◌, refl, arith,
  Bytes, int_zero,
}
use openfix.LinkedHashMap.{find, has}
use openfix.LinkedHashMap.Laws.{Distinct}
use openfix.Cache.{Cache, collect, get_messages}
use openfix.LinkedHashMap.Sort.{find-sort_entries, Ascending, sort_entries-Ascending}

-- A sequence number that is asked for; the end 0 stands for no end.
abbrev pub in_range : ℕ → ℕ → ℕ → Bool
in_range from to k = leb from k && ((to == int_zero) || leb k to)

find-collect :
    (k from to : ℕ) (m : List (ℕ × Bytes))
    → find k (collect from to m) ≡ (if in_range from to k then find k m else none)
unfolding find collect
find-collect k from to [] = ground arith
find-collect k from to ((seq, wire) ∷ m) = ground (arith, find-collect k from to m)

has-collect :
    (k from to : ℕ) (m : List (ℕ × Bytes)) → has k m ≡ false → has k (collect from to m) ≡ false
unfolding has collect
has-collect k from to [] h = refl
has-collect k from to ((seq, wire) ∷ m) h = ground (arith, has-collect k from to m)

collect-Distinct : (from to : ℕ) (m : List (ℕ × Bytes)) → Distinct m → Distinct (collect from to m)
unfolding collect
collect-Distinct from to [] d = tt
collect-Distinct from to ((seq, wire) ∷ m) d =
    ground (arith, d.0, has-collect seq from to m, collect-Distinct from to m d.1)

-- A recovery is given the cached messages whose sequence numbers are asked for, all of them and no
-- others, each once and in ascending order.
pub get_messages-Ascending :
    (from to : ℕ) (c : Cache)
    → Distinct c.messages
    → Ascending (get_messages from to c)
      × ((k : ℕ)
          → find k (get_messages from to c)
            ≡ (if in_range from to k then find k c.messages else none))
unfolding get_messages
get_messages-Ascending from to c d = (
  sort_entries-Ascending (collect from to c.messages) (collect-Distinct from to c.messages d),
  λ k.
      ground (
        arith,
        find-sort_entries k (collect from to c.messages),
        find-collect k from to c.messages,
      ),
)
