-- ===== src/LinkedHashMap/Sort.antt =====
-- `std::sort` of the entries of a map by their keys, as src/FIXCache.cpp and src/Message.cpp call
-- it; entries of one key stay in their order.
use openfix.Prelude.{
  ℕ, true, false, some, List, [], ◌∷◌, ◌==◌, leb, if◌then◌else◌, ◌≡◌, refl, arith, Bytes, ◌<◌, inl,
  inr, Bool-cases,
}
use openfix.LinkedHashMap.{find, has}
use openfix.LinkedHashMap.Laws.{Distinct}

unfoldable pub insert_sorted : ℕ → Bytes → List (ℕ × Bytes) → List (ℕ × Bytes)
insert_sorted seq wire [] = (seq, wire) ∷ []
insert_sorted seq wire ((s, w) ∷ m) =
    if leb seq s then (seq, wire) ∷ (s, w) ∷ m else (s, w) ∷ insert_sorted seq wire m

unfoldable pub sort_entries : List (ℕ × Bytes) → List (ℕ × Bytes)
unfolding insert_sorted
sort_entries [] = []
sort_entries ((seq, wire) ∷ m) = insert_sorted seq wire (sort_entries m)

find-insert_sorted :
    (k seq : ℕ) (wire : Bytes) (m : List (ℕ × Bytes))
    → find k (insert_sorted seq wire m) ≡ (if seq == k then some wire else find k m)
unfolding find insert_sorted
find-insert_sorted k seq wire [] = refl
find-insert_sorted k seq wire ((s, w) ∷ m) = ground (arith, find-insert_sorted k seq wire m)

pub find-sort_entries : (k : ℕ) (m : List (ℕ × Bytes)) → find k (sort_entries m) ≡ find k m
unfolding find sort_entries
find-sort_entries k [] = refl
find-sort_entries k ((seq, wire) ∷ m) =
    ground (arith, find-insert_sorted k seq wire (sort_entries m), find-sort_entries k m)

-- Sequence numbers go up strictly.
abbrev pub Above : ℕ → List (ℕ × Bytes) → Type 0
Above s [] = Unit {0}
Above s ((seq, wire) ∷ m) = (s < seq) × Above s m

abbrev pub Ascending : List (ℕ × Bytes) → Type 0
Ascending [] = Unit {0}
Ascending ((seq, wire) ∷ m) = Above seq m × Ascending m

Above-trans : (s t : ℕ) (m : List (ℕ × Bytes)) → s < t → Above t m → Above s m
Above-trans s t [] h a = tt
Above-trans s t ((seq, wire) ∷ m) h a = (omega (arith, a.0), Above-trans s t m h a.1)

insert_sorted-Above :
    (s seq : ℕ) (wire : Bytes) (m : List (ℕ × Bytes))
    → s < seq
    → Above s m
    → Above s (insert_sorted seq wire m)
unfolding insert_sorted
insert_sorted-Above s seq wire [] h a = (h, tt)
insert_sorted-Above s seq wire ((t, w) ∷ m) h a =
    ground (arith, a.0, a.1, insert_sorted-Above s seq wire m h a.1)

insert_sorted-Ascending :
    (seq : ℕ) (wire : Bytes) (m : List (ℕ × Bytes))
    → has seq m ≡ false
    → Ascending m
    → Ascending (insert_sorted seq wire m)
unfolding insert_sorted has
insert_sorted-Ascending seq wire [] h a = (tt, tt)
insert_sorted-Ascending seq wire ((t, w) ∷ m) h a = elim (Bool-cases (leb seq t)) [
  | inl e ↦
      let below : seq < t = ground (arith, e, h) in
      rw (insert_sorted, e) ((below, Above-trans seq t m below a.0), a)
  | inr e ↦
      rw (insert_sorted, e)
        (
          insert_sorted-Above t seq wire m (ground (arith, e)) a.0,
          insert_sorted-Ascending seq wire m (ground (arith, h)) a.1,
        )
]

has-insert_sorted :
    (k seq : ℕ) (wire : Bytes) (m : List (ℕ × Bytes))
    → has k (insert_sorted seq wire m) ≡ (if seq == k then true else has k m)
unfolding has insert_sorted
has-insert_sorted k seq wire [] = refl
has-insert_sorted k seq wire ((s, w) ∷ m) = ground (arith, has-insert_sorted k seq wire m)

pub has-sort_entries : (k : ℕ) (m : List (ℕ × Bytes)) → has k (sort_entries m) ≡ has k m
unfolding has sort_entries
has-sort_entries k [] = refl
has-sort_entries k ((seq, wire) ∷ m) =
    ground (arith, has-insert_sorted k seq wire (sort_entries m), has-sort_entries k m)

pub sort_entries-Ascending : (m : List (ℕ × Bytes)) → Distinct m → Ascending (sort_entries m)
unfolding sort_entries
sort_entries-Ascending [] d = tt
sort_entries-Ascending ((seq, wire) ∷ m) d =
    insert_sorted-Ascending seq wire (sort_entries m) (ground (arith, d.0, has-sort_entries seq m))
      (sort_entries-Ascending m d.1)
