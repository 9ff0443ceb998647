-- ===== src/Message/Order.antt =====
-- Field lookups after an insertion by `insertFieldView` of src/Message.cpp.
use openfix.Prelude.{
  ℕ, Bool, true, false, not, ◌||◌, none, some, List, [], ◌∷◌, ◌++◌, ◌==◌, if◌then◌else◌, ◌≡◌, refl,
  arith, Bytes, ◌⊎◌, inl, inr, Bool-cases, append-nil, append_assoc,
}
use openfix.LinkedHashMap.{find, has, insert_before}
use openfix.LinkedHashMap.Laws.{find-put}
use openfix.Message.{
  FieldMap, field_map, m_ordered, m_field_order, get_field, has_field, get_spec, advance, stands_at,
  place, insert_field_view,
}

-- The lookup in `m` first, then in `n`.
find-both :
    (k : ℕ) (m n : List (ℕ × Bytes))
    → find k (m ++ n) ≡ (elim (find k m) [ none ↦ find k n | some v ↦ some v ])
unfolding find
find-both k [] n = refl
find-both k ((j, v) ∷ m) n = ground (arith, find-both k m n)

has-both : (k : ℕ) (m n : List (ℕ × Bytes)) → has k (m ++ n) ≡ (has k m || has k n)
unfolding has
has-both k [] n = refl
has-both k ((j, v) ∷ m) n = ground (arith, has-both k m n)

-- An entry between two parts, with a key that neither has.
find-between :
    (k tag : ℕ) (v : Bytes) (m n : List (ℕ × Bytes))
    → has tag m ≡ false
    → find k (m ++ (tag, v) ∷ n) ≡ (if tag == k then some v else find k (m ++ n))
unfolding find has
find-between k tag v [] n h = refl
find-between k tag v ((j, w) ∷ m) n h = ground (arith, find-between k tag v m n)

apart :
    (tag j : ℕ) (w : Bytes) (front back : List (ℕ × Bytes))
    → has tag (front ++ (j, w) ∷ back) ≡ false
    → (has tag front ≡ false) × ((tag == j) ≡ false)
unfolding has
apart tag j w front back h = ground (arith, has-both tag front ((j, w) ∷ back))

find-place :
    (k tag : ℕ) (v : Bytes) (front back : List (ℕ × Bytes)) (order : List ℕ)
    → has tag (front ++ back) ≡ false
    → find k (place tag v front back order) ≡ (if tag == k then some v else find k (front ++ back))
unfolding place insert_before
find-place k tag v front [] order h = rw (append-nil front) (find-put tag k v front)
find-place k tag v front ((j, w) ∷ back) order h =
    let (absent, other) = apart tag j w front back h in
    elim (Bool-cases (stands_at tag (advance j tag order))) [
      | inl here ↦ rw (other, here, h) (find-between k tag v front ((j, w) ∷ back) absent)
      | inr later ↦
          rw (other, later)
            (rw (append_assoc front ((j, w) ∷ []) back) at (
              find-place k tag v (front ++ (j, w) ∷ []) back (advance j tag order)
                (rw (append_assoc front ((j, w) ∷ []) back) h)))
    ]

-- Whether the place of an inserted field matters.
unfoldable pub keeps_order : Bool → FieldMap → Bool
keeps_order order m = elim (get_spec m) [
  | none ↦ false
  | some spec ↦ if order then m_ordered spec else false
]

-- A field that is set is found, and the other fields stay as they were, unless the message part
-- is ordered and had the tag already.
pub get_field-insert_field_view :
    (tag k : ℕ) (value : Bytes) (order : Bool) (m : FieldMap)
    → (has_field tag m ≡ false) ⊎ (keeps_order order m ≡ false)
    → get_field k (insert_field_view tag value order m)
      ≡ (if tag == k then some value else get_field k m)
unfolding get_field has_field insert_field_view keeps_order
get_field-insert_field_view tag k value order (field_map fields subs none seen) h =
    find-put tag k value fields
get_field-insert_field_view tag k value order (field_map fields subs (some spec) seen)
      (inl absent) =
    elim (Bool-cases (not order || not (m_ordered spec))) [
      | inl e ↦ rw e (find-put tag k value fields)
      | inr e ↦ rw e (find-place k tag value [] fields (m_field_order spec) absent)
    ]
get_field-insert_field_view tag k value order (field_map fields subs (some spec) seen) (inr plain) =
    let e : (not order || not (m_ordered spec)) ≡ true = ground arith in
    rw e (find-put tag k value fields)
