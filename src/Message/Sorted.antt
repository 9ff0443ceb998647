-- ===== src/Message/Sorted.antt =====
-- What sortFields of src/Message.cpp and the bitset of src/Message.h keep.
use openfix.Prelude.{
  ℕ, true, Option, none, some, List, [], ◌∷◌, ◌++◌, ◌==◌, ltb, if◌then◌else◌, ◌≡◌, refl, ◌∙◌, sym,
  arith, Bytes, inl, inr, Bool-cases, Option-cases,
}
use openfix.LinkedHashMap.{find, has, insert, erase, push_back_unchecked_dangerous}
use openfix.LinkedHashMap.Laws.{Distinct, find-none, find-erase, erase-Distinct}
use openfix.LinkedHashMap.Sort.{sort_entries, find-sort_entries}
use openfix.Message.{FieldMap, field_map, get_fields, get_field, has_field}
use openfix.Message.Parsing.{
  test_bit, set_field_view_or_detect_dup, take_ordered, insert_all, order_of, sort_fields,
}

abbrev or_else : Option Bytes → Option Bytes → Option Bytes
or_else none b = b
or_else (some v) b = some v

find-snoc :
    (k tag : ℕ) (v : Bytes) (m : List (ℕ × Bytes))
    → find k (m ++ (tag, v) ∷ []) ≡ or_else (find k m) (if tag == k then some v else none)
unfolding find
find-snoc k tag v [] = refl
find-snoc k tag v ((j, w) ∷ m) = ground (arith, find-snoc k tag v m)

find-insert :
    (k tag : ℕ) (v : Bytes) (m : List (ℕ × Bytes))
    → find k (insert tag v m).0 ≡ or_else (find k m) (if tag == k then some v else none)
unfolding insert
find-insert k tag v m = elim (Bool-cases (has tag m)) [
  | inl e ↦ elim (Option-cases (find k m)) [
    | inl f ↦ rw (e, f) ground (arith, e, find-none k m f)
    | inr (w, f) ↦ rw (e, f) refl
  ]
  | inr e ↦ rw e (find-snoc k tag v m)
]

find-insert_all :
    (k : ℕ) (es m : List (ℕ × Bytes)) → find k (insert_all es m) ≡ or_else (find k m) (find k es)
unfolding insert_all find
find-insert_all k [] m = elim (Option-cases (find k m)) [
  | inl f ↦ rw f refl
  | inr (w, f) ↦ rw f refl
]
find-insert_all k ((tag, v) ∷ es) m =
    find-insert_all k es (insert tag v m).0
    ∙ rw (find-insert k tag v m)
        (elim (Option-cases (find k m)) [ inl f ↦ rw f ground arith | inr (w, f) ↦ rw f refl ])

find-take_ordered :
    (k : ℕ) (order : List ℕ) (fields sorted : List (ℕ × Bytes))
    → Distinct fields
    → let (s, l) = take_ordered order fields sorted in
      or_else (find k s) (find k l) ≡ or_else (find k sorted) (find k fields)
unfolding take_ordered
find-take_ordered k [] fields sorted d = refl
find-take_ordered k (tag ∷ order) fields sorted d = elim (Option-cases (find tag fields)) [
  | inl e ↦ rw (take_ordered, e) (find-take_ordered k order fields sorted d)
  | inr (v, e) ↦
      rw (take_ordered, e)
        (find-take_ordered k order (erase tag fields) (insert tag v sorted).0
            (erase-Distinct tag fields d)
          ∙ rw (find-insert k tag v sorted, find-erase tag k fields d)
              (elim (Option-cases (find k sorted)) [
                | inl f ↦ rw f (elim (Bool-cases (tag == k)) [
                  | inl g ↦ let h : k ≡ tag = ground (arith, g) in rw (g, h, e) refl
                  | inr g ↦ rw g refl
                ])
                | inr (w, f) ↦ rw f refl
              ]))
]

-- Sorting the fields of a part moves them only: each tag that was there, and no other, is found
-- with the value that it had, where the tags are distinct.
pub get_field-sort_fields :
    (tag : ℕ) (m : FieldMap)
    → Distinct (get_fields m)
    → get_field tag (sort_fields m) ≡ get_field tag m
unfolding get_field sort_fields find
get_field-sort_fields tag (field_map fields subs spec seen) d =
    let (sorted, left) = take_ordered (order_of spec) fields [] in
    find-insert_all tag (sort_entries left) sorted
    ∙ rw (find-sort_entries tag left) (find-take_ordered tag (order_of spec) fields [] d)

-- The bits are those of the fields whose tags have one.
abbrev pub Synced : FieldMap → Type 0
Synced (field_map fields subs spec seen) =
    (tag : ℕ) → ltb tag 1024 ≡ true → test_bit tag seen ≡ has tag fields

has-snoc :
    (k tag : ℕ) (v : Bytes) (m : List (ℕ × Bytes))
    → has k (m ++ (tag, v) ∷ []) ≡ (if tag == k then true else has k m)
unfolding has
has-snoc k tag v [] = refl
has-snoc k tag v ((j, w) ∷ m) = ground (arith, has-snoc k tag v m)

-- Where the bits are those of the fields, the combined check and insertion of the parser tells by
-- them whether the field is there, exactly as a search of the map does, and the bits are those
-- of the fields afterwards.
pub set_field_view_or_detect_dup-Synced :
    (tag : ℕ) (value : Bytes) (m : FieldMap)
    → Synced m
    → ((set_field_view_or_detect_dup tag value m).0 ≡ has_field tag m)
      × Synced (set_field_view_or_detect_dup tag value m).1
unfolding set_field_view_or_detect_dup has_field insert push_back_unchecked_dangerous test_bit
set_field_view_or_detect_dup-Synced tag value (field_map fields subs spec seen) h =
    elim (Bool-cases (ltb tag 1024)) [
      | inl e ↦ elim (Bool-cases (test_bit tag seen)) [
        | inl f ↦ rw (e, f) (sym f ∙ h tag e, h)
        | inr f ↦
            rw (e, f) (sym f ∙ h tag e, λ k b. ground (arith, h k b, has-snoc k tag value fields))
      ]
      | inr e ↦ elim (Bool-cases (has tag fields)) [
        | inl f ↦ rw (e, f) (refl, h)
        | inr f ↦ rw (e, f) (refl, λ k b. ground (arith, e, h k b, has-snoc k tag value fields))
      ]
    ]
