-- ===== src/Dictionary/RoundTrip/Fill.antt =====
-- A field map of src/Message.h that the parser fills with fields whose tags are new.
use openfix.Prelude.{
  ℕ, true, false, List, [], ◌∷◌, ◌++◌, append-nil, append_assoc, ltb, if◌then◌else◌, ◌≡◌, refl, ◌∙◌,
  sym, arith, Bytes,
}
use openfix.LinkedHashMap.{has, insert, push_back_unchecked_dangerous}
use openfix.LinkedHashMap.Laws.{Distinct}
use openfix.Message.{FieldMap, field_map, get_fields, get_groups, empty_field_map}
use openfix.Message.Parsing.{test_bit, set_field_view_or_detect_dup}

has-append {ℓ} :
    {V : Type ℓ} (k : ℕ) (m n : List (ℕ × V)) → has k (m ++ n) ≡ (if has k m then true else has k n)
unfolding has
has-append k [] n = refl
has-append k ((j, v) ∷ m) n = ground (arith, has-append k m n)

abbrev pub m_seen_tags : FieldMap → List ℕ
m_seen_tags (field_map _ _ _ seen) = seen

-- The field at the end, with its bit where it has one.
abbrev pub append_field : ℕ → Bytes → FieldMap → FieldMap
append_field tag value (field_map fields subs spec seen) =
    field_map (fields ++ (tag, value) ∷ []) subs spec (if ltb tag 1024 then tag ∷ seen else seen)

abbrev pub fill : List (ℕ × Bytes) → FieldMap → FieldMap
fill [] m = m
fill ((tag, value) ∷ fields) m = fill fields (append_field tag value m)

-- Every bit belongs to a field.
abbrev pub Tidy : FieldMap → Type 0
Tidy m = (tag : ℕ) → test_bit tag (m_seen_tags m) ≡ true → has tag (get_fields m) ≡ true

abbrev pub New : ℕ → Bytes → FieldMap → Type 0
New tag value m = set_field_view_or_detect_dup tag value m ≡ (false, append_field tag value m)

-- Each field is new where it is appended.
abbrev pub News : List (ℕ × Bytes) → FieldMap → Type 0
News [] m = Unit {0}
News ((tag, value) ∷ fields) m = New tag value m × News fields (append_field tag value m)

Tidy-New :
    (tag : ℕ) (value : Bytes) (m : FieldMap)
    → Tidy m
    → has tag (get_fields m) ≡ false
    → New tag value m
unfolding set_field_view_or_detect_dup insert push_back_unchecked_dangerous
Tidy-New tag value (field_map fields subs spec seen) tidy absent = ground (arith, tidy tag)

Tidy-append_field :
    (tag : ℕ) (value : Bytes) (m : FieldMap) → Tidy m → Tidy (append_field tag value m)
unfolding test_bit has
Tidy-append_field tag value (field_map fields subs spec seen) tidy k h =
    ground (arith, tidy k, has-append k fields ((tag, value) ∷ []))

-- No tag of the one list is in the other.
abbrev Apart : List (ℕ × Bytes) → List (ℕ × Bytes) → Type 0
Apart [] m = Unit {0}
Apart ((tag, value) ∷ fields) m = (has tag m ≡ false) × Apart fields m

Apart-append :
    (fields m : List (ℕ × Bytes)) (tag : ℕ) (value : Bytes)
    → Apart fields m
    → has tag fields ≡ false
    → Apart fields (m ++ (tag, value) ∷ [])
unfolding has
Apart-append [] m tag value a h = tt
Apart-append ((k, v) ∷ fields) m tag value a h = (
  ground (arith, a.0, h, has-append k m ((tag, value) ∷ [])),
  Apart-append fields m tag value a.1 (ground (arith, h)),
)

Apart-News :
    (fields : List (ℕ × Bytes)) (m : FieldMap)
    → Distinct fields
    → Apart fields (get_fields m)
    → Tidy m
    → News fields m
Apart-News [] m d a tidy = tt
Apart-News ((tag, value) ∷ fields) (field_map old subs spec seen) d a tidy = (
  Tidy-New tag value (field_map old subs spec seen) tidy a.0,
  Apart-News fields _ d.1 (Apart-append fields old tag value a.1 d.0)
      (Tidy-append_field tag value (field_map old subs spec seen) tidy),
)

Apart-nil : (fields : List (ℕ × Bytes)) → Apart fields []
unfolding has
Apart-nil [] = tt
Apart-nil ((tag, value) ∷ fields) = (refl, Apart-nil fields)

-- Fields with distinct tags are new in an empty map.
pub Distinct-News : (fields : List (ℕ × Bytes)) → Distinct fields → News fields empty_field_map
unfolding test_bit
Distinct-News fields d = Apart-News fields empty_field_map d (Apart-nil fields) (λ tag h. cc)

-- The fields of a map that was filled.
pub fill-fields :
    (fields : List (ℕ × Bytes)) (m : FieldMap) → get_fields (fill fields m) ≡ get_fields m ++ fields
fill-fields [] m = sym (append-nil (get_fields m))
fill-fields ((tag, value) ∷ fields) (field_map old subs spec seen) =
    fill-fields fields _ ∙ append_assoc old ((tag, value) ∷ []) fields

pub fill-groups :
    (fields : List (ℕ × Bytes)) (m : FieldMap) → get_groups (fill fields m) ≡ get_groups m
fill-groups [] m = refl
fill-groups ((tag, value) ∷ fields) (field_map old subs spec seen) = fill-groups fields _
