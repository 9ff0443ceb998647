-- ===== src/Message/Spec.antt =====
-- struct GroupSpec of src/Message.h: membership of fields and groups, by the map and by the flag
-- arrays of the tags below 1024 that `buildLookup` fills. An array is a function of the index.
use openfix.Prelude.{
  ℕ, Bool, true, false, Option, none, some, List, [], ◌∷◌, ◌==◌, ltb, if◌then◌else◌, is_empty, ◌≡◌,
  ◌≢◌, ◌⊎◌, inl, inr, refl, arith, Option-cases,
}
use openfix.LinkedHashMap.{has}
use openfix.Message.{GroupSpec, group_spec, SubSpecs, no_specs, sub_spec}

abbrev pub m_fields : GroupSpec → List (ℕ × Bool)
m_fields (group_spec fields _ _ _) = fields

abbrev pub m_groups : GroupSpec → SubSpecs
m_groups (group_spec _ subs _ _) = subs

-- `m_groups.find(tag)`
unfoldable pub find_spec : ℕ → SubSpecs → Option GroupSpec
find_spec tag no_specs = none
find_spec tag (sub_spec key spec subs) = if key == tag then some spec else find_spec tag subs

-- `lookup[tag] = true`
unfoldable pub set_flag : ℕ → (ℕ → Bool) → ℕ → Bool
set_flag tag flags n = if n == tag then true else flags n

-- The two loops of buildLookup, over arrays that are filled with false.
unfoldable pub build_field_lookup : List (ℕ × Bool) → (ℕ → Bool) → ℕ → Bool
unfolding set_flag
build_field_lookup [] flags = flags
build_field_lookup ((tag, required) ∷ fields) flags =
    build_field_lookup fields (if ltb tag 1024 then set_flag tag flags else flags)

unfoldable pub build_group_lookup : SubSpecs → (ℕ → Bool) → ℕ → Bool
unfolding set_flag
build_group_lookup no_specs flags = flags
build_group_lookup (sub_spec tag spec subs) flags =
    build_group_lookup subs (if ltb tag 1024 then set_flag tag flags else flags)

-- GroupSpec::empty
unfoldable pub spec_empty : GroupSpec → Bool
spec_empty (group_spec fields no_specs _ _) = is_empty fields
spec_empty (group_spec fields (sub_spec _ _ _) _ _) = false

-- GroupSpec::hasField, for a tag that is not negative, after buildLookup.
unfoldable pub spec_has_field : ℕ → GroupSpec → Bool
unfolding build_field_lookup
spec_has_field tag spec =
    if ltb tag 1024
    then build_field_lookup (m_fields spec) (λ n. false) tag
    else has tag (m_fields spec)

-- GroupSpec::findGroup, for a tag that is not negative, after buildLookup.
unfoldable pub find_group : ℕ → GroupSpec → Option GroupSpec
unfolding build_group_lookup find_spec
find_group tag spec =
    if ltb tag 1024
    then (if build_group_lookup (m_groups spec) (λ n. false) tag
        then find_spec tag (m_groups spec)
        else none)
    else find_spec tag (m_groups spec)

build_field_lookup_lem :
    (tag : ℕ) (fields : List (ℕ × Bool)) (flags : ℕ → Bool)
    → ltb tag 1024 ≡ true
    → build_field_lookup fields flags tag ≡ (if has tag fields then true else flags tag)
unfolding build_field_lookup set_flag has
build_field_lookup_lem tag [] flags h = refl
build_field_lookup_lem tag ((key, required) ∷ fields) flags h = ground (
  arith,
  build_field_lookup_lem tag fields (if ltb key 1024 then set_flag key flags else flags) h,
)

build_group_lookup_lem :
    (tag : ℕ) (subs : SubSpecs) (flags : ℕ → Bool)
    → ltb tag 1024 ≡ true
    → (find_spec tag subs ≢ none) ⊎ (flags tag ≡ true)
    → build_group_lookup subs flags tag ≡ true
unfolding build_group_lookup set_flag find_spec
build_group_lookup_lem tag no_specs flags h f = ground arith
build_group_lookup_lem tag (sub_spec key spec subs) flags h f =
    ground (
      arith,
      build_group_lookup_lem tag subs (if ltb key 1024 then set_flag key flags else flags) h,
    )

-- The flag arrays that buildLookup fills do not change an answer: a field is a member of a spec
-- exactly when its map has it, and the spec of a group is the one that the map has, for every tag
-- that is not negative.
pub spec_has_field-find_group :
    (tag : ℕ) (spec : GroupSpec)
    → (spec_has_field tag spec ≡ has tag (m_fields spec))
      × (find_group tag spec ≡ find_spec tag (m_groups spec))
unfolding spec_has_field find_group
spec_has_field-find_group tag spec = (
  ground (arith, build_field_lookup_lem tag (m_fields spec) (λ n. false)),
  elim (Option-cases (find_spec tag (m_groups spec))) [
    | inl e ↦ rw (find_group, e) ground arith
    | inr (sub, e) ↦
        rw (find_group, e) (ground (arith, build_group_lookup_lem tag (m_groups spec) (λ n. false)))
  ],
)
