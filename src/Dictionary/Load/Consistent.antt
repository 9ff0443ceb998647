-- ===== src/Dictionary/Load/Consistent.antt =====
-- The specs that DictionaryRegistry::load builds: their maps of fields and groups, and their order.
pub mod Loaded
use mathlib.Core.List.{reverse}
use openfix.Prelude.{
  ℕ, ◌+◌, ◌≤◌, Bool, false, Option, none, some, List, [], ◌∷◌, ◌++◌, ◌==◌, if◌then◌else◌, Bytes,
  codes, bytes_eq, is_empty, All, All-append, ◌≡◌, inl, inr, refl, arith, Bool-cases, Option-cases,
}
use openfix.LinkedHashMap.{has}
use openfix.Message.{GroupSpec, group_spec, SubSpecs, no_specs, sub_spec}
use openfix.Message.Spec.{m_fields, m_groups, find_spec}
use openfix.Dictionary.{Dictionary, find_key}
use openfix.Dictionary.Load.{
  Node, node, Nodes, no_nodes, next_node, Fix, Loading, Gives, Gives-bind, Gives-loaded, HashOrder,
  get_or, strcasecmp_eq,
}
use openfix.Dictionary.Load.Graph.{
  FieldTables, Components, no_fields, load_fields, no_components, first_pass, second_pass, toposort,
  change_key,
}
use openfix.Dictionary.Load.Build.{
  append_spec, insert_field, insert_group, merge_fields, merge_groups, place_group, empty_spec,
  Names, merge_component, build_group, build_nodes, build_node, build_components,
}
use openfix.Dictionary.Load.Registry.{
  BodySpecs, no_bodies, build_message, build_messages, build_dictionary, load_document, load_fix,
}

-- How often a tag occurs in the order, in the fields and in the groups of a spec.
abbrev pub occurrences : ℕ → List ℕ → ℕ
occurrences tag [] = 0
occurrences tag (t ∷ ts) = (if t == tag then 1 else 0) + occurrences tag ts

abbrev pub field_entries : ℕ → List (ℕ × Bool) → ℕ
field_entries tag [] = 0
field_entries tag ((t, required) ∷ fields) = (if t == tag then 1 else 0) + field_entries tag fields

abbrev pub group_entries : ℕ → SubSpecs → ℕ
group_entries tag no_specs = 0
group_entries tag (sub_spec t spec subs) = (if t == tag then 1 else 0) + group_entries tag subs

-- No map has two entries for a tag, and the order names each tag once for each of its entries, and
-- no other tag.
abbrev pub IsOrderOf : List ℕ → List (ℕ × Bool) → SubSpecs → Type 0
IsOrderOf order fields subs =
    (tag : ℕ)
    → (field_entries tag fields ≤ 1)
      × (group_entries tag subs ≤ 1)
      × (occurrences tag order ≡ field_entries tag fields + group_entries tag subs)

-- This holds of a spec and of the specs of its groups, at any depth.
unfoldable mutual
  pub Consistent : GroupSpec → Type 0
  Consistent (group_spec fields subs ordered order) =
      IsOrderOf order fields subs × EachConsistent subs

  pub EachConsistent : SubSpecs → Type 0
  EachConsistent no_specs = Unit
  EachConsistent (sub_spec tag spec subs) = Consistent spec × EachConsistent subs

-- A hash map of groups gives no entry that it does not have.
abbrev pub Each : (GroupSpec → Type 0) → SubSpecs → Type 0
Each P no_specs = Unit
Each P (sub_spec tag spec subs) = P spec × Each P subs

abbrev pub GivesOwnGroups : HashOrder → Type 1
GivesOwnGroups o =
    (P : GroupSpec → Type 0) (subs : SubSpecs) → Each P subs → Each P (o.group_entries subs)

pub EachConsistent→Each : (subs : SubSpecs) → EachConsistent subs → Each Consistent subs
unfolding EachConsistent
EachConsistent→Each no_specs h = tt
EachConsistent→Each (sub_spec tag spec subs) h = (h.0, EachConsistent→Each subs h.1)

pub Each→EachConsistent : (subs : SubSpecs) → Each Consistent subs → EachConsistent subs
unfolding EachConsistent
Each→EachConsistent no_specs h = tt
Each→EachConsistent (sub_spec tag spec subs) h = (h.0, Each→EachConsistent subs h.1)

occurrences-append :
    (tag t : ℕ) (ts : List ℕ)
    → occurrences tag (ts ++ t ∷ []) ≡ occurrences tag ts + (if t == tag then 1 else 0)
occurrences-append tag t [] = omega arith
occurrences-append tag t (x ∷ ts) = omega (arith, occurrences-append tag t ts)

field_entries-append :
    (tag t : ℕ) (required : Bool) (fields : List (ℕ × Bool))
    → field_entries tag (fields ++ (t, required) ∷ [])
      ≡ field_entries tag fields + (if t == tag then 1 else 0)
field_entries-append tag t required [] = omega arith
field_entries-append tag t required ((x, r) ∷ fields) =
    omega (arith, field_entries-append tag t required fields)

group_entries-append :
    (tag t : ℕ) (spec : GroupSpec) (subs : SubSpecs)
    → group_entries tag (append_spec subs t spec)
      ≡ group_entries tag subs + (if t == tag then 1 else 0)
unfolding append_spec
group_entries-append tag t spec no_specs = omega arith
group_entries-append tag t spec (sub_spec x s subs) =
    omega (arith, group_entries-append tag t spec subs)

no_field :
    (tag : ℕ) (fields : List (ℕ × Bool)) → has tag fields ≡ false → field_entries tag fields ≡ 0
unfolding has
no_field tag [] h = refl
no_field tag ((t, r) ∷ fields) h = ground (arith, no_field tag fields)

no_group : (tag : ℕ) (subs : SubSpecs) → find_spec tag subs ≡ none → group_entries tag subs ≡ 0
unfolding find_spec
no_group tag no_specs h = refl
no_group tag (sub_spec t s subs) h = ground (arith, no_group tag subs)

EachConsistent-append :
    (subs : SubSpecs) (tag : ℕ) (spec : GroupSpec)
    → EachConsistent subs
    → Consistent spec
    → EachConsistent (append_spec subs tag spec)
unfolding append_spec EachConsistent
EachConsistent-append no_specs tag spec h c = (c, tt)
EachConsistent-append (sub_spec t s subs) tag spec h c =
    (h.0, EachConsistent-append subs tag spec h.1 c)

pub insert_field-Consistent :
    (tag : ℕ) (required : Bool) (ret : GroupSpec)
    → Consistent ret
    → Gives Consistent (insert_field tag required ret)
unfolding insert_field Consistent
insert_field-Consistent tag required (group_spec fields subs ordered order) c =
    elim (Bool-cases (has tag fields)) [
      | inl there ↦ rw there tt
      | inr new ↦ rw new (
        λ t.
            let h = c.0 t in
            let e = no_field tag fields new in
            ground (
              arith,
              h,
              e,
              field_entries-append t tag required fields,
              occurrences-append t tag order,
            ),
        c.1,
      )
    ]

pub insert_group-Consistent :
    (tag : ℕ) (spec ret : GroupSpec)
    → Consistent spec
    → Consistent ret
    → Gives Consistent (insert_group tag spec ret)
unfolding insert_group Consistent
insert_group-Consistent tag spec (group_spec fields subs ordered order) s c =
    elim (Option-cases (find_spec tag subs)) [
      | inr (old, there) ↦ rw (there, insert_group) tt
      | inl new ↦
          rw (new, insert_group)
            (
              λ t.
                  let h = c.0 t in
                  let e = no_group tag subs new in
                  ground (
                    arith,
                    h,
                    e,
                    group_entries-append t tag spec subs,
                    occurrences-append t tag order,
                  ),
              EachConsistent-append subs tag spec c.1 s,
            )
    ]

pub merge_fields-Consistent :
    (entries : List (ℕ × Bool)) (ret : GroupSpec)
    → Consistent ret
    → Gives Consistent (merge_fields entries ret)
unfolding merge_fields
merge_fields-Consistent [] ret c = c
merge_fields-Consistent ((tag, required) ∷ entries) ret c =
    Gives-bind Consistent (insert_field tag required ret) _ λ ret' e.
      merge_fields-Consistent entries ret'
        (Gives-loaded Consistent e (insert_field-Consistent tag required ret c))

pub merge_groups-Consistent :
    (entries : SubSpecs) (ret : GroupSpec)
    → EachConsistent entries
    → Consistent ret
    → Gives Consistent (merge_groups entries ret)
unfolding merge_groups EachConsistent
merge_groups-Consistent no_specs ret s c = c
merge_groups-Consistent (sub_spec tag spec entries) ret s c =
    Gives-bind Consistent (insert_group tag spec ret) _ λ ret' e.
      merge_groups-Consistent entries ret' s.1
        (Gives-loaded Consistent e (insert_group-Consistent tag spec ret s.0 c))
